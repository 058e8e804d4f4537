-- ===== src/RollingUpdate/Process.antt =====
-- The reconcile of a StatefulSet: the drains that an update left behind, or the next batch of it.
use soperator.Prelude.{
  ℕ, zero, suc, ◌+◌, ◌-◌, Bool, true, false, not, Option, none, some, List, [], ◌∷◌, Bytes,
  bytes_below, String, comparable_bytes, comparable_string, ◌==◌, contains, lookup, put, map,
  if◌then◌else◌, leb,
}
use soperator.Exec.{
  is_not_found, Result, ok, err, Exec, message, pure, raise, wrapped, lifted, ◌>>=◌, ◌>>◌,
}
use soperator.Text.{join_commas}
use soperator.RollingUpdate.{Pod, WorkerNode, StatefulSet, Cluster, RebootRequest, Client}
use soperator.RollingUpdate.Decision.{
  label_value, operation_id_label, operation_phase_label, revision_label, default_reboot_reason,
  pod_ready, container_crash_loop_back_off, worker_operation_phase, WorkerUpdateAction,
  schedule_reboot, wait, track_in_flight, undrain, delete, decide_worker_update_action,
  reboot_budget, unavailable_replicas,
}

-- `ctrl.Result`, by its `RequeueAfter` in seconds; 0 stands for the empty result.
abbrev pub Requeue : Type 0
Requeue = ℕ

unfoldable pub filter_outdated_pods : List Pod → String → List Pod
unfolding lookup
filter_outdated_pods [] revision = []
filter_outdated_pods (pod ∷ pods) revision =
    let rest = filter_outdated_pods pods revision in
    if label_value pod.labels revision_label == revision then rest else pod ∷ rest

-- `sort.Slice` by the name, which is unique among the pods of a namespace.
unfoldable pub insert_by_name : Pod → List Pod → List Pod
insert_by_name pod [] = pod ∷ []
insert_by_name pod (q ∷ pods) =
    if bytes_below q.name pod.name then q ∷ insert_by_name pod pods else pod ∷ q ∷ pods

unfoldable pub sort_by_name : List Pod → List Pod
unfolding insert_by_name
sort_by_name [] = []
sort_by_name (pod ∷ pods) = insert_by_name pod (sort_by_name pods)

-- The nodes of the pods by their names, from the map built so far.
unfoldable pub index_from :
    List (Bytes × WorkerNode) → List WorkerNode → List Bytes → List (Bytes × WorkerNode)
unfolding contains put
index_from found [] names = found
index_from found (node ∷ nodes) names =
    index_from (if contains names node.name then put node.name node found else found) nodes names

unfoldable pub index_slurm_nodes_for_pods : List WorkerNode → List Pod → List (Bytes × WorkerNode)
unfolding index_from
index_slurm_nodes_for_pods nodes pods = index_from [] nodes (map (λ pod. pod.name) pods)

-- `client.IgnoreNotFound(err)`
abbrev pub unless_not_found : Result (Unit {0}) → Result (Unit {0})
unless_not_found (ok u) = ok u
unless_not_found (err e) = if is_not_found e then ok tt else err e

-- `pod.Labels` after the start of a worker operation.
abbrev pub stopping : String → Pod → Pod
stopping operation_id pod = record pod {
  labels = put operation_phase_label "stopping" (put operation_id_label operation_id pod.labels);
}

-- What the loop over the decisions has gathered.
pub record Gathered : Type 0 where
  pub candidates : List (Pod × WorkerNode)
  pub ready_pods_consuming_budget : ℕ

abbrev consuming : Pod → Gathered → Gathered
consuming pod g = record g {
  ready_pods_consuming_budget =
      if pod_ready pod then suc g.ready_pods_consuming_budget else g.ready_pods_consuming_budget;
}

abbrev proposing : Pod → WorkerNode → Gathered → Gathered
proposing pod node g = record g { candidates = (pod, node) ∷ g.candidates }

abbrev pub reboot_request : List Bytes → RebootRequest
reboot_request names = record {
  node_list = join_commas names;
  asap = true;
  reason = default_reboot_reason;
  power_action = "soperator-worker-handoff";
}

module _ {S : Type 0} (client : Client S) where
  abbrev pub delete_pod : String → Pod → Exec S (Unit {0})
  delete_pod text pod =
      wrapped text (λ s. let (r, s') = client.delete_pod pod s in (unless_not_found r, s'))

  unfoldable pub get_pod_list : StatefulSet → Exec S (List Pod)
  get_pod_list sts = do
    selector ← wrapped "failed to convert label selector" (lifted (client.as_selector sts.selector))
    wrapped "failed to list pods" (client.list_pods sts.namespace selector)

  -- The first loop: the pods whose handoff is complete are deleted, and counted; the others stay.
  unfoldable pub delete_completed : String → List Pod → Exec S (List Pod × ℕ)
  delete_completed operation_id [] = pure ([], 0)
  delete_completed operation_id (pod ∷ pods) =
      let rest = delete_completed operation_id pods in
      if not (worker_operation_phase pod operation_id == "ready")
      then (rest >>= λ (to_stop, deleted). pure (pod ∷ to_stop, deleted))
      else (delete_pod "delete pod with completed worker handoff" pod >>= λ u.
          rest >>= λ (to_stop, deleted). pure (to_stop, suc deleted))

  -- The second loop: it ends at the first pod whose init container crashes, which it deletes.
  unfoldable pub delete_crash_looping : List Pod → Exec S Bool
  delete_crash_looping [] = pure false
  delete_crash_looping (pod ∷ pods) =
      let rest = delete_crash_looping pods in
      if not (container_crash_loop_back_off pod.init_statuses "worker-init")
      then rest
      else (delete_pod "delete outdated pod with crash-looping worker init" pod >>= λ u. pure true)

  -- One turn of the third loop, with the rest of it.
  abbrev pub act :
      Cluster → WorkerUpdateAction → Pod → WorkerNode → Exec S Gathered → Exec S Gathered
  act cluster undrain pod node rest = do
    wrapped "undrain stale rolling update node" (client.undrain_node cluster node.name)
    g ← rest
    pure (consuming pod g)
  act cluster delete pod node rest = do
    delete_pod "delete safely offline outdated pod" pod
    g ← rest
    pure (consuming pod g)
  act cluster wait pod node rest = rest
  act cluster track_in_flight pod node rest = rest >>= λ g. pure (consuming pod g)
  act cluster schedule_reboot pod node rest = rest >>= λ g. pure (proposing pod node g)

  abbrev pub with_node :
      Cluster → String → Pod → Option WorkerNode → Exec S Gathered → Exec S Gathered
  with_node cluster operation_id pod none rest =
      raise (message "slurm node is missing from list nodes response")
  with_node cluster operation_id pod (some node) rest =
      act cluster (decide_worker_update_action pod node operation_id) pod node rest

  unfoldable pub act_on_pods :
      Cluster → String → List (Bytes × WorkerNode) → List Pod → Exec S Gathered
  unfolding lookup
  act_on_pods cluster operation_id nodes [] =
      pure (record { candidates = []; ready_pods_consuming_budget = 0 })
  act_on_pods cluster operation_id nodes (pod ∷ pods) =
      with_node cluster operation_id pod (lookup nodes pod.name)
        (act_on_pods cluster operation_id nodes pods)

  abbrev pub start_operation : String → Pod → Exec S (Unit {0})
  start_operation operation_id pod =
      if not (worker_operation_phase pod operation_id == "stopping")
      then wrapped "start worker operation" (client.patch_pod pod (stopping operation_id pod))
      else pure tt

  -- The last loop, which ends when no slot is left: the names of the nodes to reboot.
  unfoldable pub start_operations : String → ℕ → List (Pod × WorkerNode) → Exec S (List Bytes)
  start_operations operation_id slots [] = pure []
  start_operations operation_id zero (candidate ∷ candidates) = pure []
  start_operations operation_id (suc slots) ((pod, node) ∷ candidates) = do
    start_operation operation_id pod
    names ← start_operations operation_id slots candidates
    pure (node.name ∷ names)

  abbrev pub reboot_proposed : Cluster → List Bytes → Exec S (Unit {0})
  reboot_proposed cluster [] = pure tt
  reboot_proposed cluster (name ∷ names) =
      wrapped "schedule slurm reboot through rest api"
        (client.reboot_nodes cluster (reboot_request (name ∷ names)))

  -- What follows once the decisions are made. The available slots are the budget without the
  -- replicas that are not available and the ready pods that go in this run.
  unfoldable pub reboot_within_budget :
      Cluster → String → StatefulSet → Gathered → Exec S (Unit {0})
  unfolding start_operations join_commas reboot_budget
  reboot_within_budget cluster operation_id sts g =
      let used : ℕ = unavailable_replicas sts + g.ready_pods_consuming_budget in
      if leb (reboot_budget client sts) used
      then pure tt
      else (start_operations operation_id (reboot_budget client sts - used) g.candidates
          >>= reboot_proposed cluster)

  abbrev pub list_nodes_of : Cluster → Exec S (List WorkerNode)
  list_nodes_of cluster s =
      if not (client.has_cluster cluster s)
      then raise (message "no slurm api client") s
      else client.list_nodes cluster s

  abbrev pub cluster_for : StatefulSet → String → Cluster
  cluster_for sts cluster_name = record { namespace = sts.namespace; name = cluster_name }

  -- The third loop and what follows, for the pods that are to stop.
  unfoldable pub update_pods : Cluster → String → StatefulSet → List Pod → Exec S (Unit {0})
  unfolding index_slurm_nodes_for_pods act_on_pods reboot_within_budget
  update_pods cluster operation_id sts pods = do
    nodes ← list_nodes_of cluster
    g ← act_on_pods cluster operation_id (index_slurm_nodes_for_pods nodes pods) pods
    reboot_within_budget cluster operation_id sts g

  abbrev pub unless_deleted : Bool → Exec S (Unit {0}) → Exec S (Unit {0})
  unless_deleted true next = pure tt
  unless_deleted false next = next

  abbrev pub after_completed : Cluster → String → StatefulSet → List Pod × ℕ → Exec S (Unit {0})
  after_completed cluster operation_id sts (to_stop, suc deleted) = pure tt
  after_completed cluster operation_id sts (to_stop, zero) = do
    deleted ← delete_crash_looping to_stop
    unless_deleted deleted (update_pods cluster operation_id sts to_stop)

  unfoldable pub process_rolling_update :
      Cluster → String → StatefulSet → List Pod → Exec S (Unit {0})
  unfolding sort_by_name delete_completed delete_crash_looping update_pods
  process_rolling_update cluster operation_id sts [] = pure tt
  process_rolling_update cluster operation_id sts (pod ∷ pods) = do
    r ← delete_completed operation_id (sort_by_name (pod ∷ pods))
    after_completed cluster operation_id sts r
