-- ===== src/RollingUpdate/Guards.antt =====
-- When the controller may delete, undrain, mark or reboot: the conditions of its calls.
use soperator.Prelude.{
  IsAmong, ℕ, suc, ◌+◌, ◌≤◌, ◌≡◌, ◌⊎◌, String, Bool, true, false, Option, none, some, List, [], ◌∷◌,
  Bytes, comparable_bytes, comparable_string, ◌==◌, lookup, All, if◌then◌else◌,
}
use soperator.Exec.{ok}
use soperator.Exec.Keeps.{Keeps}
use soperator.Text.{join_commas}
use soperator.RollingUpdate.{Pod, WorkerNode, StatefulSet, Cluster, RebootRequest, Client}
use soperator.RollingUpdate.Decision.{
  label_value, revision_label, pod_ready, container_crash_loop_back_off, worker_operation_phase,
  stale_rolling_update_drain, safe_to_delete_offline_slurm_node, is_given_up, WorkerUpdateAction,
  schedule_reboot, wait, track_in_flight, undrain, delete, decide_worker_update_action,
  reboot_budget, unavailable_replicas,
}
use soperator.RollingUpdate.Process.{
  stopping, get_pod_list, filter_outdated_pods, sort_by_name, index_slurm_nodes_for_pods,
}

abbrev pub length : List Bytes → ℕ
length [] = 0
length (x ∷ xs) = suc (length xs)

abbrev pub IsOutdated : StatefulSet → Pod → Type 0
IsOutdated sts pod = (label_value pod.labels revision_label == sts.update_revision) ≡ false

-- Whether a ready pod goes with the action.
abbrev pub goes : WorkerUpdateAction → Bool
goes undrain = true
goes delete = true
goes wait = false
goes track_in_flight = true
goes schedule_reboot = false

abbrev goes_with : StatefulSet → Pod → Option WorkerNode → Bool
goes_with sts pod none = false
goes_with sts pod (some node) =
    if pod_ready pod then goes (decide_worker_update_action pod node sts.update_revision) else false

-- The number of the ready pods that are undrained, deleted, or on their way to a reboot.
abbrev pub taken : StatefulSet → List (Bytes × WorkerNode) → List Pod → ℕ
taken sts nodes [] = 0
taken sts nodes (pod ∷ pods) =
    let rest = taken sts nodes pods in
    if goes_with sts pod (lookup nodes pod.name) then suc rest else rest

module _ {S : Type 0} (client : Client S) (cluster : Cluster) (sts : StatefulSet) where
  -- The node was in a list of the nodes of the cluster that was read.
  abbrev pub Seen : WorkerNode → Type 0
  Seen node =
      (nodes : List WorkerNode) × ((s : S) × ((client.list_nodes cluster s).0 ≡ ok nodes))
      × IsAmong node nodes

  -- The node of the pod was seen, and is offline without allocations or a handoff that goes on
  -- elsewhere.
  abbrev pub IsOffline : Pod → Type 0
  IsOffline pod =
      (node : WorkerNode) × Seen node
      × (node.name ≡ pod.name)
      × (is_given_up pod node sts.update_revision ≡ true)
      × (safe_to_delete_offline_slurm_node node ≡ true)

  abbrev pub MayDelete : Pod → Type 0
  MayDelete pod =
      IsOutdated sts pod
      × ((worker_operation_phase pod sts.update_revision ≡ "ready")
          ⊎ (container_crash_loop_back_off pod.init_statuses "worker-init" ≡ true)
          ⊎ IsOffline pod)

  abbrev pub MayUndrain : WorkerNode → Type 0
  MayUndrain node = Seen node × (stale_rolling_update_drain node ≡ true)

  -- The node of the outdated pod was seen, and a reboot is what is decided for them.
  abbrev pub IsProposed : Pod → WorkerNode → Type 0
  IsProposed pod node =
      IsOutdated sts pod
      × Seen node
      × (node.name ≡ pod.name)
      × (decide_worker_update_action pod node sts.update_revision ≡ schedule_reboot)

  -- The outdated pods of a list, in the order of the code.
  abbrev pub outdated_of : List Pod → List Pod
  outdated_of pods = sort_by_name (filter_outdated_pods pods sts.update_revision)

  -- Lists of the pods and of the nodes were read; each node of the request was proposed; and
  -- together with the replicas that are not available and the ready pods that go in this run, the
  -- nodes are within the budget.
  abbrev pub MayReboot : RebootRequest → Type 0
  MayReboot request =
      (names : List Bytes) × (pods : List Pod) × (nodes : List WorkerNode) × ((s : S)
        × ((get_pod_list client sts s).0 ≡ ok pods))
      × ((s : S) × ((client.list_nodes cluster s).0 ≡ ok nodes))
      × (request.node_list ≡ join_commas names)
      × All (λ name. (pod : Pod) × (node : WorkerNode) × IsProposed pod node × (node.name ≡ name))
          names
      × (length names
            + (unavailable_replicas sts
                + taken sts (index_slurm_nodes_for_pods nodes (outdated_of pods))
                    (outdated_of pods))
          ≤ reboot_budget client sts)

  -- A property of the state that is left alone by the reads and by the calls under their
  -- conditions.
  pub record IsGuarded (U : S → Type 0) : Type 0 where
    pub list_pods_keeps : (ns sel : String) → Keeps U (client.list_pods ns sel)
    pub list_nodes_keeps : Keeps U (client.list_nodes cluster)
    pub delete_keeps : (pod : Pod) → MayDelete pod → Keeps U (client.delete_pod pod)
    pub undrain_keeps :
        (node : WorkerNode) → MayUndrain node → Keeps U (client.undrain_node cluster node.name)
    pub patch_keeps :
        (pod : Pod) (node : WorkerNode)
        → IsProposed pod node
        → Keeps U (client.patch_pod pod (stopping sts.update_revision pod))
    pub reboot_keeps :
        (request : RebootRequest)
        → MayReboot request
        → Keeps U (client.reboot_nodes cluster request)
