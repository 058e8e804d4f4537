-- ===== src/RollingUpdate/Steps.antt =====
-- The loops over the outdated pods stay within the conditions of their calls.
use text.Mathlib.TextEquality.{eq_iff}
use soperator.Prelude.{
  IsAmong, ℕ, suc, ◌≡◌, refl, sym, ap, ◌∙◌, inl, inr, Bool, true, false, not, ◌&&◌, String, some,
  List, [], ◌∷◌, Bytes, comparable_bytes, comparable_string, ◌==◌, bytes_beq_iff, bytes_below,
  contains, lookup, put, lookup-put, map, All, Bool-cases, arith,
}
use soperator.Exec.{is_not_found, Result, ok, err}
use soperator.Exec.Runs.{Outcome, Runs, Runs-bind, Runs-pure, Runs-wrapped, Runs-if}
use soperator.Exec.Keeps.{Keeps, Keeps-bind, Keeps-pure}
use soperator.RollingUpdate.{Pod, WorkerNode, StatefulSet, Cluster, Client}
use soperator.RollingUpdate.Decision.{
  label_value, revision_label, container_crash_loop_back_off, worker_operation_phase,
  stale_rolling_update_drain, safe_to_delete_offline_slurm_node, is_given_up, action_for, undrain,
  delete, decide_worker_update_action,
}
use soperator.RollingUpdate.Process.{
  unless_not_found, insert_by_name, sort_by_name, filter_outdated_pods, index_from,
  index_slurm_nodes_for_pods, delete_pod, delete_completed, delete_crash_looping,
}
use soperator.RollingUpdate.Guards.{IsOutdated, MayDelete, IsGuarded}

All-insert_by_name :
    (P : Pod → Type 0) (pod : Pod) (pods : List Pod)
    → P pod
    → All P pods
    → All P (insert_by_name pod pods)
unfolding insert_by_name
All-insert_by_name P pod [] p h = (p, tt)
All-insert_by_name P pod (q ∷ pods) p h = elim (Bool-cases (bytes_below q.name pod.name)) [
  | inl e ↦ rw e (h.0, All-insert_by_name P pod pods p h.1)
  | inr e ↦ rw e (p, h)
]

pub All-sort_by_name : (P : Pod → Type 0) (pods : List Pod) → All P pods → All P (sort_by_name pods)
unfolding sort_by_name
All-sort_by_name P [] h = tt
All-sort_by_name P (pod ∷ pods) h =
    All-insert_by_name P pod (sort_by_name pods) h.0 (All-sort_by_name P pods h.1)

pub filter_outdated_pods-IsOutdated :
    (sts : StatefulSet) (pods : List Pod)
    → All (IsOutdated sts) (filter_outdated_pods pods sts.update_revision)
unfolding filter_outdated_pods
filter_outdated_pods-IsOutdated sts [] = tt
filter_outdated_pods-IsOutdated sts (pod ∷ pods) =
    elim (Bool-cases (label_value pod.labels revision_label == sts.update_revision)) [
      | inl e ↦ rw e (filter_outdated_pods-IsOutdated sts pods)
      | inr e ↦ rw e (e, filter_outdated_pods-IsOutdated sts pods)
    ]

-- A node that is found under a name has it, and is one of the list.
abbrev IsFrom : List WorkerNode → Bytes → WorkerNode → Type 0
IsFrom nodes name node = (node.name ≡ name) × IsAmong node nodes

IsAmong-weaken : {A : Type 0} (a b : A) (xs : List A) → IsAmong a xs → IsAmong a (b ∷ xs)
IsAmong-weaken a b xs h = inr h

lookup-index_from :
    (all nodes : List WorkerNode) (found : List (Bytes × WorkerNode)) (names : List Bytes)
    → ((name : Bytes) (node : WorkerNode) → lookup found name ≡ some node → IsFrom all name node)
    → ((node : WorkerNode) → IsAmong node nodes → IsAmong node all)
    → (name : Bytes) (node : WorkerNode) → lookup (index_from found nodes names) name ≡ some node
    → IsFrom all name node
unfolding index_from
lookup-index_from all [] found names h into name node e = h name node e
lookup-index_from all (n ∷ nodes) found names h into name node e =
    elim (Bool-cases (contains names n.name)) [
      | inr out ↦
          lookup-index_from all nodes found names h (λ m q. into m (inr q)) name node (rw out at e)
      | inl kept ↦
          lookup-index_from all nodes (put n.name n found) names
            (λ k m q. elim (Bool-cases (n.name == k)) [
              | inl same ↦
                  let p : n ≡ m = ground (arith, lookup-put n.name n found k, q, same) in
                  let r : n.name ≡ k = (bytes_beq_iff n.name k).0 same in
                  (ap (λ (x : WorkerNode). x.name) (sym p) ∙ r, into m (inl p))
              | inr other ↦ h k m (ground (arith, lookup-put n.name n found k, q, other))
            ])
            (λ m q. into m (inr q)) name node (rw kept at e)
    ]

pub lookup-index_slurm_nodes_for_pods :
    (nodes : List WorkerNode) (pods : List Pod) (name : Bytes) (node : WorkerNode)
    → lookup (index_slurm_nodes_for_pods nodes pods) name ≡ some node
    → IsFrom nodes name node
unfolding index_slurm_nodes_for_pods lookup
lookup-index_slurm_nodes_for_pods nodes pods name node e =
    lookup-index_from nodes nodes [] (map (λ pod. pod.name) pods)
      (λ k m q. absurd (ground (arith, q))) (λ m q. q) name node e

action_for-undrain :
    (stale safe crashing rebooting : Bool)
    → action_for stale safe crashing rebooting ≡ undrain
    → stale ≡ true
action_for-undrain stale safe crashing rebooting e = ground (arith, e)

action_for-delete :
    (stale safe crashing rebooting : Bool)
    → action_for stale safe crashing rebooting ≡ delete
    → safe ≡ true
action_for-delete stale safe crashing rebooting e = ground (arith, e)

both : (a b : Bool) → (a && b) ≡ true → (a ≡ true) × (b ≡ true)
both a b e = ground (arith, e)

pub decide-undrain :
    (pod : Pod) (node : WorkerNode) (op : String)
    → decide_worker_update_action pod node op ≡ undrain
    → stale_rolling_update_drain node ≡ true
unfolding decide_worker_update_action
decide-undrain pod node op e = action_for-undrain _ _ _ _ e

pub decide-delete :
    (pod : Pod) (node : WorkerNode) (op : String)
    → decide_worker_update_action pod node op ≡ delete
    → (is_given_up pod node op ≡ true) × (safe_to_delete_offline_slurm_node node ≡ true)
unfolding decide_worker_update_action
decide-delete pod node op e = both _ _ (action_for-delete _ _ _ _ e)

unless_not_found-Outcome :
    {S : Type 0} (U : S → Type 0) (r : Result (Unit {0})) (s : S)
    → Outcome (λ u. U) U r s
    → Outcome (λ u. U) U (unless_not_found r) s
unless_not_found-Outcome U (ok u) s h = h
unless_not_found-Outcome U (err e) s h = elim (Bool-cases (is_not_found e)) [
  | inl gone ↦ rw gone h
  | inr other ↦ rw other h
]

module _ {S : Type 0} (client : Client S) (cluster : Cluster) (sts : StatefulSet) (U : S → Type 0)
    (guards : IsGuarded client cluster sts U) where
  pub delete_pod-Keeps :
      (text : String) (pod : Pod)
      → MayDelete client cluster sts pod
      → Keeps U (delete_pod client text pod)
  delete_pod-Keeps text pod may = Runs-wrapped text _ (record {
    at = λ s u.
        unless_not_found-Outcome U (client.delete_pod pod s).0 (client.delete_pod pod s).1
          ((guards.delete_keeps pod may).at s u);
  })

  -- Without a deletion all the pods are left, in order.
  abbrev pub Left : List Pod → List Pod × ℕ → Type 0
  Left pods r = (r.1 ≡ 0) → r.0 ≡ pods

  pub delete_completed-Runs :
      (pods : List Pod)
      → All (IsOutdated sts) pods
      → Runs U (delete_completed client sts.update_revision pods) (λ r s. U s × Left pods r) U
  unfolding delete_completed
  delete_completed-Runs [] h = Runs-pure ([], 0) (λ s u. (u, λ e. refl))
  delete_completed-Runs (pod ∷ pods) (old, h) =
      let rest = delete_completed client sts.update_revision pods in
      let ready = worker_operation_phase pod sts.update_revision == "ready" in
      Runs-if (not ready) _ _
        (λ e.
          Runs-bind rest _ (delete_completed-Runs pods h)
            (λ r. Runs-pure (pod ∷ r.0, r.1) (λ s q. (q.0, λ z. ap (λ l. pod ∷ l) (q.1 z)))))
        (λ e.
          let same : worker_operation_phase pod sts.update_revision ≡ "ready" =
            (eq_iff _ _).0 (ground (arith, e)) in
          Runs-bind (delete_pod client "delete pod with completed worker handoff" pod) _
            (delete_pod-Keeps "delete pod with completed worker handoff" pod (old, inl same))
            (λ u.
              Runs-bind rest _ (delete_completed-Runs pods h)
                (λ r. Runs-pure (r.0, suc r.1) (λ s q. (q.0, λ z. absurd (ground (arith, z)))))))

  pub delete_crash_looping-Keeps :
      (pods : List Pod) → All (IsOutdated sts) pods → Keeps U (delete_crash_looping client pods)
  unfolding delete_crash_looping
  delete_crash_looping-Keeps [] h = Keeps-pure U false
  delete_crash_looping-Keeps (pod ∷ pods) (old, h) =
      let crashing = container_crash_loop_back_off pod.init_statuses "worker-init" in
      let text : String = "delete outdated pod with crash-looping worker init" in
      Runs-if (not crashing) _ _ (λ e. delete_crash_looping-Keeps pods h)
        (λ e.
          Keeps-bind U (delete_pod client text pod) _
            (delete_pod-Keeps text pod (old, inr (inl (ground (arith, e)))))
            (λ u. Keeps-pure U true))
