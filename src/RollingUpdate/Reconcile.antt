-- ===== src/RollingUpdate/Reconcile.antt =====
-- Reconcile of the rolling update controller, and the cleanup after an update.
pub mod Safety
use soperator.Prelude.{
  ℕ, zero, suc, Bool, true, false, not, ◌&&◌, ◌||◌, Option, none, some, List, [], ◌∷◌, Bytes,
  String, comparable_bytes, comparable_string, ◌==◌, contains, lookup, map, if◌then◌else◌, nat_beq,
}
use soperator.Exec.{
  Err, is_not_found, Result, ok, err, Exec, message, pure, raise, wrapped, attempt, ◌>>=◌, ◌>>◌,
}
use soperator.RollingUpdate.{Pod, WorkerNode, StatefulSet, Cluster, Client}
use soperator.RollingUpdate.Decision.{
  label_value, revision_label, pod_ready, stale_rolling_update_drain, replicas_of,
}
use soperator.RollingUpdate.Process.{
  Requeue, filter_outdated_pods, get_pod_list, list_nodes_of, cluster_for, process_rolling_update,
}

abbrev pub is_eligible : String → Pod → Bool
is_eligible revision pod = label_value pod.labels revision_label == revision && pod_ready pod

-- The names of the pods that are up to date and ready.
unfoldable pub eligible_node_names : String → List Pod → List Bytes
unfolding lookup pod_ready
eligible_node_names revision [] = []
eligible_node_names revision (pod ∷ pods) =
    let rest = eligible_node_names revision pods in
    if is_eligible revision pod then pod.name ∷ rest else rest

unfoldable pub rolling_update_enabled : StatefulSet → Bool
unfolding lookup
rolling_update_enabled sts =
    sts.strategy == "OnDelete"
    && label_value sts.labels "slurm.nebius.ai/rolling-update-enabled" == "true"

module _ {S : Type 0} (client : Client S) where
  -- The loop over the nodes: the number of nodes that were undrained.
  unfoldable pub undrain_stale : Cluster → List Bytes → List WorkerNode → Exec S ℕ
  unfolding contains stale_rolling_update_drain
  undrain_stale cluster names [] = pure 0
  undrain_stale cluster names (node ∷ nodes) =
      let rest = undrain_stale cluster names nodes in
      if not (contains names node.name)
      then rest
      else if not (stale_rolling_update_drain node)
      then rest
      else (wrapped "undrain stale rolling update node" (client.undrain_node cluster node.name)
          >>= λ u. rest >>= λ n. pure (suc n))

  abbrev pub cleanup_for : Cluster → List Bytes → Exec S ℕ
  cleanup_for cluster [] = pure 0
  cleanup_for cluster (name ∷ names) =
      list_nodes_of client cluster >>= undrain_stale cluster (name ∷ names)

  unfoldable pub cleanup_stale_rolling_update_drains : Cluster → StatefulSet → List Pod → Exec S ℕ
  unfolding undrain_stale eligible_node_names
  cleanup_stale_rolling_update_drains cluster sts pods =
      cleanup_for cluster (eligible_node_names sts.update_revision pods)

  abbrev pub after_cleanup : ℕ → Exec S Requeue
  after_cleanup zero = pure 0
  after_cleanup (suc n) = pure 1

  -- What follows once the pods of the set were listed.
  unfoldable pub reconcile_pods : Cluster → StatefulSet → List Pod → Exec S Requeue
  unfolding cleanup_stale_rolling_update_drains process_rolling_update filter_outdated_pods
  reconcile_pods cluster sts pods =
      if nat_beq sts.updated_replicas (replicas_of sts)
      then (cleanup_stale_rolling_update_drains cluster sts pods >>= after_cleanup)
      else if sts.update_revision == ""
      then raise (message "missing update revision on statefulset")
      else (process_rolling_update client cluster sts.update_revision sts
            (filter_outdated_pods pods sts.update_revision)
          >>= λ u. pure 60)

  abbrev pub reconcile_named : StatefulSet → Option String → Exec S Requeue
  reconcile_named sts none = raise (message "missing cluster name label on statefulset")
  reconcile_named sts (some cluster_name) =
      if cluster_name == ""
      then raise (message "missing cluster name label on statefulset")
      else (get_pod_list client sts >>= reconcile_pods (cluster_for client sts cluster_name) sts)

  abbrev pub reconcile_read : Result StatefulSet → Exec S Requeue
  reconcile_read (err e) = if is_not_found e then pure 0 else raise e
  reconcile_read (ok sts) =
      if not (rolling_update_enabled sts)
      then pure 0
      else reconcile_named sts (lookup sts.labels "app.kubernetes.io/instance")

  unfoldable pub reconcile_rolling_update : String → String → Exec S Requeue
  unfolding rolling_update_enabled lookup reconcile_pods get_pod_list
  reconcile_rolling_update namespace name = do
    r ← attempt (client.get_stateful_set namespace name)
    reconcile_read r
