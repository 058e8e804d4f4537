-- ===== src/RollingUpdate/Reconcile/Safety.antt =====
-- A whole reconcile stays within the conditions of its calls.
use soperator.Prelude.{
  IsAmong, ℕ, zero, suc, ◌≡◌, refl, inl, inr, true, not, String, Option, none, some, List, [], ◌∷◌,
  Bytes, comparable_bytes, comparable_string, ◌==◌, contains, lookup, nat_beq, arith,
}
use soperator.Exec.{is_not_found, Result, ok, err, message, wrapped, lifted, ◌>>=◌}
use soperator.Exec.Runs.{Runs, Runs-bind, Runs-wrapped, Runs-if, Outcome-by_cases}
use soperator.Exec.Keeps.{Keeps, Keeps-bind, Keeps-pure, Keeps-raise, lifted-Keeps, Outcome-same}
use soperator.RollingUpdate.{Pod, WorkerNode, StatefulSet, Cluster, Client}
use soperator.RollingUpdate.Decision.{replicas_of, stale_rolling_update_drain}
use soperator.RollingUpdate.Process.{
  filter_outdated_pods, get_pod_list, list_nodes_of, cluster_for, process_rolling_update,
}
use soperator.RollingUpdate.Reconcile.{
  eligible_node_names, rolling_update_enabled, undrain_stale, cleanup_for,
  cleanup_stale_rolling_update_drains, after_cleanup, reconcile_pods, reconcile_named,
  reconcile_read, reconcile_rolling_update,
}
use soperator.RollingUpdate.Guards.{Seen, IsGuarded}
use soperator.RollingUpdate.Safety.{list_nodes_of-Runs, process_rolling_update-Keeps}

module _ {S : Type 0} (client : Client S) (cluster : Cluster) (sts : StatefulSet) (U : S → Type 0)
    (guards : IsGuarded client cluster sts U) where
  undrain_stale-Keeps :
      (names : List Bytes) (nodes : List WorkerNode)
      → ((node : WorkerNode) → IsAmong node nodes → Seen client cluster sts node)
      → Keeps U (undrain_stale client cluster names nodes)
  unfolding undrain_stale
  undrain_stale-Keeps names [] seen = Keeps-pure U 0
  undrain_stale-Keeps names (node ∷ nodes) seen =
      let rest = undrain_stale-Keeps names nodes (λ m a. seen m (inr a)) in
      let text : String = "undrain stale rolling update node" in
      let m = client.undrain_node cluster node.name in
      Runs-if (not (contains names node.name)) _ _ (λ e. rest)
        (λ e.
          Runs-if (not (stale_rolling_update_drain node)) _ _ (λ f. rest)
            (λ f.
              Keeps-bind U (wrapped text m) _
                (Runs-wrapped text m
                  (guards.undrain_keeps node (seen node (inl refl), ground (arith, f))))
                (λ u.
                  Keeps-bind U (undrain_stale client cluster names nodes) _ rest
                    (λ n. Keeps-pure U (suc n)))))

  cleanup_for-Keeps : (names : List Bytes) → Keeps U (cleanup_for client cluster names)
  cleanup_for-Keeps [] = Keeps-pure U 0
  cleanup_for-Keeps (name ∷ names) =
      Runs-bind (list_nodes_of client cluster) _ (list_nodes_of-Runs client cluster sts U guards)
        (λ nodes. record {
          at = λ s q.
              (undrain_stale-Keeps (name ∷ names) nodes (λ node a. (nodes, q.1, a))).at s q.0;
        })

  reconcile_pods-Keeps :
      (pods : List Pod)
      → ((s : S) × ((get_pod_list client sts s).0 ≡ ok pods))
      → Keeps U (reconcile_pods client cluster sts pods)
  unfolding reconcile_pods cleanup_stale_rolling_update_drains
  reconcile_pods-Keeps pods read =
      let names = eligible_node_names sts.update_revision pods in
      let outdated = filter_outdated_pods pods sts.update_revision in
      Runs-if (nat_beq sts.updated_replicas (replicas_of sts)) _ _
        (λ e. Keeps-bind U (cleanup_for client cluster names) _ (cleanup_for-Keeps names) after)
        (λ e.
          Runs-if (sts.update_revision == "") _ _
            (λ f. Keeps-raise U (message "missing update revision on statefulset"))
            (λ f.
              Keeps-bind U (process_rolling_update client cluster sts.update_revision sts outdated)
                _ (process_rolling_update-Keeps client cluster sts U guards pods read outdated refl)
                (λ u. Keeps-pure U 60)))
    where
      after : (n : ℕ) → Keeps U (after_cleanup client n)
      after zero = Keeps-pure U 0
      after (suc n) = Keeps-pure U 1

  get_pod_list-Runs :
      Runs U
        (get_pod_list client sts)
        (λ pods s. U s × ((s' : S) × ((get_pod_list client sts s').0 ≡ ok pods)))
        U
  unfolding get_pod_list
  get_pod_list-Runs =
      let m = get_pod_list client sts in
      let kept : Keeps U m =
        Keeps-bind U _ _
          (Runs-wrapped "failed to convert label selector"
            (lifted (client.as_selector sts.selector))
            (lifted-Keeps U (client.as_selector sts.selector)))
          (λ selector.
            Runs-wrapped "failed to list pods" (client.list_pods sts.namespace selector)
              (guards.list_pods_keeps sts.namespace selector)) in
      record {
        at = λ s u.
            let v = Outcome-same U (m s).0 (m s).1 (kept.at s u) in
            Outcome-by_cases
              (λ pods t. U t × ((s' : S) × ((get_pod_list client sts s').0 ≡ ok pods))) U (m s).0
              (m s).1 (λ pods q. (v, (s, q))) (λ x q. v);
      }

  pub reconcile_set-Keeps : Keeps U (get_pod_list client sts >>= reconcile_pods client cluster sts)
  reconcile_set-Keeps =
      Runs-bind (get_pod_list client sts) _ get_pod_list-Runs
        (λ pods. record { at = λ s q. (reconcile_pods-Keeps pods q.1).at s q.0 })

module _ {S : Type 0} (client : Client S) (namespace name : String) (U : S → Type 0)
    (get_keeps : Keeps U (client.get_stateful_set namespace name))
    (guarded : (sts : StatefulSet) (cluster_name : String)
      → ((s : S) × ((client.get_stateful_set namespace name s).0 ≡ ok sts))
      → rolling_update_enabled sts ≡ true
      → lookup sts.labels "app.kubernetes.io/instance" ≡ some cluster_name
      → IsGuarded client (cluster_for client sts cluster_name) sts U) where
  reconcile_named-Keeps :
      (sts : StatefulSet) (o : Option String)
      → lookup sts.labels "app.kubernetes.io/instance" ≡ o
      → ((s : S) × ((client.get_stateful_set namespace name s).0 ≡ ok sts))
      → rolling_update_enabled sts ≡ true
      → Keeps U (reconcile_named client sts o)
  reconcile_named-Keeps sts none e read enabled =
      Keeps-raise U (message "missing cluster name label on statefulset")
  reconcile_named-Keeps sts (some cluster_name) e read enabled =
      Runs-if (cluster_name == "") _ _
        (λ f. Keeps-raise U (message "missing cluster name label on statefulset"))
        (λ f.
          reconcile_set-Keeps client (cluster_for client sts cluster_name) sts U
            (guarded sts cluster_name read enabled e))

  reconcile_read-Keeps :
      (r : Result StatefulSet) (s : S)
      → (client.get_stateful_set namespace name s).0 ≡ r
      → Keeps U (reconcile_read client r)
  reconcile_read-Keeps (err x) s e =
      Runs-if (is_not_found x) _ _ (λ f. Keeps-pure U 0) (λ f. Keeps-raise U x)
  reconcile_read-Keeps (ok sts) s e =
      Runs-if (not (rolling_update_enabled sts)) _ _ (λ f. Keeps-pure U 0)
        (λ f.
          reconcile_named-Keeps sts (lookup sts.labels "app.kubernetes.io/instance") refl (s, e)
            (ground (arith, f)))

  -- What holds of the state and is left alone by reading the StatefulSet, and by the calls that a
  -- reconcile makes for it under their conditions, still holds after the reconcile, however it
  -- ends. The conditions: a pod is deleted only if it is outdated and its handoff is complete, its
  -- init container crashes, or its node was seen offline without allocations while its slurmd
  -- crashes or its reboot goes on; a node is undrained only if it was seen with a drain that an
  -- update left; a pod is marked as stopping only if it is outdated and a reboot is decided for it
  -- and its node; and each node of a reboot was chosen so, and the nodes, the replicas that are not
  -- available and the ready pods that go in this run are together at most the budget.
  pub reconcile_rolling_update_safe : Keeps U (reconcile_rolling_update client namespace name)
  unfolding reconcile_rolling_update
  reconcile_rolling_update_safe = record {
    at = λ s u.
        let m = client.get_stateful_set namespace name in
        (reconcile_read-Keeps (m s).0 s refl).at (m s).1
          (Outcome-same U (m s).0 (m s).1 (get_keeps.at s u));
  }
