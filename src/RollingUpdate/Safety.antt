-- ===== src/RollingUpdate/Safety.antt =====
-- The next batch of an update stays within the conditions of its calls.
use mathlib.Core.Path.{subst}
use soperator.Prelude.{
  ℕ, zero, suc, ◌+◌, ◌-◌, ◌≤◌, ◌≡◌, refl, sym, ap, ◌∙◌, inl, inr, Bool, true, false, not, List, [],
  ◌∷◌, Bytes, comparable_bytes, comparable_string, ◌==◌, All, leb, Bool-cases, arith,
}
use soperator.Exec.{ok}
use soperator.Exec.Runs.{Runs, Runs-bind, Runs-pure, Runs-wrapped, Runs-if, Outcome-by_cases}
use soperator.Exec.Keeps.{Keeps, Keeps-bind, Keeps-pure, Outcome-same}
use soperator.Text.{join_commas}
use soperator.RollingUpdate.{Pod, WorkerNode, StatefulSet, Cluster, RebootRequest, Client}
use soperator.RollingUpdate.Decision.{worker_operation_phase, reboot_budget, unavailable_replicas}
use soperator.RollingUpdate.Process.{
  Gathered, sort_by_name, filter_outdated_pods, index_slurm_nodes_for_pods, get_pod_list,
  delete_completed, delete_crash_looping, act_on_pods, stopping, start_operation, start_operations,
  reboot_proposed, reboot_request, reboot_within_budget, list_nodes_of, update_pods, unless_deleted,
  after_completed, process_rolling_update,
}
use soperator.RollingUpdate.Guards.{
  length, IsOutdated, IsProposed, MayReboot, outdated_of, IsGuarded,
}
use soperator.RollingUpdate.Steps.{
  All-sort_by_name, filter_outdated_pods-IsOutdated, lookup-index_slurm_nodes_for_pods, Left,
  delete_completed-Runs, delete_crash_looping-Keeps,
}
use soperator.RollingUpdate.Gathering.{IsGathered, IsFound, act_on_pods-Gathers}

module _ {S : Type 0} (client : Client S) (cluster : Cluster) (sts : StatefulSet) (U : S → Type 0)
    (guards : IsGuarded client cluster sts U) where
  start_operation-Keeps :
      (pod : Pod) (node : WorkerNode)
      → IsProposed client cluster sts pod node
      → Keeps U (start_operation client sts.update_revision pod)
  start_operation-Keeps pod node p =
      let m = client.patch_pod pod (stopping sts.update_revision pod) in
      Runs-if (not (worker_operation_phase pod sts.update_revision == "stopping")) _ _
        (λ e. Runs-wrapped "start worker operation" m (guards.patch_keeps pod node p))
        (λ e. Keeps-pure U tt)

  abbrev IsChosen : Bytes → Type 0
  IsChosen name =
      (pod : Pod) × (node : WorkerNode) × IsProposed client cluster sts pod node
      × (node.name ≡ name)

  -- At most as many names as slots, each of a candidate.
  start_operations-Runs :
      (slots : ℕ) (candidates : List (Pod × WorkerNode))
      → All (λ c. IsProposed client cluster sts c.0 c.1) candidates
      → Runs U
          (start_operations client sts.update_revision slots candidates)
          (λ names s. U s × (length names ≤ slots) × All IsChosen names)
          U
  unfolding start_operations
  start_operations-Runs slots [] h = Runs-pure [] (λ s u. (u, omega arith, tt))
  start_operations-Runs zero (c ∷ candidates) h = Runs-pure [] (λ s u. (u, omega arith, tt))
  start_operations-Runs (suc slots) ((pod, node) ∷ candidates) (p, h) =
      Runs-bind (start_operation client sts.update_revision pod) _
        (start_operation-Keeps pod node p)
        (λ u.
          Runs-bind (start_operations client sts.update_revision slots candidates) _
            (start_operations-Runs slots candidates h)
            (λ names.
              Runs-pure (node.name ∷ names)
                (λ s q. (q.0, omega (arith, q.1), ((pod, node, p, refl), q.2)))))

  reboot_proposed-Keeps :
      (names : List Bytes)
      → ((request : RebootRequest)
          → request.node_list ≡ join_commas names
          → MayReboot client cluster sts request)
      → Keeps U (reboot_proposed client cluster names)
  reboot_proposed-Keeps [] may = Keeps-pure U tt
  reboot_proposed-Keeps (name ∷ names) may =
      Runs-wrapped "schedule slurm reboot through rest api" _ (
        guards.reboot_keeps (reboot_request (name ∷ names))
          (may (reboot_request (name ∷ names)) refl))

  -- The list of the nodes, with the moment when it was read.
  pub list_nodes_of-Runs :
      Runs U
        (list_nodes_of client cluster)
        (λ nodes s. U s × ((s' : S) × ((client.list_nodes cluster s').0 ≡ ok nodes)))
        U
  list_nodes_of-Runs = record {
    at = λ s u. elim (Bool-cases (not (client.has_cluster cluster s))) [
      | inl e ↦ rw e u
      | inr e ↦
          let m = client.list_nodes cluster in
          let kept = Outcome-same U (m s).0 (m s).1 (guards.list_nodes_keeps.at s u) in
          rw e (
            Outcome-by_cases
              (λ nodes t. U t × ((s' : S) × ((client.list_nodes cluster s').0 ≡ ok nodes))) U
              (m s).0 (m s).1 (λ nodes q. (kept, (s, q))) (λ x q. kept))
    ];
  }

  module _ (pods : List Pod) (read : (s : S) × ((get_pod_list client sts s).0 ≡ ok pods)) where
    reboot_within_budget-Keeps :
        (nodes : List WorkerNode) (g : Gathered)
        → ((s : S) × ((client.list_nodes cluster s).0 ≡ ok nodes))
        → IsGathered client cluster sts
            (index_slurm_nodes_for_pods nodes (outdated_of client cluster sts pods))
            (outdated_of client cluster sts pods)
            g
        → Keeps U (reboot_within_budget client cluster sts.update_revision sts g)
    unfolding reboot_within_budget
    reboot_within_budget-Keeps nodes g listed (count, proposed) =
        let used : ℕ = unavailable_replicas sts + g.ready_pods_consuming_budget in
        let budget = reboot_budget client sts in
        Runs-if (leb budget used) _ _ (λ e. Keeps-pure U tt)
          (λ e.
            Runs-bind (start_operations client sts.update_revision (budget - used) g.candidates) _
              (start_operations-Runs (budget - used) g.candidates proposed)
              (λ names. record {
                at = λ s q.
                    (reboot_proposed-Keeps names (λ request same. (
                      names,
                      pods,
                      nodes,
                      read,
                      listed,
                      same,
                      q.2,
                      rw (← count) (ground (arith, q.1, e)),
                    ))).at
                      s q.0;
              }))

    update_pods-Keeps :
        Keeps U
          (update_pods client cluster sts.update_revision sts (outdated_of client cluster sts pods))
    unfolding update_pods
    update_pods-Keeps =
        let old : All (IsOutdated sts) (outdated_of client cluster sts pods) =
          All-sort_by_name (IsOutdated sts) (filter_outdated_pods pods sts.update_revision)
            (filter_outdated_pods-IsOutdated sts pods) in
        Runs-bind (list_nodes_of client cluster) _ list_nodes_of-Runs (λ nodes. record {
          at = λ s q.
              let found : IsFound client cluster sts U guards
                  (index_slurm_nodes_for_pods nodes (outdated_of client cluster sts pods)) =
                λ name node e.
                  let from =
                    lookup-index_slurm_nodes_for_pods nodes (outdated_of client cluster sts pods)
                      name node e in
                  (from.0, (nodes, q.1, from.1)) in
              (Runs-bind
                  (act_on_pods client cluster sts.update_revision
                    (index_slurm_nodes_for_pods nodes (outdated_of client cluster sts pods))
                    (outdated_of client cluster sts pods))
                  _
                  (act_on_pods-Gathers client cluster sts U guards
                    (index_slurm_nodes_for_pods nodes (outdated_of client cluster sts pods))
                    (outdated_of client cluster sts pods) found old)
                  (λ g. record {
                    at = λ t h. (reboot_within_budget-Keeps nodes g q.1 h.1).at t h.0;
                  })).at
                s q.0;
        })

    after_completed-Keeps :
        (r : List Pod × ℕ)
        → Left client cluster sts U guards (outdated_of client cluster sts pods) r
        → Keeps U (after_completed client cluster sts.update_revision sts r)
    after_completed-Keeps (to_stop, suc deleted) left = Keeps-pure U tt
    after_completed-Keeps (to_stop, zero) left =
        let same : to_stop ≡ outdated_of client cluster sts pods = left refl in
        let old : All (IsOutdated sts) (outdated_of client cluster sts pods) =
          All-sort_by_name (IsOutdated sts) (filter_outdated_pods pods sts.update_revision)
            (filter_outdated_pods-IsOutdated sts pods) in
        subst (λ l. Keeps U (after_completed client cluster sts.update_revision sts (l, zero)))
          (sym same)
          (Keeps-bind U (delete_crash_looping client (outdated_of client cluster sts pods)) _
            (delete_crash_looping-Keeps client cluster sts U guards
              (outdated_of client cluster sts pods) old)
            unless_deleted-Keeps)
      where
        unless_deleted-Keeps :
            (deleted : Bool)
            → Keeps U (
                unless_deleted client deleted (
                  update_pods client cluster sts.update_revision sts
                    (outdated_of client cluster sts pods)))
        unless_deleted-Keeps true = Keeps-pure U tt
        unless_deleted-Keeps false = update_pods-Keeps

    pub process_rolling_update-Keeps :
        (l : List Pod)
        → filter_outdated_pods pods sts.update_revision ≡ l
        → Keeps U (process_rolling_update client cluster sts.update_revision sts l)
    unfolding process_rolling_update
    process_rolling_update-Keeps [] e = Keeps-pure U tt
    process_rolling_update-Keeps (pod ∷ rest) e =
        let same : outdated_of client cluster sts pods ≡ sort_by_name (pod ∷ rest) =
          ap sort_by_name e in
        let old : All (IsOutdated sts) (sort_by_name (pod ∷ rest)) =
          All-sort_by_name (IsOutdated sts) (pod ∷ rest)
            (subst (All (IsOutdated sts)) e (filter_outdated_pods-IsOutdated sts pods)) in
        Runs-bind (delete_completed client sts.update_revision (sort_by_name (pod ∷ rest))) _
          (delete_completed-Runs client cluster sts U guards (sort_by_name (pod ∷ rest)) old)
          (λ r. record { at = λ s q. (after_completed-Keeps r (λ z. q.1 z ∙ sym same)).at s q.0 })
