-- ===== src/RollingUpdate/Gathering.antt =====
-- The loop over the decisions: what it does, and what it gathers for the reboot.
use soperator.Prelude.{
  ℕ, suc, ◌≡◌, refl, inl, inr, true, false, String, Option, none, some, List, [], ◌∷◌, Bytes,
  comparable_bytes, comparable_string, lookup, All, Bool-cases, if◌then◌else◌,
}
use soperator.Exec.{Exec, message, wrapped}
use soperator.Exec.Runs.{Runs, Runs-bind, Runs-pure, Runs-raise, Runs-wrapped, Runs-weaken}
use soperator.RollingUpdate.{Pod, WorkerNode, StatefulSet, Cluster, Client}
use soperator.RollingUpdate.Decision.{
  pod_ready, WorkerUpdateAction, schedule_reboot, wait, track_in_flight, undrain, delete,
  decide_worker_update_action,
}
use soperator.RollingUpdate.Process.{delete_pod, act, with_node, act_on_pods, Gathered}
use soperator.RollingUpdate.Guards.{IsOutdated, taken, goes, Seen, IsProposed, IsGuarded}
use soperator.RollingUpdate.Steps.{decide-undrain, decide-delete, delete_pod-Keeps}

module _ {S : Type 0} (client : Client S) (cluster : Cluster) (sts : StatefulSet)
    (nodes : List (Bytes × WorkerNode)) where
  abbrev pub IsGathered : List Pod → Gathered → Type 0
  IsGathered pods g =
      (g.ready_pods_consuming_budget ≡ taken sts nodes pods)
      × All (λ c. IsProposed client cluster sts c.0 c.1) g.candidates

  -- The count after one more pod, by its action.
  taken-next :
      (pod : Pod) (pods : List Pod) (node : WorkerNode) (action : WorkerUpdateAction) (n : ℕ)
      → lookup nodes pod.name ≡ some node
      → decide_worker_update_action pod node sts.update_revision ≡ action
      → n ≡ taken sts nodes pods
      → (if (if pod_ready pod then goes action else false) then suc n else n)
        ≡ taken sts nodes (pod ∷ pods)
  taken-next pod pods node action n e d h = rw (e, d, h)

  taken_if_goes :
      (pod : Pod) (pods : List Pod) (node : WorkerNode) (action : WorkerUpdateAction) (n : ℕ)
      → lookup nodes pod.name ≡ some node
      → decide_worker_update_action pod node sts.update_revision ≡ action
      → goes action ≡ true
      → n ≡ taken sts nodes pods
      → (if pod_ready pod then suc n else n) ≡ taken sts nodes (pod ∷ pods)
  taken_if_goes pod pods node action n e d g h = elim (Bool-cases (pod_ready pod)) [
    | inl ready ↦ rw ready (rw (ready, g) at (taken-next pod pods node action n e d h))
    | inr other ↦ rw other (rw other at (taken-next pod pods node action n e d h))
  ]

  taken_if_stays :
      (pod : Pod) (pods : List Pod) (node : WorkerNode) (action : WorkerUpdateAction) (n : ℕ)
      → lookup nodes pod.name ≡ some node
      → decide_worker_update_action pod node sts.update_revision ≡ action
      → goes action ≡ false
      → n ≡ taken sts nodes pods
      → n ≡ taken sts nodes (pod ∷ pods)
  taken_if_stays pod pods node action n e d g h = elim (Bool-cases (pod_ready pod)) [
    | inl ready ↦ rw (ready, g) at (taken-next pod pods node action n e d h)
    | inr other ↦ rw other at (taken-next pod pods node action n e d h)
  ]

module _ {S : Type 0} (client : Client S) (cluster : Cluster) (sts : StatefulSet) (U : S → Type 0)
    (guards : IsGuarded client cluster sts U) (nodes : List (Bytes × WorkerNode)) where
  abbrev pub Gathers : List Pod → Exec S Gathered → Type 0
  Gathers pods m = Runs U m (λ g s. U s × IsGathered client cluster sts nodes pods g) U

  act-Gathers :
      (action : WorkerUpdateAction) (pod : Pod) (pods : List Pod) (node : WorkerNode)
      (rest : Exec S Gathered)
      → decide_worker_update_action pod node sts.update_revision ≡ action
      → IsOutdated sts pod
      → Seen client cluster sts node
      → node.name ≡ pod.name
      → lookup nodes pod.name ≡ some node
      → Gathers pods rest
      → Gathers (pod ∷ pods) (act client cluster action pod node rest)
  act-Gathers undrain pod pods node rest d old seen same e h =
      let text : String = "undrain stale rolling update node" in
      Runs-bind (wrapped text (client.undrain_node cluster node.name)) _
        (Runs-wrapped text (client.undrain_node cluster node.name)
          (guards.undrain_keeps node (seen, decide-undrain pod node sts.update_revision d)))
        (λ u. Runs-bind rest _ h (λ g. Runs-pure _ (λ s q. (
          q.0,
          (taken_if_goes client cluster sts nodes pod pods node undrain _ e d refl q.1.0, q.1.1),
        ))))
  act-Gathers delete pod pods node rest d old seen same e h =
      let text : String = "delete safely offline outdated pod" in
      let offline = decide-delete pod node sts.update_revision d in
      Runs-bind (delete_pod client text pod) _
        (delete_pod-Keeps client cluster sts U guards text pod
          (old, inr (inr (node, seen, same, offline.0, offline.1))))
        (λ u. Runs-bind rest _ h (λ g. Runs-pure _ (λ s q. (
          q.0,
          (taken_if_goes client cluster sts nodes pod pods node delete _ e d refl q.1.0, q.1.1),
        ))))
  act-Gathers wait pod pods node rest d old seen same e h =
      Runs-weaken rest h (λ s u. u)
        (λ g s q. (
          q.0,
          (taken_if_stays client cluster sts nodes pod pods node wait _ e d refl q.1.0, q.1.1),
        ))
        (λ s u. u)
  act-Gathers track_in_flight pod pods node rest d old seen same e h = Runs-bind rest _ h (λ g.
      Runs-pure _ (λ s q. (
        q.0,
        (
          taken_if_goes client cluster sts nodes pod pods node track_in_flight _ e d refl q.1.0,
          q.1.1,
        ),
      )))
  act-Gathers schedule_reboot pod pods node rest d old seen same e h = Runs-bind rest _ h (λ g.
      Runs-pure _ (λ s q. (
        q.0,
        (
          taken_if_stays client cluster sts nodes pod pods node schedule_reboot _ e d refl q.1.0,
          ((old, seen, same, d), q.1.1),
        ),
      )))

  abbrev pub IsFound : Type 0
  IsFound =
      (name : Bytes) (node : WorkerNode)
      → lookup nodes name ≡ some node
      → (node.name ≡ name) × Seen client cluster sts node

  with_node-Gathers :
      (o : Option WorkerNode) (pod : Pod) (pods : List Pod) (rest : Exec S Gathered)
      → lookup nodes pod.name ≡ o
      → IsFound
      → IsOutdated sts pod
      → Gathers pods rest
      → Gathers (pod ∷ pods) (with_node client cluster sts.update_revision pod o rest)
  with_node-Gathers none pod pods rest e found old h =
      Runs-raise (message "slurm node is missing from list nodes response") (λ s u. u)
  with_node-Gathers (some node) pod pods rest e found old h =
      act-Gathers (decide_worker_update_action pod node sts.update_revision) pod pods node rest refl
        old (found pod.name node e).1 (found pod.name node e).0 e h

  pub act_on_pods-Gathers :
      (pods : List Pod)
      → IsFound
      → All (IsOutdated sts) pods
      → Gathers pods (act_on_pods client cluster sts.update_revision nodes pods)
  unfolding act_on_pods
  act_on_pods-Gathers [] found h = Runs-pure _ (λ s u. (u, (refl, tt)))
  act_on_pods-Gathers (pod ∷ pods) found (old, h) =
      with_node-Gathers (lookup nodes pod.name) pod pods
        (act_on_pods client cluster sts.update_revision nodes pods) refl found old
        (act_on_pods-Gathers pods found h)
