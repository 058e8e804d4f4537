-- ===== src/SoperatorChecks/Unhealthy/Safety.antt =====
-- A node is marked with hardware issues only once its Slurm nodes are drained.
use soperator.Prelude.{
  ◌≡◌, refl, ◌⊎◌, inl, inr, Bool, true, false, not, ◌||◌, List, String, Option, none, ltb, ℕ,
}
use soperator.Exec.{Result, ok, err, Exec, pure, raise, attempt, wrapped, is_not_found}
use soperator.Exec.Runs.{
  Outcome-weaken, Runs, Runs-pure, Runs-raise, Runs-wrapped, Runs-if, Runs-weaken, Runs-bind,
}
use soperator.K8s.{Node, find_condition}
use soperator.SoperatorChecks.{Client, ClusterName, SlurmNode, PodCondition}
use soperator.SoperatorChecks.Drain.{slurm_nodes_fully_drained, undrain_slurm_node}
use soperator.Exec.Keeps.{Keeps, Keeps-attempt, Outcome-always}
use soperator.SoperatorChecks.Drain.Safety.{
  AllDrained, post_state-Keeps, slurm_nodes_fully_drained-AllDrained,
}
use soperator.SoperatorChecks.Unhealthy.{
  assignment_of, get_slurm_node_assignment_time, is_suspected, set_suspected, suspect,
  process_set_unhealthy,
}

module _ {S : Type 0} (client : Client S) (U : S → Type 0)
    (list_keeps : (n : String) → Keeps U (client.list_worker_pods n))
    (post_keeps : (c : ClusterName) (n : String) (r : Option String) (st : String)
      → Keeps U (client.post_node c n r st))
    (get_keeps : (c : ClusterName) (n : String) → Keeps U (client.get_slurm_node c n))
    (pod_keeps : (ns n : String) → Keeps U (client.get_pod_conditions ns n)) where
  abbrev IsSafe : Node → Exec S (Unit {0}) → Type 0
  IsSafe node m =
      Runs U m (λ a s. U s ⊎ AllDrained client node.name) (λ s. U s ⊎ AllDrained client node.name)

  IsSafe-of_Keeps : (node : Node) (m : Exec S (Unit {0})) → Keeps U m → IsSafe node m
  IsSafe-of_Keeps node m h = Runs-weaken m h (λ s u. u) (λ a s u. inl u) (λ s u. inl u)

  assignment_of-Keeps : (r : Result (List PodCondition)) → Keeps U (assignment_of client r)
  assignment_of-Keeps (ok conds) = Runs-pure _ (λ s u. u)
  assignment_of-Keeps (err e) =
      Runs-if (is_not_found e) (pure 0) (raise _) (λ h. Runs-pure 0 (λ s u. u))
        (λ h. Runs-raise _ (λ s u. u))

  assignment_time-Keeps :
      (c : ClusterName) (n : String) → Keeps U (get_slurm_node_assignment_time client c n)
  unfolding get_slurm_node_assignment_time
  assignment_time-Keeps c n =
      let read = client.get_pod_conditions c.namespace n in
      Runs-bind (attempt read) (assignment_of client)
        (Keeps-attempt U read (pod_keeps c.namespace n)) assignment_of-Keeps

  undrain-Keeps : (c : ClusterName) (n : String) → Keeps U (undrain_slurm_node client c n)
  unfolding undrain_slurm_node
  undrain-Keeps c n =
      post_state-Keeps client U list_keeps post_keeps get_keeps "post undrain slurm node"
        "post undrain returned errors" c n none "UNDRAIN"

  set_suspected-Safe :
      (b : Bool) (node : Node) (slurm_node : SlurmNode)
      → Runs
          (λ s. U s × (b ≡ true → AllDrained client node.name))
          (set_suspected client b node slurm_node)
          (λ a s. U s ⊎ AllDrained client node.name)
          (λ s. U s ⊎ AllDrained client node.name)
  unfolding set_suspected
  set_suspected-Safe false node slurm_node = record { at = λ s u. inl u.0 }
  set_suspected-Safe true node slurm_node = record {
    at = λ s u.
        let m : Exec S (Unit {0}) = set_suspected client true node slurm_node in
        Outcome-weaken (λ a t. AllDrained client node.name) _ (λ t. AllDrained client node.name) _
          (λ a t d. inr d) (λ t d. inr d) (m s).0 (m s).1
          (Outcome-always (AllDrained client node.name) (m s).0 (m s).1 (u.1 refl));
  }

  suspect-IsSafe :
      (node : Node) (slurm_node : SlurmNode) → IsSafe node (suspect client node slurm_node)
  unfolding suspect
  suspect-IsSafe node slurm_node =
      let check = slurm_nodes_fully_drained client node.name in
      Runs-if (is_suspected (find_condition "HardwareIssuesSuspected" node.conditions)) (pure tt) _
        (λ h. Runs-pure tt (λ s u. inl u))
        (λ h.
          Runs-bind (wrapped "check that nodes are fully drained before setting unhealthy" check)
            (λ drained. set_suspected client drained node slurm_node)
            (Runs-weaken _
              (Runs-wrapped _ check (
                slurm_nodes_fully_drained-AllDrained client U list_keeps post_keeps get_keeps
                  node.name))
              (λ s u. u) (λ a s u. u) (λ s u. inl u))
            (λ b. set_suspected-Safe b node slurm_node))

  -- What holds of the state and is left alone by the reads and by the posts to Slurm still holds
  -- after a check of a failed node, however it ends, unless every worker pod of the node had its
  -- Slurm node seen fully drained.
  pub process_set_unhealthy_safe :
      (enabled : Bool) (node : Node) (cluster : ClusterName) (slurm_node : SlurmNode)
      (changed_at : ℕ)
      → Runs U
          (process_set_unhealthy client enabled node cluster slurm_node changed_at)
          (λ a s. U s ⊎ AllDrained client node.name)
          (λ s. U s ⊎ AllDrained client node.name)
  unfolding process_set_unhealthy
  process_set_unhealthy_safe enabled node cluster slurm_node changed_at =
      let time = get_slurm_node_assignment_time client cluster slurm_node.name in
      Runs-if (not enabled) (pure tt) _ (λ h. Runs-pure tt (λ s u. inl u))
        (λ h.
          Runs-bind (wrapped "get slurm node assignment time" time) _
            (Runs-weaken _ (Runs-wrapped _ time (assignment_time-Keeps cluster slurm_node.name))
              (λ s u. u) (λ a s u. u) (λ s u. inl u))
            (λ assigned.
              Runs-if (ltb changed_at node.created || ltb changed_at assigned)
                (undrain_slurm_node client cluster slurm_node.name) (suspect client node slurm_node)
                (λ old. IsSafe-of_Keeps node _ (undrain-Keeps cluster slurm_node.name))
                (λ new. suspect-IsSafe node slurm_node)))
