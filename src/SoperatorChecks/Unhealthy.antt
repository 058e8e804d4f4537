-- ===== src/SoperatorChecks/Unhealthy.antt =====
-- Marking a Kubernetes node as one with hardware issues
-- (internal/controller/soperatorchecks/slurm_nodes_controller.go).
pub mod Safety
use soperator.Prelude.{
  ℕ, Bool, true, false, not, ◌&&◌, ◌||◌, ◌==◌, comparable_string, ltb, Option, none, some, List, [],
  ◌∷◌, String, if◌then◌else◌,
}
use soperator.Exec.{
  Result, ok, err, Exec, pure, raise, attempt, wrapped, wrap, is_not_found, ◌>>=◌, ◌>>◌,
}
use soperator.K8s.{Node, NodeCondition, condition_true, find_condition}
use soperator.SoperatorChecks.{Client, ClusterName, SlurmNode, PodCondition}
use soperator.SoperatorChecks.Conditions.{set_k8s_node_condition}
use soperator.SoperatorChecks.Drain.{slurm_nodes_fully_drained, undrain_slurm_node}
use soperator.SoperatorChecks.Maintenance.{new_node_condition}

-- The time of the first `PodScheduled` that is true; zero if there is none.
unfoldable pub scheduled_at : List PodCondition → ℕ
scheduled_at [] = 0
scheduled_at (cond ∷ conds) =
    let rest = scheduled_at conds in
    if not (cond.kind == "PodScheduled") || not (cond.status == condition_true)
    then rest
    else cond.last_transition

abbrev pub is_suspected : Option NodeCondition → Bool
is_suspected none = false
is_suspected (some cond) = cond.status == condition_true

module _ {S : Type 0} (client : Client S) where
  abbrev pub assignment_of : Result (List PodCondition) → Exec S ℕ
  assignment_of (err e) = if is_not_found e then pure 0 else raise (wrap "get worker pod" e)
  assignment_of (ok conds) = pure (scheduled_at conds)

  unfoldable pub get_slurm_node_assignment_time : ClusterName → String → Exec S ℕ
  unfolding scheduled_at
  get_slurm_node_assignment_time cluster name =
      attempt (client.get_pod_conditions cluster.namespace name) >>= assignment_of

  -- What follows once it is known if all Slurm nodes of the node are drained.
  unfoldable pub set_suspected : Bool → Node → SlurmNode → Exec S (Unit {0})
  unfolding set_k8s_node_condition
  set_suspected drained node slurm_node s =
      if not drained
      then pure tt s
      else wrapped "set k8s node condition"
          (set_k8s_node_condition client node.name (
            new_node_condition "HardwareIssuesSuspected" condition_true
              "GPUHealthCheckFailedSoperator" slurm_node.comment (client.now s)))
          s

  -- The drain is newer than the node and than the assignment of the pod.
  unfoldable pub suspect : Node → SlurmNode → Exec S (Unit {0})
  unfolding set_suspected slurm_nodes_fully_drained find_condition
  suspect node slurm_node =
      if is_suspected (find_condition "HardwareIssuesSuspected" node.conditions)
      then pure tt
      else (do
        drained ←
            wrapped "check that nodes are fully drained before setting unhealthy"
              (slurm_nodes_fully_drained client node.name)
        set_suspected drained node slurm_node)

  unfoldable pub process_set_unhealthy :
      Bool → Node → ClusterName → SlurmNode → ℕ → Exec S (Unit {0})
  unfolding get_slurm_node_assignment_time suspect undrain_slurm_node
  process_set_unhealthy enabled_node_replacement node cluster slurm_node changed_at =
      if not enabled_node_replacement then pure tt else (do
        assigned ←
            wrapped "get slurm node assignment time"
              (get_slurm_node_assignment_time cluster slurm_node.name)
        if ltb changed_at node.created || ltb changed_at assigned
            then undrain_slurm_node client cluster slurm_node.name
            else suspect node slurm_node)
