-- ===== src/SoperatorChecks/Maintenance.antt =====
-- What the controller does about the conditions of a Kubernetes node
-- (internal/controller/soperatorchecks/slurm_nodes_controller.go).
pub mod Decisions
use soperator.Prelude.{
  ℕ, Bool, ◌||◌, ◌==◌, comparable_string, ltb, Option, none, some, List, [], ◌∷◌, String,
  if◌then◌else◌,
}
use soperator.Exec.{Exec, pure, wrapped, ◌>>=◌, ◌>>◌}
use soperator.K8s.{Node, NodeCondition, condition_true, condition_false, find_condition}
use soperator.SoperatorChecks.{Client, ClusterName, SlurmNode, NodeReason}
use soperator.SoperatorChecks.Drain.{drain_slurm_nodes_with_condition_update, undrain_slurm_node}

-- The two types of conditions that announce a maintenance.
abbrev pub is_watched : String → NodeCondition → Bool
is_watched maintenance_type cond =
    cond.kind == maintenance_type || cond.kind == "HardwareIssuesSuspected"

-- The loop of `processMaintenance`: its variable before and after.
unfoldable pub maintenance_condition :
    String → Option NodeCondition → List NodeCondition → Option NodeCondition
maintenance_condition maintenance_type found [] = found
maintenance_condition maintenance_type found (cond ∷ conds) =
    maintenance_condition maintenance_type
      (if is_watched maintenance_type cond then some cond else found) conds

-- `newNodeCondition`
abbrev pub new_node_condition : String → String → String → String → ℕ → NodeCondition
new_node_condition kind status reason message now = record {
  kind = kind;
  status = status;
  reason = reason;
  message = message;
  last_transition = now;
  last_heartbeat = now;
}

module _ {S : Type 0} where
  unfoldable pub act_on_maintenance :
      Option NodeCondition → Exec S (Unit {0}) → Exec S (Unit {0}) → Exec S (Unit {0})
  act_on_maintenance none drain undrain = undrain
  act_on_maintenance (some cond) drain undrain =
      if cond.status == condition_false then undrain else drain

  -- The callers pass `pure tt` for a function that is nil. The maintenance type is not empty, so that
  -- a condition that is found is not the zero condition that the code tests for.
  unfoldable pub process_maintenance :
      String → Node → Exec S (Unit {0}) → Exec S (Unit {0}) → Exec S (Unit {0})
  unfolding act_on_maintenance maintenance_condition
  process_maintenance maintenance_type node drain undrain =
      act_on_maintenance (maintenance_condition maintenance_type none node.conditions) drain undrain

module _ {S : Type 0} (client : Client S) where
  unfoldable pub process_slurm_node_maintenance :
      String → Node → ClusterName → String → Exec S (Unit {0})
  unfolding process_maintenance undrain_slurm_node
  process_slurm_node_maintenance maintenance_type node cluster name =
      process_maintenance maintenance_type node (pure tt) (undrain_slurm_node client cluster name)

  -- One node of the loop of `processK8SNodesMaintenance`.
  unfoldable pub process_k8s_node_maintenance : String → Node → Exec S (Unit {0})
  unfolding process_maintenance drain_slurm_nodes_with_condition_update
  process_k8s_node_maintenance maintenance_type node s =
      process_maintenance maintenance_type node
        (drain_slurm_nodes_with_condition_update client node.name
          "[compute_maintenance] node replacement process"
          (new_node_condition "SoperatorChecksNodeMaintenance" condition_true "NodeDraining"
            "Maintenance is scheduled on k8s node" (client.now s)))
        (pure tt) s

  -- `drainWithCondition` of `processKillTaskFailed`.
  unfoldable pub drain_with_condition : SlurmNode → Exec S (Unit {0})
  unfolding drain_slurm_nodes_with_condition_update
  drain_with_condition slurm_node s =
      wrapped "drain slurm nodes"
        (drain_slurm_nodes_with_condition_update client slurm_node.instance_id
          "[compute_maintenance] node reboot process"
          (new_node_condition "SoperatorChecksNodeDegraded" condition_true "NodeNeedReboot"
            "Some slurm nodes on the k8s nod are degraded" (client.now s)))
        s

  unfoldable pub act_on_degraded :
      Option NodeCondition → ClusterName → SlurmNode → ℕ → Exec S (Unit {0})
  unfolding drain_with_condition undrain_slurm_node
  act_on_degraded none cluster slurm_node changed_at = drain_with_condition slurm_node
  act_on_degraded (some cond) cluster slurm_node changed_at =
      if cond.status == condition_true
      then pure tt
      else if ltb changed_at cond.last_transition
      then undrain_slurm_node client cluster slurm_node.name
      else drain_with_condition slurm_node

  -- `changed_at` is `slurmNode.Reason.ChangedAt`; the caller has checked that there is a reason.
  unfoldable pub process_kill_task_failed : Node → ClusterName → SlurmNode → ℕ → Exec S (Unit {0})
  unfolding act_on_degraded find_condition
  process_kill_task_failed node cluster slurm_node changed_at =
      act_on_degraded (find_condition "SoperatorChecksNodeDegraded" node.conditions) cluster
        slurm_node changed_at
