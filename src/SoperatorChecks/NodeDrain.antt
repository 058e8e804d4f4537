-- ===== src/SoperatorChecks/NodeDrain.antt =====
-- The drain of a Kubernetes node as the node controller drives it, up to its deletion
-- (internal/controller/soperatorchecks/k8s_nodes_controller.go, internal/check/maintenance.go).
pub mod Safety
use soperator.Prelude.{
  Bool, true, false, not, ◌==◌, comparable_string, Option, none, some, List, [], ◌∷◌, String,
  if◌then◌else◌,
}
use soperator.Exec.{Result, ok, err, Exec, pure, raise, attempt, wrap, is_not_found, ◌>>=◌}
use soperator.K8s.{Node, NodeCondition, condition_true, condition_false}
use soperator.SoperatorChecks.{Client}
use soperator.SoperatorChecks.Conditions.{set_k8s_node_condition}
use soperator.SoperatorChecks.Maintenance.{new_node_condition}

-- The variable of the loop over the conditions: the last one of its type.
unfoldable pub last_condition :
    String → Option NodeCondition → List NodeCondition → Option NodeCondition
last_condition kind found [] = found
last_condition kind found (cond ∷ conds) =
    last_condition kind (if cond.kind == kind then some cond else found) conds

abbrev pub is_condition_false_or_empty : Option NodeCondition → Bool
is_condition_false_or_empty none = true
is_condition_false_or_empty (some cond) = cond.status == condition_false

abbrev pub is_condition_true : Option NodeCondition → Bool
is_condition_true none = false
is_condition_true (some cond) = cond.status == condition_true

abbrev pub has_reason : String → Option NodeCondition → Bool
has_reason reason none = false
has_reason reason (some cond) = cond.reason == reason

module _ {S : Type 0} (client : Client S) where
  abbrev pub deleted : Result (Unit {0}) → Exec S (Unit {0})
  deleted (ok u) = pure tt
  deleted (err e) = if is_not_found e then pure tt else raise (wrap "delete k8s node" e)

  unfoldable pub delete_k8s_node : Node → Exec S (Unit {0})
  delete_k8s_node node = attempt (client.delete_node node) >>= deleted

  unfoldable pub set_drain : Node → String → String → String → Exec S (Unit {0})
  unfolding set_k8s_node_condition
  set_drain node status reason message s =
      set_k8s_node_condition client node.name
        (new_node_condition "SlurmNodeDrain" status reason message (client.now s)) s

  -- What is done, by the conditions on the drain, the maintenance and the hardware.
  unfoldable pub act_on_drain :
      Node → Option NodeCondition → Option NodeCondition → Option NodeCondition → Exec S (Unit {0})
  unfolding set_drain delete_k8s_node
  act_on_drain node drain maintenance hardware =
      if is_condition_false_or_empty drain
      then (if is_condition_true hardware
          then set_drain node condition_true "NodeNeedDrain" "Hardware issues suspected on k8s node"
          else if is_condition_false_or_empty maintenance
          then pure tt
          else set_drain node condition_true "NodeNeedDrain" "Maintenance is scheduled on k8s node")
      else if not (has_reason "NodeDrained" drain)
      then pure tt
      else if not (is_condition_true maintenance)
      then set_drain node condition_false "NodeRebooted" "Node is rebooted"
      else delete_k8s_node node

  -- `should_ignore` is the answer of the node label matcher for the node.
  unfoldable pub process_drain_condition : Bool → Node → Exec S (Unit {0})
  unfolding act_on_drain last_condition
  process_drain_condition should_ignore node =
      if should_ignore
      then pure tt
      else act_on_drain node (last_condition "SlurmNodeDrain" none node.conditions)
          (last_condition "SoperatorChecksNodeMaintenance" none node.conditions)
          (last_condition "HardwareIssuesSuspected" none node.conditions)
