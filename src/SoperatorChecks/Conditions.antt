-- ===== src/SoperatorChecks/Conditions.antt =====
-- The conditions that the checks write on Kubernetes nodes
-- (internal/controller/soperatorchecks/soperatorchecks.go).
pub mod Heartbeat
use soperator.Prelude.{
  ℕ, ◌&&◌, ◌==◌, comparable_string, Option, none, some, List, [], ◌∷◌, ◌++◌, String, if◌then◌else◌,
}
use soperator.Exec.{
  Result, ok, err, Exec, pure, raise, attempt, wrapped, ◌>>=◌, ◌>>◌, is_not_found, wrap,
}
use soperator.K8s.{Node, NodeCondition, find_condition}
use soperator.SoperatorChecks.{Client}

-- `node.Status.Conditions[i] = condition`, where i is the first index with its type.
unfoldable pub replace_condition : NodeCondition → List NodeCondition → List NodeCondition
replace_condition new [] = []
replace_condition new (cond ∷ conds) =
    let rest = replace_condition new conds in
    if cond.kind == new.kind then new ∷ conds else cond ∷ rest

-- `node.Status.Conditions[i].LastHeartbeatTime = metav1.Now()`
unfoldable pub touch_condition : String → ℕ → List NodeCondition → List NodeCondition
touch_condition kind now [] = []
touch_condition kind now (cond ∷ conds) =
    let rest = touch_condition kind now conds in
    if cond.kind == kind then record cond { last_heartbeat = now } ∷ conds else cond ∷ rest

module _ {S : Type 0} (client : Client S) where
  -- The difference that is sent is that of the node to a copy made after the assignment.
  unfoldable pub patch_heartbeat : Node → String → Exec S (Unit {0})
  unfolding touch_condition
  patch_heartbeat node kind s =
      let touched = record node {
        conditions = touch_condition kind (client.now s) node.conditions;
      } in
      client.patch_status touched touched s

  -- What is done to the node, by the first condition of the type that it has.
  unfoldable pub write_condition : Node → NodeCondition → Option NodeCondition → Exec S (Unit {0})
  unfolding patch_heartbeat replace_condition
  write_condition node condition none =
      wrapped "failed to update object status"
        (client.update_status (record node { conditions = node.conditions ++ condition ∷ [] }))
  write_condition node condition (some cond) =
      if cond.status == condition.status && cond.reason == condition.reason
      then patch_heartbeat node condition.kind
      else client.patch_status node
          (record node { conditions = replace_condition condition node.conditions })

  unfoldable pub set_on_node : NodeCondition → Result Node → Exec S (Unit {0})
  unfolding write_condition find_condition
  set_on_node condition (err e) = if is_not_found e then pure tt else raise e
  set_on_node condition (ok node) =
      write_condition node condition (find_condition condition.kind node.conditions)

  unfoldable pub set_k8s_node_condition : String → NodeCondition → Exec S (Unit {0})
  unfolding set_on_node
  set_k8s_node_condition node_name condition =
      attempt (client.get_node node_name) >>= set_on_node condition

  unfoldable pub set_k8s_node_conditions : String → List NodeCondition → Exec S (Unit {0})
  unfolding set_k8s_node_condition
  set_k8s_node_conditions node_name [] = pure tt
  set_k8s_node_conditions node_name (cond ∷ conds) = do
    wrapped "set k8s node condition" (set_k8s_node_condition node_name cond)
    set_k8s_node_conditions node_name conds
