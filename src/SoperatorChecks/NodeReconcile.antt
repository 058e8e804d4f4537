-- ===== src/SoperatorChecks/NodeReconcile.antt =====
-- The reconcile of a Kubernetes node: its drain, its reboot, and its deletion when it is not ready
-- for too long (internal/controller/soperatorchecks/k8s_nodes_controller.go).
pub mod Deletion
use soperator.Prelude.{
  ℕ, ◌+◌, ◌-◌, Bool, true, false, not, ◌&&◌, ◌==◌, comparable_string, ltb, Option, none, some, List,
  [], ◌∷◌, String, if◌then◌else◌,
}
use soperator.Exec.{
  Result, ok, err, Exec, pure, raise, attempt, wrapped, when, wrap, is_not_found, ◌>>=◌, ◌>>◌,
}
use soperator.K8s.{Node, NodeCondition, condition_true, condition_false, find_condition}
use soperator.SoperatorChecks.{Client}
use soperator.SoperatorChecks.Conditions.{set_k8s_node_condition, set_k8s_node_conditions}
use soperator.SoperatorChecks.Maintenance.{new_node_condition}
use soperator.SoperatorChecks.NodeDrain.{
  last_condition, is_condition_false_or_empty, has_reason, delete_k8s_node, process_drain_condition,
}

-- A condition that is not there has the zero time.
abbrev pub transition_time : Option NodeCondition → ℕ
transition_time none = 0
transition_time (some cond) = cond.last_transition

-- The node has a condition Ready that is not true.
abbrev pub is_not_ready : Option NodeCondition → Bool
is_not_ready none = false
is_not_ready (some cond) = not (cond.status == condition_true)

-- `time.Since(transition) < timeout`
abbrev pub is_recent : ℕ → ℕ → Option NodeCondition → Bool
is_recent timeout now ready = ltb now (transition_time ready + timeout)

module _ {S : Type 0} (client : Client S) where
  unfoldable pub request_reboot : Node → Exec S (Unit {0})
  unfolding set_k8s_node_condition
  request_reboot node s =
      set_k8s_node_condition client node.name
        (new_node_condition "SlurmNodeReboot" condition_true "NodeNeedReboot"
          "Some slurm nodes on the k8s nod are degraded" (client.now s))
        s

  abbrev pub rebooted : String → ℕ → NodeCondition
  rebooted kind now = new_node_condition kind condition_false "NodeRebooted" "Node is rebooted" now

  abbrev pub rebooted_conditions : ℕ → List NodeCondition
  rebooted_conditions now =
      rebooted "SlurmNodeReboot" now
      ∷ rebooted "SlurmNodeDrain" now
      ∷ rebooted "SoperatorChecksNodeDegraded" now
      ∷ []

  unfoldable pub finish_reboot : Node → Exec S (Unit {0})
  unfolding set_k8s_node_conditions
  finish_reboot node s =
      set_k8s_node_conditions client node.name (rebooted_conditions (client.now s)) s

  abbrev pub finish_if_rebooted : Node → Option NodeCondition → Exec S (Unit {0})
  finish_if_rebooted node reboot =
      if not (has_reason "NodeRebooted" reboot) then pure tt else finish_reboot node

  -- What is done, by the conditions on the reboot and the degradation.
  unfoldable pub act_on_reboot :
      Node → Option NodeCondition → Option NodeCondition → Exec S (Unit {0})
  unfolding request_reboot finish_reboot
  act_on_reboot node reboot degraded =
      if is_condition_false_or_empty reboot
      then (if is_condition_false_or_empty degraded
          then pure tt
          else if ltb (transition_time reboot) (transition_time degraded)
          then request_reboot node
          else finish_if_rebooted node reboot)
      else finish_if_rebooted node reboot

  unfoldable pub process_reboot_condition : Node → Exec S (Unit {0})
  unfolding act_on_reboot last_condition
  process_reboot_condition node =
      act_on_reboot node (last_condition "SlurmNodeReboot" none node.conditions)
        (last_condition "SoperatorChecksNodeDegraded" none node.conditions)

  unfoldable pub process_not_ready_condition : ℕ → Node → Exec S (Unit {0})
  unfolding find_condition delete_k8s_node
  process_not_ready_condition timeout node s =
      let ready = find_condition "Ready" node.conditions in
      if not (is_not_ready ready)
      then pure tt s
      else if is_recent timeout (client.now s) ready
      then pure tt s
      else delete_k8s_node client node s

  -- The seconds after which the reconcile is repeated.
  unfoldable pub requeue_duration_for_not_ready : ℕ → Node → S → ℕ
  unfolding find_condition
  requeue_duration_for_not_ready timeout node s =
      let ready = find_condition "Ready" node.conditions in
      if not (is_not_ready ready)
      then 0
      else if is_recent timeout (client.now s) ready
      then transition_time ready + timeout - client.now s + 30
      else 0

  unfoldable pub delete_if_not_ready : ℕ → Node → Exec S ℕ
  unfolding process_not_ready_condition requeue_duration_for_not_ready
  delete_if_not_ready timeout node = do
    wrapped "process NotReady condition" (process_not_ready_condition timeout node)
    requeue_after
    where
      requeue_after : Exec S ℕ
      requeue_after s = pure (requeue_duration_for_not_ready timeout node s) s

  -- The answer of the node label matcher is an argument.
  unfoldable pub process_node : (Node → Bool) → Bool → ℕ → Node → Exec S ℕ
  unfolding process_drain_condition process_reboot_condition delete_if_not_ready
  process_node should_ignore delete_not_ready timeout node = do
    wrapped "process drain condition" (process_drain_condition client (should_ignore node) node)
    wrapped "process reboot condition" (process_reboot_condition node)
    if delete_not_ready then delete_if_not_ready timeout node else pure 0

  abbrev pub reconcile_node_found : (Node → Bool) → Bool → ℕ → Result Node → Exec S ℕ
  reconcile_node_found should_ignore delete_not_ready timeout (ok node) =
      process_node should_ignore delete_not_ready timeout node
  reconcile_node_found should_ignore delete_not_ready timeout (err e) =
      if is_not_found e then pure 0 else raise (wrap "get k8s node" e)

  unfoldable pub reconcile_k8s_node : (Node → Bool) → Bool → ℕ → String → Exec S ℕ
  unfolding process_node
  reconcile_k8s_node should_ignore delete_not_ready timeout name = do
    found ← attempt (client.get_node name)
    reconcile_node_found should_ignore delete_not_ready timeout found
