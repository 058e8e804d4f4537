-- ===== src/Rebooter/Reconcile.antt =====
-- The reconcile loop of internal/rebooter/reconcile.go: its calls of the API, in their order, over
-- the tests and the changes of the parent module.
pub mod Api
pub mod Patches
pub mod Steps
pub mod Planning
pub mod Safety
mod Tests
use soperator.Prelude.{
  ℕ, ltb, Bool, true, false, not, Option, none, some, List, String, ◌==◌, comparable_string,
  if◌then◌else◌,
}
use soperator.Exec.{
  Err, message, pod_not_evictable, wrap, is_pod_not_evictable, Result, ok, err, Exec, pure, raise,
  attempt, wrapped, ◌>>=◌, ◌>>◌,
}
use soperator.K8s.{Node, NodeCondition, condition_true, condition_false, find_condition}
use soperator.Rebooter.{
  Pod, RebooterMethod, evict, drain, Params, Client, NodeActions, mutate_unschedulable,
  mutate_taints, mutate_condition, blocking_pod, needs_drain, needs_reboot,
}

module _ {S : Type 0} (client : Client S) (params : Params) where
  -- `if !changed { *node = *currentNode; return nil }`, else the patch.
  pub patch_if_changed : (Node → Node → Exec S Node) → Node → Option Node → Exec S Node
  patch_if_changed patch current none = pure current
  patch_if_changed patch current (some changed) = wrapped "patch object" (patch current changed)

  -- One attempt of `patchNodeSpecWithRetry` or `patchNodeStatusWithRetry`.
  pub try_patch : (Node → Node → Exec S Node) → (Node → Option Node) → Node → Exec S Node
  unfolding patch_if_changed
  try_patch patch mutate node = do
    current_node ← wrapped "get latest node" (client.latest_node node.name)
    patch_if_changed patch current_node (mutate current_node)

  pub patch_node_spec_with_retry : (Node → Option Node) → Node → Exec S Node
  unfolding try_patch
  patch_node_spec_with_retry mutate node =
      client.retry_on_conflict (try_patch client.patch_spec mutate node)

  pub patch_node_status_with_retry : (Node → Option Node) → Node → Exec S Node
  unfolding try_patch
  patch_node_status_with_retry mutate node =
      client.retry_on_conflict (try_patch client.patch_status mutate node)

  pub set_node_condition : Node → String → String → String → String → Exec S Node
  unfolding patch_node_status_with_retry mutate_condition
  set_node_condition node kind status reason text s =
      wrapped "set node condition"
        (patch_node_status_with_retry
          (mutate_condition (record {
            kind = kind;
            status = status;
            reason = reason;
            message = text;
            last_transition = client.now s;
            last_heartbeat = client.now s;
          }))
          node)
        s

  pub set_node_unschedulable : Node → Bool → Exec S Node
  unfolding patch_node_spec_with_retry
  set_node_unschedulable node unschedulable =
      wrapped "failed to update node"
        (patch_node_spec_with_retry (mutate_unschedulable unschedulable) node)

  pub taint_node_with_no_execute : Node → Bool → Exec S Node
  unfolding patch_node_spec_with_retry mutate_taints
  taint_node_with_no_execute node add_taint =
      patch_node_spec_with_retry (mutate_taints add_taint) node

  -- The rest of `AreAllPodsEvicted`, once the pods are there.
  pub check_pods : Option Pod → Exec S (Unit {0})
  check_pods none = pure tt
  check_pods (some pod) = raise (pod_not_evictable pod.name)

  pub are_all_pods_evicted : Node → Exec S (Unit {0})
  unfolding check_pods blocking_pod
  are_all_pods_evicted node = do
    pods ← wrapped "fetch pods on node" (client.pods_on_node node.name)
    check_pods (blocking_pod pods)

  pub cordon : Node → Exec S Node
  unfolding set_node_unschedulable
  cordon node =
      if not node.unschedulable
      then wrapped "failed to mark node as unschedulable" (set_node_unschedulable node true)
      else pure node

  -- What `DrainNodeIfNeeded` does with the cordoned node, by the eviction method.
  pub evict_pods : RebooterMethod → Node → Exec S Node
  unfolding taint_node_with_no_execute are_all_pods_evicted
  evict_pods evict node = do
    node' ← wrapped "failed to taint node" (taint_node_with_no_execute node true)
    are_all_pods_evicted node'
    pure node'
  evict_pods drain node = pure node

  pub drain_node_if_needed : Node → Exec S Node
  unfolding set_node_condition cordon evict_pods
  drain_node_if_needed node = do
    marked ←
        set_node_condition node "SlurmNodeDrain" condition_true "NodeDraining" "Node is draining"
    cordoned ← cordon marked
    evict_pods params.eviction_method cordoned

  pub handle_node_drain : Node → NodeActions → Exec S Node
  unfolding drain_node_if_needed
  handle_node_drain node actions =
      if actions.drain
      then (do
        drained ← drain_node_if_needed node
        set_node_condition drained "SlurmNodeDrain" condition_true "NodeDrained"
            "Node has been drained")
      else pure node

  pub uncordon : Node → Exec S Node
  unfolding set_node_unschedulable
  uncordon node =
      if node.unschedulable
      then wrapped "failed to mark node as schedulable" (set_node_unschedulable node false)
      else pure node

  pub undrain_node_if_needed : Node → Exec S Node
  unfolding uncordon taint_node_with_no_execute
  undrain_node_if_needed node = do
    schedulable ← uncordon node
    wrapped "failed to remove NoExecute taint" (taint_node_with_no_execute schedulable false)

  pub handle_node_undrain : Node → Exec S Node
  unfolding undrain_node_if_needed set_node_condition
  handle_node_undrain node = do
    undrained ← undrain_node_if_needed node
    set_node_condition undrained "SlurmNodeDrain" condition_false "NodeUndrained"
        "Node has been undrained"

  pub is_uptime_greater_than_last_transition : ℕ → Exec S Bool
  is_uptime_greater_than_last_transition last_transition = do
    start ← client.start_time
    pure (ltb start last_transition)

  -- The node has started since the condition was set: it has been rebooted.
  pub finish_reboot : Node → NodeCondition → NodeActions → Exec S (Node × NodeActions)
  unfolding handle_node_undrain set_node_condition needs_reboot
  finish_reboot node cond actions = do
    undrained ← if needs_reboot cond then handle_node_undrain node else pure node
    rebooted ← wrapped "set node condition" (
        set_node_condition undrained "SlurmNodeReboot" condition_true "NodeRebooted"
          "Node has been rebooted")
    pure (rebooted, actions)

  -- The part of `GetActions` on the reboot condition.
  pub get_reboot_action : Node → NodeActions → Option NodeCondition → Exec S (Node × NodeActions)
  unfolding is_uptime_greater_than_last_transition finish_reboot needs_reboot
  get_reboot_action node actions none = pure (node, actions)
  get_reboot_action node actions (some cond) = do
    pending ← is_uptime_greater_than_last_transition cond.last_transition
    if not pending
        then finish_reboot node cond actions
        else if needs_reboot cond
        then pure (node, record { reboot = true; drain = true })
        else pure (node, actions)

  pub get_actions : Node → Exec S (Node × NodeActions)
  unfolding get_reboot_action find_condition
  get_actions node =
      get_reboot_action node
        (record {
          reboot = false;
          drain = needs_drain (find_condition "SlurmNodeDrain" node.conditions);
        })
        (find_condition "SlurmNodeReboot" node.conditions)

  pub handle_node_reboot : Node → NodeActions → Exec S (Unit {0})
  unfolding set_node_condition
  handle_node_reboot node actions =
      if actions.reboot
      then (do
        marked ←
            set_node_condition node "SlurmNodeReboot" condition_true "NodeRebooting"
              "Node is rebooting"
        wrapped "failed to reboot node" client.reboot_command)
      else pure tt

  pub handle_drain_error : Err → Exec S ℕ
  unfolding is_pod_not_evictable
  handle_drain_error e =
      if is_pod_not_evictable e
      then pure params.reconcile_timeout
      else raise (wrap "failed to drain node" e)

  pub after_drain : NodeActions → Result Node → Exec S ℕ
  unfolding handle_node_reboot handle_drain_error
  after_drain actions (err e) = handle_drain_error e
  after_drain actions (ok node) = do handle_node_reboot node actions; pure params.reconcile_timeout

  -- The value is the delay after which the request is queued again.
  pub reconcile : Exec S ℕ
  unfolding get_actions handle_node_drain after_drain
  reconcile = do
    node ← wrapped "failed to get node" (client.cached_node params.node_name)
    planned ← get_actions node
    drained ← attempt (handle_node_drain planned.0 planned.1)
    after_drain planned.1 drained
