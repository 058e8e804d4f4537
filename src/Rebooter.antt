-- ===== src/Rebooter.antt =====
-- internal/rebooter/reconcile.go: the controller on each Kubernetes node that drains and reboots
-- it when a condition of the node asks for that. A function that changes `*node` returns the new
-- node. The API clients, the uptime and the reboot command are parameters.
pub mod Taints
pub mod Reconcile
use soperator.Prelude.{
  ℕ, ltb, Bool, true, false, not, ◌&&◌, ◌||◌, Option, none, some, List, [], ◌∷◌, ◌++◌, String, ◌==◌,
  comparable_string, if◌then◌else◌, ◌≡◌, refl,
}
use soperator.Exec.{
  Err, message, pod_not_evictable, wrap, is_pod_not_evictable, Result, ok, err, Exec, pure, raise,
  attempt, wrapped, ◌>>=◌, ◌>>◌,
}
use soperator.K8s.{
  Node, NodeCondition, Taint, condition_true, condition_false, find_condition, upsert_condition,
}

-- What `AreAllPodsEvicted` reads of a pod: the kinds of its owners, and of each toleration the
-- effect and the operator.
pub record Toleration : Type 0 where
  pub effect : String
  pub operator : String

pub record Pod : Type 0 where
  pub name : String
  pub owner_kinds : List String
  pub tolerations : List Toleration

pub data RebooterMethod : Type 0 where
  evict drain : RebooterMethod

-- The fields of the reconciler that are values, and the node on which it runs.
pub record Params : Type 0 where
  pub reconcile_timeout : ℕ
  pub node_name : String
  pub eviction_method : RebooterMethod

pub record Client (S : Type 0) : Type 0 where
  pub cached_node : String → Exec S Node
  pub latest_node : String → Exec S Node
  pub patch_spec : Node → Node → Exec S Node
  pub patch_status : Node → Node → Exec S Node
  pub pods_on_node : String → Exec S (List Pod)
  pub reboot_command : Exec S (Unit {0})
  -- The time at which the node started, now less its uptime; an error ends the process.
  pub start_time : Exec S ℕ
  pub now : S → ℕ
  pub retry_on_conflict : Exec S Node → Exec S Node

pub record NodeActions : Type 0 where
  pub reboot : Bool
  pub drain : Bool

-- region Tests and changes of a node

abbrev pub no_execute_key : String
no_execute_key = "node.kubernetes.io/NoExecute"

abbrev pub no_execute_effect : String
no_execute_effect = "NoExecute"

abbrev pub no_execute_taint : Taint
no_execute_taint = record { key = no_execute_key; value = "true"; effect = no_execute_effect }

pub has_no_execute : List Taint → Bool
has_no_execute [] = false
has_no_execute (taint ∷ taints) =
    if taint.key == no_execute_key then true else has_no_execute taints

-- `t.Key != taint.Key || t.Effect != taint.Effect`
abbrev pub is_other_taint : Taint → Bool
is_other_taint t = not (t.key == no_execute_key) || not (t.effect == no_execute_effect)

pub other_taints : List Taint → List Taint
other_taints [] = []
other_taints (t ∷ taints) =
    let rest = other_taints taints in if is_other_taint t then t ∷ rest else rest

-- `len(newTaints) == len(currentNode.Spec.Taints)`: no taint was left out.
pub all_other : List Taint → Bool
all_other [] = true
all_other (t ∷ taints) = is_other_taint t && all_other taints

-- The `mutate` functions: `none` is "not changed".
abbrev pub mutate_unschedulable : Bool → Node → Option Node
mutate_unschedulable true n =
    if n.unschedulable then none else some (record n { unschedulable = true })
mutate_unschedulable false n =
    if n.unschedulable then some (record n { unschedulable = false }) else none

pub mutate_taints : Bool → Node → Option Node
unfolding has_no_execute other_taints all_other
mutate_taints true n =
    if has_no_execute n.taints
    then none
    else some (record n { taints = n.taints ++ no_execute_taint ∷ [] })
mutate_taints false n =
    if all_other n.taints then none else some (record n { taints = other_taints n.taints })

-- One attempt: a transition time that the code has copied in an earlier attempt of the same retry is
-- not kept here.
pub mutate_condition : NodeCondition → Node → Option Node
unfolding upsert_condition
mutate_condition new n = some (record n { conditions = upsert_condition new n.conditions })

pub is_controlled_by_daemon_set : List String → Bool
is_controlled_by_daemon_set [] = false
is_controlled_by_daemon_set (kind ∷ kinds) =
    if kind == "DaemonSet" then true else is_controlled_by_daemon_set kinds

pub has_toleration_for_no_execute : List Toleration → Bool
has_toleration_for_no_execute [] = false
has_toleration_for_no_execute (t ∷ ts) =
    if t.effect == no_execute_effect then true else has_toleration_for_no_execute ts

pub has_toleration_for_exists : List Toleration → Bool
has_toleration_for_exists [] = false
has_toleration_for_exists (t ∷ ts) =
    if t.operator == "Exists" then true else has_toleration_for_exists ts

-- A pod that the loop of `AreAllPodsEvicted` passes over.
pub may_stay : Pod → Bool
unfolding is_controlled_by_daemon_set has_toleration_for_no_execute has_toleration_for_exists
may_stay pod =
    if is_controlled_by_daemon_set pod.owner_kinds
    then true
    else if has_toleration_for_no_execute pod.tolerations
    then true
    else has_toleration_for_exists pod.tolerations

-- The first pod that is not evicted yet.
pub blocking_pod : List Pod → Option Pod
unfolding may_stay
blocking_pod [] = none
blocking_pod (pod ∷ pods) = if may_stay pod then blocking_pod pods else some pod

pub check_node_condition : NodeCondition → String → String → Bool
check_node_condition cond kind status = cond.kind == kind && cond.status == status

abbrev pub needs_drain : Option NodeCondition → Bool
unfolding check_node_condition
needs_drain none = false
needs_drain (some cond) = check_node_condition cond "SlurmNodeDrain" condition_true

pub needs_reboot : NodeCondition → Bool
unfolding check_node_condition
needs_reboot cond =
    if cond.reason == "NodeRebooted"
    then false
    else check_node_condition cond "SlurmNodeReboot" condition_true

-- endregion
