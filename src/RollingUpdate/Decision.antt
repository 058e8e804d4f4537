-- ===== src/RollingUpdate/Decision.antt =====
-- What the controller decides for one outdated pod and its Slurm node, and how many pods may go.
use soperator.Prelude.{
  ℕ, ◌-◌, ℤ, pos, negsuc, comparable_int, Bool, false, not, ◌&&◌, ◌||◌, Option, none, some, List,
  [], ◌∷◌, ◌++◌, Bytes, String, codes, comparable_bytes, comparable_string, ◌==◌, contains, lookup,
  if◌then◌else◌, ltb, nat_beq,
}
use soperator.Exec.{Result, ok, err}
use soperator.Text.{has_prefix}
use soperator.RollingUpdate.{ContainerStatus, Pod, WorkerNode, IntOrString, StatefulSet, Client}
use soperator.RollingUpdate.IntOrString.{number}

abbrev pub operation_id_label : String
operation_id_label = "slurm.nebius.ai/worker-operation-id"

abbrev pub operation_phase_label : String
operation_phase_label = "slurm.nebius.ai/worker-operation-phase"

abbrev pub revision_label : String
revision_label = "controller-revision-hash"

abbrev pub default_reboot_reason : Bytes
default_reboot_reason = codes "soperator rolling update"

-- `labels[key]`, which is empty when the key is missing.
abbrev or_empty : Option String → String
or_empty none = ""
or_empty (some value) = value

abbrev pub label_value : List (String × String) → String → String
label_value labels key = or_empty (lookup labels key)

abbrev ready_from : List (String × String) → Bool
ready_from [] = false
ready_from ((kind, status) ∷ conditions) =
    if kind == "Ready" then status == "True" else ready_from conditions

unfoldable pub pod_ready : Pod → Bool
pod_ready pod = ready_from pod.conditions

abbrev waits_with : Option String → Bool
waits_with none = false
waits_with (some reason) = reason == "CrashLoopBackOff"

unfoldable pub container_crash_loop_back_off : List ContainerStatus → String → Bool
container_crash_loop_back_off [] container = false
container_crash_loop_back_off (status ∷ statuses) container =
    (status.name == container && waits_with status.waiting)
    || container_crash_loop_back_off statuses container

unfoldable pub worker_operation_phase : Pod → String → String
unfolding lookup
worker_operation_phase pod operation_id =
    if not (label_value pod.labels operation_id_label == operation_id)
    then ""
    else label_value pod.labels operation_phase_label

abbrev is_rolling_reason : Option Bytes → Bool
is_rolling_reason none = false
is_rolling_reason (some reason) =
    reason == default_reboot_reason || has_prefix reason (default_reboot_reason ++ codes " : ")

unfoldable pub has_rolling_update_reason : WorkerNode → Bool
has_rolling_update_reason node = is_rolling_reason node.reason

abbrev pub is_state : WorkerNode → String → Bool
is_state node state = contains node.states state

abbrev pub reboot_in_progress : WorkerNode → Bool
reboot_in_progress node = is_state node "REBOOT_ISSUED" || is_state node "REBOOT_REQUESTED"

unfoldable pub stale_rolling_update_drain : WorkerNode → Bool
unfolding contains has_rolling_update_reason
stale_rolling_update_drain node =
    if not (is_state node "DRAIN")
      || not (is_state node "IDLE")
      || is_state node "NOT_RESPONDING"
      || is_state node "INVALID"
      || is_state node "COMPLETING"
    then false
    else if reboot_in_progress node
    then false
    else has_rolling_update_reason node

-- The number is known and zero.
abbrev pub known_zero : Option ℤ → Bool
known_zero none = false
known_zero (some n) = n == pos 0

unfoldable pub safe_to_delete_offline_slurm_node : WorkerNode → Bool
unfolding contains
safe_to_delete_offline_slurm_node node =
    if not (known_zero node.alloc_cpus)
    then false
    else if not (known_zero node.alloc_memory)
    then false
    else if is_state node "COMPLETING"
    then false
    else is_state node "DOWN" || (is_state node "IDLE" && is_state node "NOT_RESPONDING")

pub data WorkerUpdateAction : Type 0 where
  schedule_reboot wait track_in_flight undrain delete : WorkerUpdateAction

-- The switch of `decideWorkerUpdateAction`, over the values that it computes first.
abbrev pub action_for : Bool → Bool → Bool → Bool → WorkerUpdateAction
action_for stale may_delete crash_looping in_progress =
    if stale
    then undrain
    else if may_delete
    then delete
    else if crash_looping
    then wait
    else if in_progress
    then track_in_flight
    else schedule_reboot

abbrev pub slurmd_crash_looping : Pod → Bool
slurmd_crash_looping pod = container_crash_loop_back_off pod.statuses "slurmd"

-- One of the reasons to take a pod whose node is offline away.
abbrev pub is_given_up : Pod → WorkerNode → String → Bool
is_given_up pod node operation_id =
    slurmd_crash_looping pod
    || (reboot_in_progress node && worker_operation_phase pod operation_id == "stopping")
    || (reboot_in_progress node && has_rolling_update_reason node)

unfoldable pub decide_worker_update_action : Pod → WorkerNode → String → WorkerUpdateAction
unfolding container_crash_loop_back_off worker_operation_phase has_rolling_update_reason
    stale_rolling_update_drain safe_to_delete_offline_slurm_node contains
decide_worker_update_action pod node operation_id =
    action_for (stale_rolling_update_drain node)
      (is_given_up pod node operation_id && safe_to_delete_offline_slurm_node node)
      (slurmd_crash_looping pod) (reboot_in_progress node)

abbrev pub replicas_of : StatefulSet → ℕ
replicas_of sts = elim sts.replicas [ none ↦ 1 | some n ↦ n ]

abbrev pub max_unavailable_of : StatefulSet → IntOrString
max_unavailable_of sts = elim sts.max_unavailable [ none ↦ number (pos 1) | some value ↦ value ]

-- The end of `rebootBudget`: an error or a budget below 1 gives 1, and it is at most the replicas.
abbrev pub clamped : ℕ → Result ℤ → ℕ
clamped replicas (err e) = 1
clamped replicas (ok (negsuc n)) = 1
clamped replicas (ok (pos n)) = if ltb n 1 then 1 else if ltb replicas n then replicas else n

unfoldable pub reboot_budget : {S : Type 0} → Client S → StatefulSet → ℕ
reboot_budget client sts =
    if nat_beq (replicas_of sts) 0
    then 0
    else clamped (replicas_of sts) (client.scaled (max_unavailable_of sts) (replicas_of sts))

-- The subtraction on ℕ is the test for a negative difference.
abbrev pub unavailable_replicas : StatefulSet → ℕ
unavailable_replicas sts = replicas_of sts - sts.ready_replicas
