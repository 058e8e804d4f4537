-- ===== src/Exporter/Nodes.antt =====
-- The tests of a Slurm node (internal/slurmapi/node.go) and the changes that they make to the node
-- metrics (updateNodeStateMetrics, updateNodeFailureMetrics).
use soperator.Prelude.{
  ℕ, ◌-◌, Bool, false, not, ◌&&◌, ◌||◌, Option, none, some, List, [], ◌∷◌, ◌++◌, String,
  comparable_string, ◌==◌, contains, lookup, put, if◌then◌else◌,
}
use soperator.Exec.{Result, ok, err}
use soperator.Exporter.{MetricNode, NodeFail, GpuSeconds, Tracker}
use soperator.Exporter.Tres.{TrackableResources, parse_trackable_resources}

abbrev pub in_state : MetricNode → String → Bool
in_state node state = contains node.states state

abbrev pub base_states : List String
base_states = "UNKNOWN" ∷ "DOWN" ∷ "IDLE" ∷ "ALLOCATED" ∷ "ERROR" ∷ "MIXED" ∷ "FUTURE" ∷ []

unfoldable pub first_state : List String → List String → String
first_state [] states = ""
first_state (state ∷ rest) states = if contains states state then state else first_state rest states

unfoldable pub base_state : MetricNode → String
unfolding first_state contains
base_state node = first_state base_states node.states

unfoldable pub is_power_managed : MetricNode → Bool
unfolding contains
is_power_managed node =
    in_state node "POWER_DOWN"
    || in_state node "POWER_DRAIN"
    || in_state node "POWERED_DOWN"
    || in_state node "POWERING_DOWN"
    || in_state node "POWERING_UP"
    || in_state node "POWER_UP"

unfoldable pub is_node_unavailable : MetricNode → Bool
unfolding contains is_power_managed base_state
is_node_unavailable node =
    if is_power_managed node
    then false
    else in_state node "DOWN"
      || in_state node "NOT_RESPONDING"
      || (base_state node == "IDLE" && in_state node "DRAIN")
      || base_state node == "UNKNOWN"
      || base_state node == "ERROR"
      || in_state node "FAIL"
      || in_state node "INVALID"

unfoldable pub is_node_draining : MetricNode → Bool
unfolding contains base_state
is_node_draining node =
    if not (in_state node "DRAIN")
    then false
    else base_state node == "ALLOCATED" || base_state node == "MIXED"

-- `delete(startTimes, name)`
unfoldable pub drop_start : String → List (String × ℕ) → List (String × ℕ)
drop_start name [] = []
drop_start name ((other, start) ∷ starts) =
    let rest = drop_start name starts in if other == name then rest else (other, start) ∷ rest

-- The `if startTime, ok := startTimes[node.Name]; ok` of the transition.
abbrev pub close_event : String → ℕ → Tracker → Option ℕ → Tracker
close_event name now tracker none = tracker
close_event name now tracker (some start) = record {
  starts = drop_start name tracker.starts;
  observed = tracker.observed ++ (name, now - start) ∷ [];
}

-- `processTransition`, over the answers of the state checker.
unfoldable pub process_transition : Bool → Bool → String → ℕ → Tracker → Tracker
unfolding put drop_start lookup
process_transition current previous name now tracker =
    if current && not previous
    then record tracker { starts = put name now tracker.starts }
    else if not current && previous
    then close_event name now tracker (lookup tracker.starts name)
    else tracker

-- The map of the previous nodes by their names.
unfoldable pub nodes_from :
    List (String × MetricNode) → List MetricNode → List (String × MetricNode)
unfolding put
nodes_from found [] = found
nodes_from found (node ∷ nodes) = nodes_from (put node.name node found) nodes

unfoldable pub nodes_by_name : List MetricNode → List (String × MetricNode)
unfolding nodes_from
nodes_by_name nodes = nodes_from [] nodes

-- `existed && stateChecker(previousNode)`
abbrev pub checked_before : (MetricNode → Bool) → Option MetricNode → Bool
checked_before checker none = false
checked_before checker (some node) = checker node

-- The loop of `updateNodeStateMetrics`, for one state checker with its start times and histogram:
-- the two of them do not share any state.
unfoldable pub update_transitions :
    (MetricNode → Bool) → List (String × MetricNode) → ℕ → List MetricNode → Tracker → Tracker
unfolding process_transition
update_transitions checker previous now [] tracker = tracker
update_transitions checker previous now (node ∷ nodes) tracker =
    update_transitions checker previous now nodes (
      process_transition (checker node) (checked_before checker (lookup previous node.name))
        node.name now tracker)

-- A failure that power management does not explain.
abbrev pub is_failed : MetricNode → Bool
is_failed node = (in_state node "DOWN" || in_state node "DRAIN") && not (is_power_managed node)

abbrev pub reason_text : Option String → String
reason_text none = ""
reason_text (some reason) = reason

unfoldable pub node_fail : MetricNode → NodeFail
unfolding contains base_state
node_fail node = record {
  node = node.name;
  base = base_state node;
  is_drain = in_state node "DRAIN";
  is_maintenance = in_state node "MAINTENANCE";
  is_reserved = in_state node "RESERVED";
  reason = reason_text node.reason;
}

abbrev pub has_newly_failed : MetricNode → Option MetricNode → Bool
has_newly_failed node none = false
has_newly_failed node (some existing) = not (is_failed existing) && is_failed node

unfoldable pub update_failures :
    List (String × MetricNode) → List MetricNode → List NodeFail → List NodeFail
unfolding node_fail contains is_power_managed
update_failures previous [] fails = fails
update_failures previous (node ∷ nodes) fails = update_failures previous nodes (
    if has_newly_failed node (lookup previous node.name)
    then fails ++ node_fail node ∷ []
    else fails)

-- One turn of the loop of `updateGPUSecondsMetrics`; an error of the parser skips the node.
abbrev pub gpu_seconds_of : ℕ → MetricNode → Result TrackableResources → List GpuSeconds
gpu_seconds_of elapsed node (err e) = []
gpu_seconds_of elapsed node (ok tres) =
    (record {
      node = node.name;
      base = base_state node;
      is_drain = in_state node "DRAIN";
      is_maintenance = in_state node "MAINTENANCE";
      is_reserved = in_state node "RESERVED";
      elapsed = elapsed;
      gpu_count = tres.gpu_count;
    })
    ∷ []

unfoldable pub update_gpu_seconds : ℕ → List MetricNode → List GpuSeconds → List GpuSeconds
unfolding parse_trackable_resources base_state contains
update_gpu_seconds elapsed [] gpu = gpu
update_gpu_seconds elapsed (node ∷ nodes) gpu =
    update_gpu_seconds elapsed nodes
      (gpu ++ gpu_seconds_of elapsed node (parse_trackable_resources node.tres))
