-- ===== src/Exporter/Open.antt =====
-- In every state that the collector reaches, the events that go on have their start times.
use soperator.Prelude.{
  ℕ, ◌≡◌, inl, inr, Bool, false, List, [], ◌∷◌, ◌++◌, String, comparable_string, All, IsUnique,
  Bool-cases,
}
use soperator.Exec.{Result, ok, err}
use soperator.Exporter.{MetricNode, Tracker}
use soperator.Exporter.Nodes.{
  update_transitions, is_node_unavailable, is_node_draining, nodes_by_name,
}
use soperator.Exporter.Collector.{
  Collector, Event, nodes_done, jobs_done, diag_done, topology_done, is_late, apply_nodes, handle,
  run,
}
use soperator.Exporter.Tracked.{names, IsOpen, update_transitions-IsOpen, IsKnown-of_IsOpen}
use soperator.Exporter.Starts.{IsStarted, update_transitions-IsStarted}
use soperator.Exporter.Durations.{IsCompleted, update_transitions-IsCompleted}

abbrev pub NamesUnique : Result (List MetricNode) → Type 0
NamesUnique (err e) = Unit
NamesUnique (ok nodes) = IsUnique (names nodes)

-- What a tracker has after the nodes are stored, from what it had before.
abbrev pub Observes :
    (MetricNode → Bool) → List MetricNode → ℕ → List MetricNode → Tracker → Tracker → Type 0
Observes checker before now nodes tracker tracker' =
    All (IsStarted checker (nodes_by_name before) now tracker.starts tracker'.starts) nodes
    × ((durations : List (String × ℕ)) × (tracker'.observed ≡ tracker.observed ++ durations)
        × IsCompleted checker (nodes_by_name before) now tracker.starts nodes durations)

observes :
    (checker : MetricNode → Bool) (before : List MetricNode) (now : ℕ) (nodes : List MetricNode)
    (tracker : Tracker)
    → IsUnique (names nodes)
    → All (IsOpen checker tracker.starts) before
    → Observes checker before now nodes tracker
        (update_transitions checker (nodes_by_name before) now nodes tracker)
observes checker before now nodes tracker u open_before = (
  update_transitions-IsStarted checker (nodes_by_name before) now nodes tracker u,
  update_transitions-IsCompleted checker (nodes_by_name before) now nodes tracker u
      (IsKnown-of_IsOpen checker before nodes tracker.starts now open_before),
)

module _ {Job Diag Topology : Type 0} where
  -- The start of each event that goes on is known, of either kind.
  abbrev pub IsTracked : Collector Job Diag Topology → Type 0
  IsTracked c =
      All (IsOpen is_node_unavailable c.unavailability.starts) c.nodes
      × All (IsOpen is_node_draining c.draining.starts) c.nodes

  -- A list of nodes that was fetched has no name twice.
  abbrev pub HasUniqueNames : Event Job Diag Topology → Type 0
  HasUniqueNames (nodes_done sequence answer now later) = NamesUnique answer
  HasUniqueNames (jobs_done sequence answer) = Unit
  HasUniqueNames (diag_done sequence answer) = Unit
  HasUniqueNames (topology_done sequence answer) = Unit

  apply_nodes-IsTracked :
      (nodes : List MetricNode) (now later : ℕ) (c : Collector Job Diag Topology)
      → IsUnique (names nodes)
      → IsTracked c
      → IsTracked (apply_nodes nodes now later c)
  unfolding apply_nodes
  apply_nodes-IsTracked nodes now later c u (unavailable, draining) = (
    update_transitions-IsOpen is_node_unavailable (nodes_by_name c.nodes) now nodes c.unavailability
        u
        (IsKnown-of_IsOpen is_node_unavailable c.nodes nodes c.unavailability.starts now
          unavailable),
    update_transitions-IsOpen is_node_draining (nodes_by_name c.nodes) now nodes c.draining u
        (IsKnown-of_IsOpen is_node_draining c.nodes nodes c.draining.starts now draining),
  )

  handle-IsTracked :
      (e : Event Job Diag Topology) (c : Collector Job Diag Topology)
      → HasUniqueNames e
      → IsTracked c
      → IsTracked (handle e c)
  unfolding handle
  handle-IsTracked (nodes_done sequence (err x) now later) c u h = h
  handle-IsTracked (nodes_done sequence (ok nodes) now later) c u h =
      elim (Bool-cases (is_late sequence c.nodes_sequence)) [
        | inl late ↦ rw late h
        | inr fresh ↦ rw fresh (apply_nodes-IsTracked nodes now later c u h)
      ]
  handle-IsTracked (jobs_done sequence (err x)) c u h = h
  handle-IsTracked (jobs_done sequence (ok jobs)) c u h =
      elim (Bool-cases (is_late sequence c.jobs_sequence)) [
        | inl late ↦ rw late h
        | inr fresh ↦ rw fresh h
      ]
  handle-IsTracked (diag_done sequence (err x)) c u h = h
  handle-IsTracked (diag_done sequence (ok diag)) c u h =
      elim (Bool-cases (is_late sequence c.diag_sequence)) [
        | inl late ↦ rw late h
        | inr fresh ↦ rw fresh h
      ]
  handle-IsTracked (topology_done sequence (err x)) c u h = h
  handle-IsTracked (topology_done sequence (ok topologies)) c u h =
      elim (Bool-cases (is_late sequence c.topology_sequence)) [
        | inl late ↦ rw late h
        | inr fresh ↦ rw fresh h
      ]

  pub run-IsTracked :
      (events : List (Event Job Diag Topology)) (c : Collector Job Diag Topology)
      → All HasUniqueNames events
      → IsTracked c
      → IsTracked (run events c)
  unfolding run
  run-IsTracked [] c u h = h
  run-IsTracked (e ∷ events) c (u, us) h =
      run-IsTracked events (handle e c) us (handle-IsTracked e c u h)

  -- After any refreshes, in any order, from a state whose open events have start times, and if no
  -- fetched list has a node name twice: when the next nodes are stored, of the unavailability and
  -- of the draining alike, an event that goes on keeps its start time, one that begins starts at
  -- that moment, and the histogram gains exactly one duration for each node whose event went on in
  -- the nodes stored before and does not any more, in order, the time since the start, which is
  -- always known.
  pub run-Observes :
      (events : List (Event Job Diag Topology)) (c : Collector Job Diag Topology) (sequence : ℕ)
      (nodes : List MetricNode) (now later : ℕ)
      → All HasUniqueNames events
      → IsTracked c
      → IsUnique (names nodes)
      → is_late sequence (run events c).nodes_sequence ≡ false
      → let d = run events c in
        let d' = handle (nodes_done sequence (ok nodes) now later) d in
        Observes is_node_unavailable d.nodes now nodes d.unavailability d'.unavailability
        × Observes is_node_draining d.nodes now nodes d.draining d'.draining
  unfolding handle
  run-Observes events c sequence nodes now later us h u fresh =
      let d = run events c in
      let (unavailable, draining) = run-IsTracked events c us h in
      rw fresh (
        observes is_node_unavailable d.nodes now nodes d.unavailability u unavailable,
        observes is_node_draining d.nodes now nodes d.draining u draining,
      )
