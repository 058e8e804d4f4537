-- ===== src/Exporter/Collector.antt =====
-- The state of MetricsCollector and the commits of its four refreshes. A refresh fetches without the
-- lock and then stores under `stateMu`, so each commit is one step; a clone of the state is the
-- same value here, and the histograms stand beside the start times that feed them. The run counters
-- of the exporter's own monitoring are left out.
use soperator.Prelude.{
  ℕ, ◌-◌, Bool, not, ◌&&◌, Option, some, List, [], ◌∷◌, String, leb, nat_beq, if◌then◌else◌,
}
use soperator.Exec.{Result, ok, err}
use soperator.Exporter.{MetricNode, NodeFail, GpuSeconds, Tracker}
use soperator.Exporter.Nodes.{
  is_node_unavailable, is_node_draining, nodes_by_name, update_transitions, update_failures,
  update_gpu_seconds,
}

-- `metricsCollectorState`, with the counters and histograms of the collector.
pub record Collector (Job Diag Topology : Type 0) : Type 0 where
  pub last_gpu_seconds_update : ℕ
  pub nodes : List MetricNode
  pub nodes_sequence : ℕ
  pub jobs : List Job
  pub jobs_sequence : ℕ
  pub diag : Option Diag
  pub diag_sequence : ℕ
  pub topologies : List (String × Topology)
  pub topology_sequence : ℕ
  pub unavailability : Tracker
  pub draining : Tracker
  pub node_fails : List NodeFail
  pub gpu_seconds : List GpuSeconds

-- `sequence != 0 && sequence <= …`: a later fetch was stored already.
abbrev pub is_late : ℕ → ℕ → Bool
is_late sequence stored = not (nat_beq sequence 0) && leb sequence stored

-- `if sequence != 0 { … = sequence }`
abbrev pub stored_sequence : ℕ → ℕ → ℕ
stored_sequence sequence stored = if nat_beq sequence 0 then stored else sequence

module _ {Job Diag Topology : Type 0} where
  -- `applyNodes`: `now` and `later` are its two readings of the clock.
  unfoldable pub apply_nodes :
      List MetricNode → ℕ → ℕ → Collector Job Diag Topology → Collector Job Diag Topology
  unfolding update_transitions update_failures update_gpu_seconds nodes_by_name is_node_unavailable
      is_node_draining
  apply_nodes nodes now later c = record c {
    nodes = nodes;
    node_fails = update_failures (nodes_by_name c.nodes) nodes c.node_fails;
    unavailability =
        update_transitions is_node_unavailable (nodes_by_name c.nodes) now nodes c.unavailability;
    draining = update_transitions is_node_draining (nodes_by_name c.nodes) now nodes c.draining;
    gpu_seconds = update_gpu_seconds (later - c.last_gpu_seconds_update) nodes c.gpu_seconds;
    last_gpu_seconds_update = later;
  }

  -- What a refresh does with the answer that it fetched: an error changes nothing.
  unfoldable pub refresh_nodes :
      ℕ
      → Result (List MetricNode)
      → ℕ
      → ℕ
      → Collector Job Diag Topology
      → Collector Job Diag Topology
  unfolding apply_nodes
  refresh_nodes sequence (err e) now later c = c
  refresh_nodes sequence (ok nodes) now later c =
      if is_late sequence c.nodes_sequence then c else record (apply_nodes nodes now later c) {
        nodes_sequence = stored_sequence sequence c.nodes_sequence;
      }

  unfoldable pub refresh_jobs :
      ℕ → Result (List Job) → Collector Job Diag Topology → Collector Job Diag Topology
  refresh_jobs sequence (err e) c = c
  refresh_jobs sequence (ok jobs) c =
      if is_late sequence c.jobs_sequence
      then c
      else record c { jobs = jobs; jobs_sequence = stored_sequence sequence c.jobs_sequence }

  unfoldable pub refresh_diag :
      ℕ → Result Diag → Collector Job Diag Topology → Collector Job Diag Topology
  refresh_diag sequence (err e) c = c
  refresh_diag sequence (ok diag) c =
      if is_late sequence c.diag_sequence
      then c
      else record c { diag = some diag; diag_sequence = stored_sequence sequence c.diag_sequence }

  unfoldable pub refresh_node_topologies :
      ℕ
      → Result (List (String × Topology))
      → Collector Job Diag Topology
      → Collector Job Diag Topology
  refresh_node_topologies sequence (err e) c = c
  refresh_node_topologies sequence (ok topologies) c =
      if is_late sequence c.topology_sequence then c else record c {
        topologies = topologies;
        topology_sequence = stored_sequence sequence c.topology_sequence;
      }

-- The end of a refresh: its sequence number and what it fetched.
pub data Event (Job Diag Topology : Type 0) : Type 0 where
  nodes_done : ℕ → Result (List MetricNode) → ℕ → ℕ → Event Job Diag Topology
  jobs_done : ℕ → Result (List Job) → Event Job Diag Topology
  diag_done : ℕ → Result Diag → Event Job Diag Topology
  topology_done : ℕ → Result (List (String × Topology)) → Event Job Diag Topology

module _ {Job Diag Topology : Type 0} where
  unfoldable pub handle :
      Event Job Diag Topology → Collector Job Diag Topology → Collector Job Diag Topology
  unfolding refresh_nodes refresh_jobs refresh_diag refresh_node_topologies
  handle (nodes_done sequence answer now later) c = refresh_nodes sequence answer now later c
  handle (jobs_done sequence answer) c = refresh_jobs sequence answer c
  handle (diag_done sequence answer) c = refresh_diag sequence answer c
  handle (topology_done sequence answer) c = refresh_node_topologies sequence answer c

  -- The refreshes in the order in which they take the lock.
  unfoldable pub run :
      List (Event Job Diag Topology) → Collector Job Diag Topology → Collector Job Diag Topology
  unfolding handle
  run [] c = c
  run (e ∷ events) c = run events (handle e c)
