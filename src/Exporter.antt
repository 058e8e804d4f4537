-- ===== src/Exporter.antt =====
-- The metrics exporter (internal/exporter): what it keeps between its collections, and how the node
-- states move its counters and histograms. The Prometheus registry is the log of what was observed.
pub mod Tres
pub mod Nodes
pub mod Collector
pub mod Tracked
pub mod Durations
pub mod Starts
pub mod Open
pub mod Newest
pub mod Inflight
mod Tests
use soperator.Prelude.{ℕ, ℤ, Bool, Option, List, String, Bytes}

-- The fields of a `slurmapi.Node` that the node metrics read.
pub record MetricNode : Type 0 where
  pub name : String
  pub states : List String
  pub reason : Option String
  pub tres : Bytes

-- The label values of the counter `slurm_node_fails_total`.
pub record NodeFail : Type 0 where
  pub node : String
  pub base : String
  pub is_drain : Bool
  pub is_maintenance : Bool
  pub is_reserved : Bool
  pub reason : String

-- What is added to `slurm_node_gpu_seconds_total`: the time and the number of GPUs, whose product
-- the code adds as a float.
pub record GpuSeconds : Type 0 where
  pub node : String
  pub base : String
  pub is_drain : Bool
  pub is_maintenance : Bool
  pub is_reserved : Bool
  pub elapsed : ℕ
  pub gpu_count : ℤ

-- The start times of the open events of one kind, and the completed ones with their durations.
-- Times are nanoseconds of the monotonic clock.
pub record Tracker : Type 0 where
  pub starts : List (String × ℕ)
  pub observed : List (String × ℕ)
