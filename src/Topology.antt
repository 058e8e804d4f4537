-- ===== src/Topology.antt =====
-- The topology configuration that the controller writes for Slurm
-- (internal/controller/topologyconfcontroller).
pub mod Labels
pub mod Graph
pub mod Blocks
pub mod SwitchName
