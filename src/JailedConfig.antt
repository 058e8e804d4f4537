-- ===== src/JailedConfig.antt =====
-- The controller that writes config files into the shared root of a Slurm cluster and makes Slurm
-- read them (internal/controller/sconfigcontroller).
pub mod Batch
pub mod Batched
pub mod Payload
pub mod Rename
pub mod Reconfigure
pub mod Status
pub mod Reconcile
mod Tests
