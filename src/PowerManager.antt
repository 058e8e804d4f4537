-- ===== src/PowerManager.antt =====
-- cmd/powermanager/main.go: the program behind Slurm's ResumeProgram and SuspendProgram.
pub mod NodeList
pub mod ActiveNodes
pub mod Action
