-- ===== src/JailedConfig/Reconcile/Group/Whole.antt =====
-- The files after the configs of an aggregation key were written together.
use soperator.Prelude.{
  ℕ, ◌≡◌, ◌⊎◌, Bool, Option, List, [], Bytes, String, comparable_bytes, comparable_string,
}
use soperator.Exec.{Exec, wrapped, when}
use soperator.Exec.Runs.{Runs}
use soperator.Exec.Keeps.{Keeps}
use soperator.JailedConfig.Batch.{Fs, JailedFile, ReplacedFile}
use soperator.JailedConfig.Batch.Laws.{IsFs}
use soperator.JailedConfig.Batch.Undo.{Restored}
use soperator.JailedConfig.Batched.Written.{At}
use soperator.JailedConfig.Batched.Finished.{IsAll}
use soperator.JailedConfig.Reconfigure.{SlurmApi, reconfigure_cluster}
use soperator.JailedConfig.Status.{Config, KubeClient}
use soperator.JailedConfig.Reconcile.Atomic.{SameFiles}
use soperator.JailedConfig.Reconcile.Group.{Sources}

-- The payloads of all the configs are written, and every other file is as it was.
abbrev pub GroupWritten :
    {S : Type 0}
    → KubeClient S
    → (S → Bytes → Option JailedFile)
    → (Bytes → Bool)
    → S
    → List Config
    → S
    → Type 0
GroupWritten client files is_temp s0 configs s =
    (all : List (Bytes × JailedFile)) × Sources client configs all × IsAll files is_temp s0 all s

abbrev reconfigured_if : {S : Type 0} → SlurmApi S → ℕ → Bool → Exec S (Unit {0})
reconfigured_if api ticks needed =
    when needed
      (wrapped "reconfiguring Slurm cluster for aggregated group" (reconfigure_cluster api ticks))

module _ {S : Type 0} {fs : Fs S} {files : S → Bytes → Option JailedFile} {is_temp : Bytes → Bool}
    (laws : IsFs fs files is_temp) (s0 : S) (api : SlurmApi S) (client : KubeClient S)
    (cluster : String) (ticks : ℕ)
    (get_same : (n c : String) → SameFiles files (client.get_config_map n c))
    (patch_same : (c c' : Config) → SameFiles files (client.patch_status c c'))
    (nodes_same : SameFiles files api.get_nodes)
    (reconfigure_same : SameFiles files api.get_reconfigure) (owner : Bytes → String) where
  abbrev GroupFinished : List Config → S × List ReplacedFile → Type 0
  GroupFinished configs t = GroupWritten client files is_temp s0 configs t.0 × (t.1 ≡ [])

  abbrev GroupStopped : List Config → S × List ReplacedFile → Type 0
  GroupStopped configs t =
      ((done : List (Bytes × JailedFile)) × At laws s0 done t) ⊎ GroupFinished configs t
