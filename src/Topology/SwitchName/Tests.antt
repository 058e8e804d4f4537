-- ===== src/Topology/SwitchName/Tests.antt =====
-- Runs of the safe switch names, and the properties at concrete inputs.
use soperator.Prelude.{◌++◌, ◌≡◌, refl, ◌<◌, ◌^◌, codes, Bytes}
use soperator.Topology.SwitchName.{slurm_safe_switch_name, reversed}
use soperator.Topology.SwitchName.Safe.{
  run_value, slurm_safe_switch_name_fits, slurm_safe_switch_name_exact, HasLongRun,
}

abbrev long_name : Bytes
long_name = codes "leaf1234567890123456789012"

short_unchanged : slurm_safe_switch_name (codes "leaf12") ≡ codes "leaf12"
unfolding slurm_safe_switch_name
short_unchanged = refl

long_terminated : slurm_safe_switch_name long_name ≡ codes "leaf1234567890123456789012_"
unfolding slurm_safe_switch_name
long_terminated = refl

slurm_safe_switch_name_fits_example :
    run_value (reversed (slurm_safe_switch_name long_name)) < 2 ^ 64
slurm_safe_switch_name_fits_example = slurm_safe_switch_name_fits long_name

slurm_safe_switch_name_exact_example :
    (HasLongRun (reversed long_name) → slurm_safe_switch_name long_name ≡ long_name ++ codes "_")
    × ((HasLongRun (reversed long_name) → ⊥) → slurm_safe_switch_name long_name ≡ long_name)
slurm_safe_switch_name_exact_example = slurm_safe_switch_name_exact long_name
