-- ===== src/JailedConfig/Reconcile/Whole.antt =====
-- The files after a whole reconcile of one JailedConfig.
use mathlib.Core.Path.{subst}
use soperator.Prelude.{
  comparable_bytes, ◌≡◌, ◌⊎◌, inl, inr, Bool, true, false, Option, List, Bytes, All, IsUnique,
  Bool-cases, Option-cases, arith,
}
use soperator.Exec.{Result, ok, Exec, wrapped}
use soperator.Exec.Runs.{Outcome, Runs}
use soperator.JailedConfig.Batch.{Fs, JailedFile}
use soperator.JailedConfig.Batch.Laws.{IsFs}
use soperator.JailedConfig.Batch.Undo.{Restored}
use soperator.JailedConfig.Payload.{ConfigMap, is_abs, make_payload, all_paths_valid}
use soperator.JailedConfig.Payload.Distinct.{make_payload-IsUniqueIf, all_paths_valid-All, paths}
use soperator.JailedConfig.Batched.Finished.{IsAll}
use soperator.JailedConfig.Status.{Config, KubeClient, refresh_conditions, set_conditions}
use soperator.JailedConfig.Reconcile.{payload_of, mode_of}

module _ {S : Type 0} (files : S → Bytes → Option JailedFile) (is_temp : Bytes → Bool) where
  -- All the files of a payload that is wanted were written.
  abbrev pub WroteAll : S → (List (Bytes × JailedFile) → Type 0) → S → Type 0
  WroteAll s0 wanted s =
      (payload : List (Bytes × JailedFile)) × wanted payload × IsAll files is_temp s0 payload s

module _ {S : Type 0} {fs : Fs S} {files : S → Bytes → Option JailedFile} {is_temp : Bytes → Bool}
    (laws : IsFs fs files is_temp) where
  abbrev pub IsWhole : S → (List (Bytes × JailedFile) → Type 0) → Result (Unit {0}) → S → Type 0
  IsWhole s0 wanted =
      Outcome (λ u s. WroteAll files is_temp s0 wanted s)
        (λ s. Restored laws s0 s ⊎ WroteAll files is_temp s0 wanted s)

-- The paths of a payload are distinct and absolute.
pub payload_of-IsValid :
    (config : Config) (config_map : ConfigMap) (payload : List (Bytes × JailedFile))
    → payload_of config config_map ≡ ok payload
    → IsUnique (paths payload) × All (λ w. is_abs w.0 ≡ true) payload
unfolding payload_of
payload_of-IsValid config config_map payload h =
    let u = make_payload-IsUniqueIf config.items config_map (mode_of config.default_mode) in
    elim (Option-cases (make_payload config.items config_map (mode_of config.default_mode))) [
      | inl e ↦ absurd (ground (arith, rw e at h))
      | inr (p, e) ↦ elim (Bool-cases (all_paths_valid p)) [
        | inr bad ↦ absurd (ground (arith, rw (e, bad) at h))
        | inl good ↦
            let q : p ≡ payload = ground (arith, rw (e, good) at h) in
            subst (λ l. IsUnique (paths l) × All (λ w. is_abs w.0 ≡ true) l) q
              (rw e at u, all_paths_valid-All p good)
      ]
    ]

module _ {S : Type 0} (client : KubeClient S) where
  -- The call that says that the files are being written, before the payload is made.
  abbrev pub refresh : Config → Exec S Config
  refresh config =
      wrapped "setting conditions"
        (set_conditions client config (refresh_conditions "Refreshing files in jail FS"))

module _ {S : Type 0} (client : KubeClient S) where
  -- The payload of the ConfigMap for the config that this call returns.
  abbrev pub Wanted : S → Config → ConfigMap → List (Bytes × JailedFile) → Type 0
  Wanted s0 config config_map payload =
      (config' : Config) × ((refresh client config s0).0 ≡ ok config')
      × (payload_of config' config_map ≡ ok payload)

module _ {S : Type 0} (client : KubeClient S) (is_temp : Bytes → Bool) where
  -- No payload of the ConfigMap has a temporary name.
  abbrev pub IsPlainFor : S → Config → ConfigMap → Type 0
  IsPlainFor s0 config config_map =
      (config' : Config) (payload : List (Bytes × JailedFile))
      → (refresh client config s0).0 ≡ ok config'
      → payload_of config' config_map ≡ ok payload
      → All (λ w. is_temp w.0 ≡ false) payload
