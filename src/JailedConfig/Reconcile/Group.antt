-- ===== src/JailedConfig/Reconcile/Group.antt =====
-- The writing of all the configs of an aggregation key, each path of which one config asks for.
pub mod Written
pub mod Restored
pub mod Whole
use mathlib.Core.Path.{subst}
use mathlib.Core.List.{append-nil, append_assoc}
use soperator.Prelude.{
  ap, ℕ, ◌≡◌, refl, sym, ◌∙◌, ◌⊎◌, inl, inr, Bool, true, false, Option, none, some, List, [], ◌∷◌,
  ◌++◌, map, Bytes, String, comparable_bytes, comparable_string, bytes_beq_iff, ◌==◌, contains, All,
  IsUnique, Bool-cases, arith, equal_refl,
}
use soperator.Exec.{Err, Result, ok, err, Exec, wrapped, lifted}
use soperator.Exec.Runs.{Outcome, Runs, Runs-bind, Runs-wrapped, Runs-weaken, Outcome-weaken}
use soperator.JailedConfig.Batch.{Fs, JailedFile, ReplacedFile}
use soperator.JailedConfig.Batch.Laws.{IsFs}
use soperator.JailedConfig.Batch.Progress.{Progress-Grows}
use soperator.JailedConfig.Batched.{Batched, lift, replace_files}
use soperator.JailedConfig.Batched.Written.{
  At, IsPlain, IsWritten, Fits-after, replace_files-IsWritten,
}
use soperator.JailedConfig.Payload.{ConfigMap}
use soperator.JailedConfig.Reconfigure.{SlurmApi}
use soperator.JailedConfig.Status.{Condition, Config, KubeClient, condition, set_conditions}
use soperator.JailedConfig.Reconcile.{payload_of, find_config_map}
use soperator.JailedConfig.Reconcile.Keeps.{conditions_set-Keeps, find_config_map-Keeps}
use soperator.JailedConfig.Reconcile.Atomic.{SameFiles, AsIn, AsIn-Keeps, SameFiles-Keeps}
use soperator.JailedConfig.Reconcile.Whole.{payload_of-IsValid}
use soperator.JailedConfig.Reconcile.Aggregated.{write_config, write_all}

abbrev pub names : List Config → List String
names [] = []
names (config ∷ configs) = config.name ∷ names configs

-- What the configs have asked for, one after the other: the payload of the ConfigMap that was
-- found, or nothing for a config whose ConfigMap was not found.
module _ {S : Type 0} (client : KubeClient S) where
  abbrev pub Found : Config → Option ConfigMap → Type 0
  Found config asked = (s : S) × ((find_config_map client config s).0 ≡ ok asked)

  abbrev pub Source : Config → List (Bytes × JailedFile) → Type 0
  Source config payload =
      ((config_map : ConfigMap) × Found config (some config_map)
        × (payload_of config config_map ≡ ok payload))
      ⊎ (Found config none × (payload ≡ []))

  abbrev pub Sources : List Config → List (Bytes × JailedFile) → Type 0
  Sources [] files = files ≡ []
  Sources (config ∷ configs) files =
      (payload : List (Bytes × JailedFile)) × (rest : List (Bytes × JailedFile)) × (files
        ≡ payload ++ rest)
      × Source config payload
      × Sources configs rest

module _ (owner : Bytes → String) where
  abbrev pub OwnedBy : String → List (Bytes × JailedFile) → Type 0
  OwnedBy name = All (λ w. owner w.0 ≡ name)

  -- None of the files is one of these configs'.
  abbrev pub NotOf : List String → List (Bytes × JailedFile) → Type 0
  NotOf configs = All (λ w. contains configs (owner w.0) ≡ false)

  not_written :
      (name : String) (configs : List String) (done : List (Bytes × JailedFile)) (path : Bytes)
      → NotOf (name ∷ configs) done
      → owner path ≡ name
      → contains (map (λ u. u.0) done) path ≡ false
  unfolding contains
  not_written name configs [] path h e = refl
  not_written name configs (w ∷ done) path (h, hs) e = elim (Bool-cases (w.0 == path)) [
    | inl same ↦
        let q : w.0 ≡ path = (bytes_beq_iff w.0 path).0 same in
        let o : owner w.0 ≡ name = ap owner q ∙ e in absurd (ground (arith, o, h, equal_refl name))
    | inr other ↦ ground (arith, other, not_written name configs done path hs e)
  ]

  not_written-All :
      (name : String) (configs : List String) (done payload : List (Bytes × JailedFile))
      → NotOf (name ∷ configs) done
      → OwnedBy name payload
      → All (λ v. contains (map (λ u. u.0) done) v.0 ≡ false) payload
  not_written-All name configs done [] h o = tt
  not_written-All name configs done (w ∷ payload) h (o, os) =
      (not_written name configs done w.0 h o, not_written-All name configs done payload h os)

  NotOf-tail :
      (name : String) (configs : List String) (done : List (Bytes × JailedFile))
      → NotOf (name ∷ configs) done
      → NotOf configs done
  unfolding contains
  NotOf-tail name configs [] h = tt
  NotOf-tail name configs (w ∷ done) (h, hs) = (ground (arith, h), NotOf-tail name configs done hs)

  NotOf-append :
      (name : String) (configs : List String) (done payload : List (Bytes × JailedFile))
      → contains configs name ≡ false
      → NotOf configs done
      → OwnedBy name payload
      → NotOf configs (done ++ payload)
  NotOf-append name configs [] [] u h o = tt
  NotOf-append name configs [] (w ∷ payload) u h (o, os) = (
    subst (λ n. contains configs n ≡ false) (sym o) u,
    NotOf-append name configs [] payload u h os,
  )
  NotOf-append name configs (v ∷ done) payload u (h, hs) o =
      (h, NotOf-append name configs done payload u hs o)
