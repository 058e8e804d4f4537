-- ===== src/JailedConfig/Reconcile/Group/Written.antt =====
-- The loop over the configs of an aggregation key writes the payload of each of them.
use soperator.Prelude.{
  ℕ, ◌≡◌, ◌∙◌, inl, Bool, false, Option, some, List, ◌∷◌, ◌++◌, Bytes, String, comparable_bytes,
  comparable_string, All,
}
use soperator.Exec.{Result, ok, err, Exec, wrapped, lifted, ◌>>=◌}
use soperator.Exec.Runs.{Outcome, Runs, Runs-bind, Outcome-by_cases}
use soperator.JailedConfig.Batch.{Fs, JailedFile, ReplacedFile}
use soperator.JailedConfig.Batch.Laws.{IsFs}
use soperator.JailedConfig.Batch.Progress.{Progress-Grows}
use soperator.JailedConfig.Batched.{lift, replace_files}
use soperator.JailedConfig.Batched.Written.{
  At, IsPlain, IsWritten, Fits-after, replace_files-IsWritten,
}
use soperator.JailedConfig.Payload.{ConfigMap}
use soperator.JailedConfig.Reconfigure.{SlurmApi}
use soperator.JailedConfig.Status.{Condition, Config, KubeClient, set_conditions}
use soperator.JailedConfig.Reconcile.{payload_of, find_config_map}
use soperator.JailedConfig.Reconcile.Keeps.{conditions_set-Keeps, find_config_map-Keeps}
use soperator.JailedConfig.Reconcile.Atomic.{SameFiles, AsIn, AsIn-Keeps, SameFiles-Keeps}
use soperator.JailedConfig.Reconcile.Whole.{payload_of-IsValid}
use soperator.JailedConfig.Reconcile.Group.{Source, Found, OwnedBy, NotOf, not_written-All}

-- The files that a config asks for are its own, and none of them has a temporary name.
abbrev pub Owned : {S : Type 0} → KubeClient S → (Bytes → Bool) → (Bytes → String) → Config → Type 0
Owned {S} client is_temp owner config =
    (config_map : ConfigMap) (payload : List (Bytes × JailedFile)) (s : S)
    → (find_config_map client config s).0 ≡ ok (some config_map)
    → payload_of config config_map ≡ ok payload
    → All (λ w. is_temp w.0 ≡ false) payload × OwnedBy owner config.name payload

module _ {S : Type 0} {fs : Fs S} {files : S → Bytes → Option JailedFile} {is_temp : Bytes → Bool}
    (laws : IsFs fs files is_temp) (s0 : S) (api : SlurmApi S) (client : KubeClient S)
    (cluster : String) (ticks : ℕ)
    (get_same : (n c : String) → SameFiles files (client.get_config_map n c))
    (patch_same : (c c' : Config) → SameFiles files (client.patch_status c c'))
    (owner : Bytes → String) where
  abbrev pub Open : S × List ReplacedFile → Type 0
  Open t = (done : List (Bytes × JailedFile)) × At laws s0 done t

  pub set-SameFiles :
      (text : String) (config : Config) (conds : List Condition)
      → SameFiles files (wrapped text (set_conditions client config conds))
  set-SameFiles text config conds =
      SameFiles-Keeps files (wrapped text (set_conditions client config conds)) (λ s1.
        conditions_set-Keeps (AsIn files s1) client
          (λ n c. AsIn-Keeps files (client.get_config_map n c) s1 (get_same n c))
          (λ c c'. AsIn-Keeps files (client.patch_status c c') s1 (patch_same c c')) text config
          conds)

  pub find-SameFiles : (config : Config) → SameFiles files (find_config_map client config)
  find-SameFiles config = SameFiles-Keeps files (find_config_map client config) (λ s1.
      find_config_map-Keeps (AsIn files s1) client
        (λ n c. AsIn-Keeps files (client.get_config_map n c) s1 (get_same n c))
        (λ c c'. AsIn-Keeps files (client.patch_status c c') s1 (patch_same c c')) config)

  -- A call that changes no file, and its value.
  pub lift_step :
      {A : Type 0} (done : List (Bytes × JailedFile)) (m : Exec S A)
      → SameFiles files m
      → Runs
          (At laws s0 done)
          (lift m)
          (λ a t. At laws s0 done t × ((s : S) × ((m s).0 ≡ ok a)))
          Open
  lift_step {A} done m same = record {
    at = λ t h.
        let h' =
          Progress-Grows files is_temp s0 t.0 (m t.0).1 done t.1 (λ j x e. same t.0 j ∙ e) h in
        Outcome-by_cases (λ a u. At laws s0 done u × ((s : S) × ((m s).0 ≡ ok a))) Open (m t.0).0
          ((m t.0).1, t.1) (λ a e. (h', (t.0, e))) (λ x e. (done, h'));
  }

  written_step :
      (done payload : List (Bytes × JailedFile)) (r : Result (Unit {0})) (t : S × List ReplacedFile)
      → IsWritten laws s0 (done ++ payload) r t
      → Outcome (λ u. At laws s0 (done ++ payload)) Open r t
  written_step done payload (ok u) t h = h
  written_step done payload (err e) t h = h

  -- A config has added its files.
  abbrev pub Added : Config → List (Bytes × JailedFile) → S × List ReplacedFile → Type 0
  Added config done t =
      (payload : List (Bytes × JailedFile)) × Source client config payload
      × OwnedBy owner config.name payload
      × At laws s0 (done ++ payload) t

  pub valid_step :
      (config : Config) (config_map : ConfigMap) (done : List (Bytes × JailedFile))
      (r : Result (List (Bytes × JailedFile)))
      → payload_of config config_map ≡ r
      → Runs
          (At laws s0 done)
          (lifted r)
          (λ payload t. (payload_of config config_map ≡ ok payload) × At laws s0 done t)
          Open
  valid_step config config_map done (ok payload) e = record { at = λ t h. (e, h) }
  valid_step config config_map done (err x) e = record { at = λ t h. (done, h) }

  pub write_payload-Runs :
      (config : Config) (config_map : ConfigMap) (done payload : List (Bytes × JailedFile))
      (conds : List Condition)
      → Found client config (some config_map)
      → payload_of config config_map ≡ ok payload
      → All (λ w. is_temp w.0 ≡ false) payload
      → OwnedBy owner config.name payload
      → (rest : List String) → NotOf owner (config.name ∷ rest) done
      → Runs
          (At laws s0 done)
          (replace_files fs payload
            >>= (λ u. lift (wrapped "setting conditions" (set_conditions client config conds))))
          (λ c. Added config done)
          Open
  write_payload-Runs config config_map done payload conds found e plain own rest fresh =
      let d : IsPlain laws s0 payload =
        (plain, (payload_of-IsValid config config_map payload e).0) in
      let fits =
        Fits-after laws s0 done payload d
          (not_written-All owner config.name rest done payload fresh own) in
      let replaced : Runs (At laws s0 done) (replace_files fs payload)
          (λ u. At laws s0 (done ++ payload)) Open =
        record {
          at = λ t h.
              written_step done payload (replace_files fs payload t).0
                (replace_files fs payload t).1
                (replace_files-IsWritten laws s0 done payload t fits h);
        } in
      Runs-bind (replace_files fs payload) _ replaced (λ u. record {
        at = λ t h.
            let m = wrapped "setting conditions" (set_conditions client config conds) in
            let h' =
              Progress-Grows files is_temp s0 t.0 (m t.0).1 (done ++ payload) t.1
                (λ j x f. set-SameFiles "setting conditions" config conds t.0 j ∙ f) h in
            Outcome-by_cases (λ c. Added config done) Open (m t.0).0 ((m t.0).1, t.1)
              (λ a f. (payload, inl (config_map, found, e), own, h'))
              (λ x f. (done ++ payload, h'));
      })
