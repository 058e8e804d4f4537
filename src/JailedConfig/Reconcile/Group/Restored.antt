-- ===== src/JailedConfig/Reconcile/Group/Restored.antt =====
-- The loop over all the configs of an aggregation key.
use mathlib.Core.Path.{subst}
use mathlib.Core.List.{append-nil, append_assoc}
use soperator.Prelude.{
  ℕ, ◌≡◌, refl, sym, ◌∙◌, inr, Bool, Option, none, some, List, [], ◌∷◌, ◌++◌, Bytes, String,
  comparable_bytes, comparable_string, All, IsUnique,
}
use soperator.Exec.{ok, pure, wrapped, lifted}
use soperator.Exec.Runs.{Runs, Runs-bind, Runs-pure, Outcome-by_cases}
use soperator.JailedConfig.Batch.{Fs, JailedFile, ReplacedFile}
use soperator.JailedConfig.Batch.Laws.{IsFs}
use soperator.JailedConfig.Batch.Progress.{Progress-Grows}
use soperator.JailedConfig.Batched.{lift}
use soperator.JailedConfig.Batched.Written.{At}
use soperator.JailedConfig.Payload.{ConfigMap}
use soperator.JailedConfig.Reconfigure.{SlurmApi}
use soperator.JailedConfig.Status.{Condition, Config, KubeClient, condition, set_conditions}
use soperator.JailedConfig.Reconcile.{payload_of, find_config_map}
use soperator.JailedConfig.Reconcile.Atomic.{SameFiles}
use soperator.JailedConfig.Reconcile.Aggregated.{write_config, write_all}
use soperator.JailedConfig.Reconcile.Group.{names, Sources, NotOf, NotOf-tail, NotOf-append}
use soperator.JailedConfig.Reconcile.Group.Written.{
  Owned, Open, Added, lift_step, set-SameFiles, find-SameFiles, valid_step, write_payload-Runs,
}

module _ {S : Type 0} {fs : Fs S} {files : S → Bytes → Option JailedFile} {is_temp : Bytes → Bool}
    (laws : IsFs fs files is_temp) (s0 : S) (api : SlurmApi S) (client : KubeClient S)
    (cluster : String) (ticks : ℕ)
    (get_same : (n c : String) → SameFiles files (client.get_config_map n c))
    (patch_same : (c c' : Config) → SameFiles files (client.patch_status c c'))
    (owner : Bytes → String) where
  write_config-Runs :
      (config : Config) (asked : Option ConfigMap) (done : List (Bytes × JailedFile))
      (rest : List String) (s : S)
      → (find_config_map client config s).0 ≡ ok asked
      → Owned client is_temp owner config
      → NotOf owner (config.name ∷ rest) done
      → Runs
          (At laws s0 done)
          (write_config fs api client cluster ticks config asked)
          (λ c. Added laws s0 api client cluster ticks get_same patch_same owner config done)
          (Open laws s0 api client cluster ticks get_same patch_same owner)
  unfolding write_config
  write_config-Runs config none done rest s f owned fresh = record {
    at = λ t h.
        let conds : List Condition =
          condition "FilesWritten" "False" "NotFound"
            "ConfigMap not found, files were not written (aggregated)"
          ∷ [] in
        let text : String = "setting files written condition" in
        let m = wrapped text (set_conditions client config conds) in
        let same =
          set-SameFiles laws s0 api client cluster ticks get_same patch_same owner text config
            conds in
        let h' =
          Progress-Grows files is_temp s0 t.0 (m t.0).1 done t.1 (λ j x e. same t.0 j ∙ e) h in
        Outcome-by_cases
          (λ c. Added laws s0 api client cluster ticks get_same patch_same owner config done)
          (Open laws s0 api client cluster ticks get_same patch_same owner) (m t.0).0
          ((m t.0).1, t.1)
          (λ a e. (
            [],
            inr ((s, f), refl),
            tt,
            subst (λ l. At laws s0 l ((m t.0).1, t.1)) (sym (append-nil done)) h',
          ))
          (λ x e. (done, h'));
  }
  write_config-Runs config (some config_map) done rest s f owned fresh =
      Runs-bind (lifted (payload_of config config_map)) _
        (valid_step laws s0 api client cluster ticks get_same patch_same owner config config_map
          done (payload_of config config_map) refl)
        (λ payload. record {
          at = λ t h.
              let own = owned config_map payload s f h.0 in
              (write_payload-Runs laws s0 api client cluster ticks get_same patch_same owner config
                  config_map done payload
                  (condition "FilesWritten" "True" "Success"
                      "Files were written to jail FS (aggregated)"
                    ∷ [])
                  (s, f) h.0 own.0 own.1 rest fresh).at
                t h.1;
        })

  abbrev pub AllAdded : List Config → List (Bytes × JailedFile) → S × List ReplacedFile → Type 0
  AllAdded configs done t =
      (more : List (Bytes × JailedFile)) × Sources client configs more × At laws s0 (done ++ more) t

  pub write_all-Runs :
      (configs : List Config) (done : List (Bytes × JailedFile))
      → All (Owned client is_temp owner) configs
      → IsUnique (names configs)
      → NotOf owner (names configs) done
      → Runs
          (At laws s0 done)
          (write_all fs api client cluster ticks configs)
          (λ written. AllAdded configs done)
          (Open laws s0 api client cluster ticks get_same patch_same owner)
  unfolding write_all
  write_all-Runs [] done owned u fresh =
      Runs-pure [] (λ t h. ([], refl, subst (λ l. At laws s0 l t) (sym (append-nil done)) h))
  write_all-Runs (config ∷ configs) done (own, owned) (new, u) fresh =
      Runs-bind (lift (find_config_map client config)) _
        (lift_step laws s0 api client cluster ticks get_same patch_same owner done
          (find_config_map client config)
          (find-SameFiles laws s0 api client cluster ticks get_same patch_same owner config))
        (λ asked. record {
          at = λ t h.
              (Runs-bind (write_config fs api client cluster ticks config asked) _
                  (write_config-Runs config asked done (names configs) h.1.0 h.1.1 own fresh)
                  (λ c. record {
                    at = λ t' added.
                        let (payload, source, mine, h') = added in
                        let next = write_all-Runs configs (done ++ payload) owned u (
                          NotOf-append owner config.name (names configs) done payload new
                            (NotOf-tail owner config.name (names configs) done fresh) mine) in
                        (Runs-bind (write_all fs api client cluster ticks configs)
                            (λ rest. pure (c ∷ rest)) next
                            (λ rest. Runs-pure (c ∷ rest) (λ t'' all. (
                              payload ++ all.0,
                              (payload, all.0, refl, source, all.1),
                              subst (λ l. At laws s0 l t'') (append_assoc done payload all.0) all.2,
                            )))).at
                          t' h';
                  })).at
                t h.0;
        })
