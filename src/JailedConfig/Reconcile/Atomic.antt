-- ===== src/JailedConfig/Reconcile/Atomic.antt =====
-- The files after the writing of a payload and the deferred cleanup.
use soperator.Prelude.{ℕ, ◌≡◌, refl, ◌∙◌, ◌⊎◌, inl, inr, Bool, Option, List, [], ◌∷◌, Bytes, String}
use soperator.Exec.{Result, ok, err, Exec, wrapped}
use soperator.Exec.Runs.{Outcome, Runs, Runs-bind, Runs-wrapped}
use soperator.Exec.Keeps.{Keeps, Outcome-same, Outcome-intro}
use soperator.JailedConfig.Batch.{Fs, JailedFile, ReplacedFile, cleanup, restore_all, finish}
use soperator.JailedConfig.Batch.Laws.{IsFs}
use soperator.JailedConfig.Batch.Undo.{cleanup_restores, Restored}
use soperator.JailedConfig.Batch.Progress.{Progress-Grows}
use soperator.JailedConfig.Batched.{lift, batch_finish, replace_files, with_cleanup}
use soperator.JailedConfig.Batched.Written.{
  At, IsPlain, IsWritten, replace_files-IsWritten, Fits-of_IsPlain, At-start,
}
use soperator.JailedConfig.Batched.Finished.{IsAll, IsAll-PlainSame, finish-PlainSame}
use soperator.JailedConfig.Reconfigure.{SlurmApi}
use soperator.JailedConfig.Status.{Condition, Config, KubeClient, condition, set_conditions}
use soperator.JailedConfig.Reconcile.{update_actions, write_individual}
use soperator.JailedConfig.Reconcile.Keeps.{conditions_set-Keeps, update_actions-Keeps}

-- The action changes no file.
abbrev pub SameFiles : {S A : Type 0} → (S → Bytes → Option JailedFile) → Exec S A → Type 0
SameFiles {S} files m = (s : S) (j : Bytes) → files (m s).1 j ≡ files s j

module _ {S : Type 0} (files : S → Bytes → Option JailedFile) where
  abbrev pub AsIn : S → S → Type 0
  AsIn s1 s = (j : Bytes) → files s j ≡ files s1 j

  pub AsIn-Keeps : {A : Type 0} (m : Exec S A) (s1 : S) → SameFiles files m → Keeps (AsIn s1) m
  AsIn-Keeps m s1 h = record {
    at = λ s p. Outcome-intro (AsIn s1) (m s).0 (m s).1 (λ j. h s j ∙ p j);
  }

  pub SameFiles-Keeps :
      {A : Type 0} (m : Exec S A) → ((s1 : S) → Keeps (AsIn s1) m) → SameFiles files m
  SameFiles-Keeps m h s j = Outcome-same (AsIn s) (m s).0 (m s).1 ((h s).at s (λ k. refl)) j

module _ {S : Type 0} {fs : Fs S} {files : S → Bytes → Option JailedFile} {is_temp : Bytes → Bool}
    (laws : IsFs fs files is_temp) (s0 : S) (payload : List (Bytes × JailedFile))
    (distinct : IsPlain laws s0 payload) where
  abbrev IsFinished : S × List ReplacedFile → Type 0
  IsFinished t = IsAll files is_temp s0 payload t.0 × (t.1 ≡ [])

  -- Where an error can leave the batch.
  abbrev IsStopped : S × List ReplacedFile → Type 0
  IsStopped t = ((done : List (Bytes × JailedFile)) × At laws s0 done t) ⊎ IsFinished t

  IsWritten-Outcome :
      (r : Result (Unit {0})) (t : S × List ReplacedFile)
      → IsWritten laws s0 payload r t
      → Outcome (λ u. At laws s0 payload) IsStopped r t
  IsWritten-Outcome (ok u) t h = h
  IsWritten-Outcome (err e) t h = inl h

  replace_files-Runs :
      Runs (At laws s0 []) (replace_files fs payload) (λ u. At laws s0 payload) IsStopped
  replace_files-Runs = record {
    at = λ t h.
        IsWritten-Outcome (replace_files fs payload t).0 (replace_files fs payload t).1 (
          replace_files-IsWritten laws s0 [] payload t (Fits-of_IsPlain laws s0 payload distinct)
            h);
  }

  stop_after :
      {A : Type 0} (P : S × List ReplacedFile → Type 0) (r : Result A) (t : S × List ReplacedFile)
      → P t
      → (P t → IsStopped t)
      → Outcome (λ a. P) IsStopped r t
  stop_after P (ok a) t h stop = h
  stop_after P (err e) t h stop = stop h

  written_lift :
      {A : Type 0} (m : Exec S A)
      → SameFiles files m
      → Runs (At laws s0 payload) (lift m) (λ a. At laws s0 payload) IsStopped
  written_lift m same = record {
    at = λ t h.
        stop_after (At laws s0 payload) (m t.0).0 ((m t.0).1, t.1)
          (Progress-Grows files is_temp s0 t.0 (m t.0).1 payload t.1 (λ j x e. same t.0 j ∙ e) h)
          (λ h'. inl (payload, h'));
  }

  IsFinished-lift :
      {A : Type 0} (m : Exec S A)
      → SameFiles files m
      → Runs IsFinished (lift m) (λ a. IsFinished) IsStopped
  IsFinished-lift m same = record {
    at = λ t h.
        stop_after IsFinished (m t.0).0 ((m t.0).1, t.1)
          (IsAll-PlainSame files is_temp s0 t.0 (m t.0).1 payload (λ j plain. same t.0 j) h.0, h.1)
          (λ h'. inr h');
  }

  batch_finish-Runs : Runs (At laws s0 payload) (batch_finish fs) (λ u. IsFinished) IsStopped
  unfolding batch_finish
  batch_finish-Runs = record {
    at = λ t h.
        stop_after IsFinished (finish fs t.1 t.0).0 ((finish fs t.1 t.0).1, [])
          (
            IsAll-PlainSame files is_temp s0 t.0 (finish fs t.1 t.0).1 payload
                (finish-PlainSame laws s0 t.0 t.1 h.0.1) (h.1, h.2),
            refl,
          )
          (λ h'. inr h');
  }

  -- The files at the end: all of the payload, or those from the start.
  abbrev pub IsAtomic : {A : Type 0} → Result A → S → Type 0
  IsAtomic =
      Outcome (λ a s. IsAll files is_temp s0 payload s)
        (λ s. Restored laws s0 s ⊎ IsAll files is_temp s0 payload s)

  cleaned :
      {A : Type 0} (r : Result A) (t : S × List ReplacedFile)
      → Outcome (λ a. IsFinished) IsStopped r t
      → IsAtomic r (cleanup fs t.1 t.0).1
  unfolding cleanup restore_all
  cleaned (ok a) t (all, none_left) = rw none_left all
  cleaned (err e) t (inr (all, none_left)) = inr (rw none_left all)
  cleaned (err e) t (inl (done, h)) = inl (cleanup_restores laws s0 t.0 t.1 h.0)

  module _ (api : SlurmApi S) (client : KubeClient S) (cluster : String) (ticks : ℕ)
      (get_same : (n c : String) → SameFiles files (client.get_config_map n c))
      (patch_same : (c c' : Config) → SameFiles files (client.patch_status c c'))
      (nodes_same : SameFiles files api.get_nodes)
      (reconfigure_same : SameFiles files api.get_reconfigure) where
    conditions-SameFiles :
        (text : String) (config : Config) (conds : List Condition)
        → SameFiles files (wrapped text (set_conditions client config conds))
    conditions-SameFiles text config conds =
        SameFiles-Keeps files (wrapped text (set_conditions client config conds)) (λ s1.
          conditions_set-Keeps (AsIn files s1) client
            (λ n c. AsIn-Keeps files (client.get_config_map n c) s1 (get_same n c))
            (λ c c'. AsIn-Keeps files (client.patch_status c c') s1 (patch_same c c')) text config
            conds)

    actions-SameFiles :
        (actions : List String) (config : Config)
        → SameFiles files (update_actions fs api client cluster ticks actions config)
    actions-SameFiles actions config =
        SameFiles-Keeps files (update_actions fs api client cluster ticks actions config) (λ s1.
          update_actions-Keeps (AsIn files s1) client
            (λ n c. AsIn-Keeps files (client.get_config_map n c) s1 (get_same n c))
            (λ c c'. AsIn-Keeps files (client.patch_status c c') s1 (patch_same c c')) fs api
            cluster ticks (AsIn-Keeps files api.get_nodes s1 nodes_same)
            (AsIn-Keeps files api.get_reconfigure s1 reconfigure_same) actions config)

    write_individual-Runs :
        (config : Config)
        → Runs
            (At laws s0 [])
            (write_individual fs api client cluster ticks payload config)
            (λ u. IsFinished)
            IsStopped
    unfolding write_individual
    write_individual-Runs config = Runs-bind (replace_files fs payload) _ replace_files-Runs (λ u.
        Runs-bind _ _
          (written_lift _ (
            conditions-SameFiles "setting conditions" config
              (condition "FilesWritten" "True" "Success" "Files were written to jail FS" ∷ [])))
          (λ config'.
            Runs-bind _ _
              (Runs-wrapped "finishing replacing files in FS" (batch_finish fs) batch_finish-Runs)
              (λ v. IsFinished-lift _ (actions-SameFiles config'.update_actions config'))))

    -- After the writing of a payload with its deferred cleanup: on success every file of the
    -- payload is there with its content and mode, and every other file is as it was; on an error
    -- this holds, or every file that was there at the start is back, or an exchange has failed in
    -- the cleanup and no file is lost.
    pub write_individual-Atomic :
        (config : Config)
        → IsAtomic
            (with_cleanup fs (write_individual fs api client cluster ticks payload config) s0).0
            (with_cleanup fs (write_individual fs api client cluster ticks payload config) s0).1
    unfolding with_cleanup
    write_individual-Atomic config =
        let m = write_individual fs api client cluster ticks payload config in
        cleaned (m (s0, [])).0 (m (s0, [])).1
          ((write_individual-Runs config).at (s0, []) (At-start laws s0))
