-- ===== src/JailedConfig/Batched.antt =====
-- The part of a reconcile with a batch of files, and its deferred cleanup
-- (internal/controller/sconfigcontroller/jailedconfig_controller.go). The cleanup sees the pending
-- files of the batch, so that this part is an action on the state together with these files.
pub mod Written
pub mod Finished
use soperator.Prelude.{List, [], ◌∷◌, Bytes}
use soperator.Exec.{Result, ok, err, Exec, pure, wrapped, ◌>>=◌, ◌>>◌}
use soperator.JailedConfig.Batch.{Fs, JailedFile, ReplacedFile, replace, cleanup, finish}

abbrev pub Batched : Type 0 → Type 0 → Type 0
Batched S A = Exec (S × List ReplacedFile) A

-- The batch keeps its pending files if a replacement fails.
abbrev pub kept_pending : Result (List ReplacedFile) → List ReplacedFile → List ReplacedFile
kept_pending (ok more) pending = more
kept_pending (err e) pending = pending

abbrev pub forget : Result (List ReplacedFile) → Result (Unit {0})
forget (ok more) = ok tt
forget (err e) = err e

-- An action that does not touch the batch.
abbrev pub lift : {S A : Type 0} → Exec S A → Batched S A
lift m (s, pending) = let (r, s') = m s in (r, (s', pending))

module _ {S : Type 0} (fs : Fs S) where
  unfoldable pub batch_replace : Bytes → JailedFile → Batched S (Unit {0})
  unfolding replace
  batch_replace path file (s, pending) =
      let (r, s') = replace fs pending path file s in (forget r, (s', kept_pending r pending))

  unfoldable pub batch_finish : Batched S (Unit {0})
  unfolding finish
  batch_finish (s, pending) = let (r, s') = finish fs pending s in (r, (s', []))

  -- The loop over the payload.
  unfoldable pub replace_files : List (Bytes × JailedFile) → Batched S (Unit {0})
  unfolding batch_replace
  replace_files [] = pure tt
  replace_files ((path, file) ∷ payload) = do
    wrapped "replacing file in FS" (batch_replace path file)
    replace_files payload

  -- A new batch with its deferred cleanup, whose error is not returned.
  unfoldable pub with_cleanup : {A : Type 0} → Batched S A → Exec S A
  unfolding cleanup
  with_cleanup m s = let (r, t) = m (s, []) in (r, (cleanup fs t.1 t.0).1)
