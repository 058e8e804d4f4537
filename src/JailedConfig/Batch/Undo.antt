-- ===== src/JailedConfig/Batch/Undo.antt =====
-- The cleanup of a batch.
use mathlib.Core.Path.{subst}
use soperator.Prelude.{
  apart, All, IsUnique, true, ◌⊎◌, equal_refl, ◌≡◌, refl, sym, ◌∙◌, Bool, false, Option, some, List,
  [], ◌∷◌, Bytes, comparable_bytes, bytes_beq_iff, ◌==◌, contains, Bool-cases, inl, inr, arith,
}
use soperator.Exec.{Err, err, Result-cases}
use soperator.JailedConfig.Batch.{Fs, JailedFile, ReplacedFile, restore, restore_all, cleanup}
use soperator.JailedConfig.Batch.Laws.{IsFs}
use soperator.JailedConfig.Batch.Rollback.{
  OthersKept, IsSwitched, Pending, Frame, differs, IsSwitched-Frame, IsSwitched-Grows, targets,
  temps,
}

module _ {S : Type 0} {fs : Fs S} {files : S → Bytes → Option JailedFile} {is_temp : Bytes → Bool}
    (laws : IsFs fs files is_temp) where
  open laws use {exchange_ok, exchange_err, remove_ok, remove_err}

  pub remove-other :
      (a : Bytes) (s : S) (j : Bytes) → (a == j) ≡ false → files (fs.remove a s).1 j ≡ files s j
  remove-other a s j other = elim (Result-cases (fs.remove a s).0) [
    | inl (tt, e) ↦ remove_ok a s e j ∙ rw other refl
    | inr (x, e) ↦ remove_err a s x e j
  ]

  -- An exchange of two files that were there has failed.
  abbrev pub FailedExchange : Type 0
  FailedExchange =
      (t : S) × (a : Bytes) × (b : Bytes) × (x : JailedFile) × (y : JailedFile) × (e : Err) × (files
          t a
        ≡ some x)
      × (files t b ≡ some y)
      × ((fs.rename_exchange a b t).0 ≡ err e)

  -- Every file that was there is there under its name or under a temporary one.
  abbrev pub NoneLost : S → S → Type 0
  NoneLost s0 s =
      (j : Bytes) (x : JailedFile)
      → is_temp j ≡ false
      → files s0 j ≡ some x
      → (files s j ≡ some x) ⊎ ((t : Bytes) × (is_temp t ≡ true) × (files s t ≡ some x))

  -- Every file that was there is back, or an exchange has failed and none is lost.
  abbrev pub Restored : S → S → Type 0
  Restored s0 s = OthersKept files is_temp s0 [] s ⊎ (FailedExchange × NoneLost s0 s)

  -- The target has its old file again, and no name but the two has changed; or the exchange has
  -- failed, and nothing has changed.
  restore_lem :
      (s0 s : S) (f : ReplacedFile)
      → IsSwitched files is_temp s0 s f
      → (Frame files is_temp f.temp_name f.target_name s (restore fs f s).1
          × ((x : JailedFile)
              → files s0 f.target_name ≡ some x
              → files (restore fs f s).1 f.target_name ≡ some x))
        ⊎ (FailedExchange × ((j : Bytes) → files (restore fs f s).1 j ≡ files s j))
  unfolding restore
  restore_lem s0 s f (ht, hp, old, (x, ex), (y, ey)) =
      let a = f.temp_name in
      let b = f.target_name in
      let t = (fs.rename_exchange a b s).1 in
      let ab = differs files is_temp a b ht hp in
      elim (Result-cases (fs.rename_exchange a b s).0) [
        | inr (e, failed) ↦
            inr ((s, a, b, x, y, e, ex, ey, failed), λ j. rw failed (exchange_err a b s e failed j))
        | inl (tt, done) ↦
            let (u, v, eu, ev, law) = exchange_ok a b s done in
            inl (
              λ j ha hb. rw done (remove-other a t j ha ∙ law j ∙ rw (ha, hb) refl),
              λ z e.
                  rw done
                    (remove-other a t b ab ∙ law b ∙ rw (ab, equal_refl b) (sym eu ∙ old z e)),
            )
      ]

  -- Neither name of the file is among those of the others.
  abbrev Apart : List ReplacedFile → ReplacedFile → Type 0
  Apart q f =
      (contains (temps q) f.temp_name ≡ false) × (contains (targets q) f.target_name ≡ false)

  -- While a batch is undone: the files that are still to be restored, and those that could not be.
  abbrev Undoing : S → List ReplacedFile → List ReplacedFile → S → Type 0
  Undoing s0 p q s =
      ((j : Bytes) (x : JailedFile)
        → is_temp j ≡ false
        → contains (targets p) j ≡ false
        → contains (targets q) j ≡ false
        → files s0 j ≡ some x
        → files s j ≡ some x)
      × All (IsSwitched files is_temp s0 s) p
      × All (IsSwitched files is_temp s0 s) q
      × IsUnique (targets p)
      × IsUnique (temps p)
      × All (Apart q) p
      × ((q ≡ []) ⊎ FailedExchange)

  Apart-more :
      (f : ReplacedFile) (p q : List ReplacedFile)
      → contains (targets p) f.target_name ≡ false
      → contains (temps p) f.temp_name ≡ false
      → All (Apart q) p
      → All (Apart (f ∷ q)) p
  unfolding contains
  Apart-more f [] q ut um h = tt
  Apart-more f (g ∷ p) q ut um (h, hs) =
      let temp = apart g.temp_name f.temp_name (ground (arith, um)) in
      let target = apart g.target_name f.target_name (ground (arith, ut)) in
      ((rw temp h.0, rw target h.1), Apart-more f p q (ground (arith, ut)) (ground (arith, um)) hs)

  -- One file less is to be restored.
  restore-Undoing :
      (s0 s : S) (f : ReplacedFile) (p q : List ReplacedFile)
      → Undoing s0 (f ∷ p) q s
      → (left : List ReplacedFile) × Undoing s0 p left (restore fs f s).1
  unfolding contains
  restore-Undoing s0 s f p q (others, (h, switched), stuck, ut, um, (far, fars), why) =
      let s' = (restore fs f s).1 in
      elim (restore_lem s0 s f h) [
        | inl (frame, back) ↦ (
          q,
          (
            λ j x plain out out' e. elim (Bool-cases (f.target_name == j)) [
              | inl same ↦
                  let k : f.target_name ≡ j = (bytes_beq_iff f.target_name j).0 same in
                  subst (λ i. files s' i ≡ some x) k
                    (back x (subst (λ i. files s0 i ≡ some x) (sym k) e))
              | inr other ↦
                  frame j (differs files is_temp f.temp_name j h.0 plain) other
                  ∙ others j x plain (ground (arith, other, out)) out' e
            ],
            IsSwitched-Frame files is_temp s0 s s' p f.temp_name f.target_name frame h.0 h.1 um.0
                ut.0 switched,
            IsSwitched-Frame files is_temp s0 s s' q f.temp_name f.target_name frame h.0 h.1 far.0
                far.1 stuck,
            ut.1,
            um.1,
            fars,
            why,
          ),
        )
        | inr (failed, same) ↦ (
          f ∷ q,
          (
            λ j x plain out out' e.
                same j ∙ others j x plain (ground (arith, out, out')) (ground (arith, out, out')) e,
            IsSwitched-Grows files is_temp s0 s s' p (λ j x e. same j ∙ e) switched,
            (IsSwitched-Grows files is_temp s0 s s' (f ∷ q) (λ j x e. same j ∙ e) (h, stuck)),
            ut.1,
            um.1,
            Apart-more f p q ut.0 um.0 fars,
            inr failed,
          ),
        )
      ]

  restore_all-Undoing :
      (s0 s : S) (p q : List ReplacedFile)
      → Undoing s0 p q s
      → (left : List ReplacedFile) × Undoing s0 [] left (restore_all fs p s).1
  unfolding restore_all
  restore_all-Undoing s0 s [] q h = (q, h)
  restore_all-Undoing s0 s (f ∷ p) q h =
      let s' = (restore fs f s).1 in
      let (more, h') = restore-Undoing s0 s f p q h in
      let rest = restore_all-Undoing s0 s' p more h' in
      elim (Result-cases (restore_all fs p s').0) [
        | inl (errs, e) ↦ rw e rest
        | inr (x, e) ↦ rw e rest
      ]

  -- The old file of a target that could not be restored has its temporary name.
  under_temp :
      (s0 s : S) (q : List ReplacedFile) (j : Bytes) (x : JailedFile)
      → All (IsSwitched files is_temp s0 s) q
      → contains (targets q) j ≡ true
      → files s0 j ≡ some x
      → (t : Bytes) × (is_temp t ≡ true) × (files s t ≡ some x)
  unfolding contains
  under_temp s0 s [] j x h found e = absurd (ground (arith, found))
  under_temp s0 s (f ∷ q) j x (h, hs) found e = elim (Bool-cases (f.target_name == j)) [
    | inl same ↦
        let k : f.target_name ≡ j = (bytes_beq_iff f.target_name j).0 same in
        (f.temp_name, h.0, h.2 x (subst (λ i. files s0 i ≡ some x) (sym k) e))
    | inr other ↦ under_temp s0 s q j x hs (ground (arith, other, found)) e
  ]

  Restored-of_Undoing : (s0 s : S) (left : List ReplacedFile) → Undoing s0 [] left s → Restored s0 s
  unfolding contains
  Restored-of_Undoing s0 s [] (others, _, _, _, _, _, _) =
      inl (λ j x plain out e. others j x plain refl refl e)
  Restored-of_Undoing s0 s (f ∷ q) (others, _, stuck, _, _, _, inl none_left) =
      absurd (ground (arith, none_left))
  Restored-of_Undoing s0 s (f ∷ q) (others, _, stuck, _, _, _, inr failed) = inr (
    failed,
    λ j x plain e. elim (Bool-cases (contains (targets (f ∷ q)) j)) [
      | inl found ↦ inr (under_temp s0 s (f ∷ q) j x stuck found e)
      | inr other ↦ inl (others j x plain refl other e)
    ],
  )

  none_stuck : (p : List ReplacedFile) → All (Apart []) p
  unfolding contains
  none_stuck [] = tt
  none_stuck (f ∷ p) = ((refl, refl), none_stuck p)

  -- On a file system with the laws of JailedConfig/Batch/Laws, after a cleanup of files that were
  -- each switched once, whatever it returns: every file is there that was there when the batch
  -- began, with its old content, the temporary names apart; or an exchange of two files that were
  -- there has failed, and then every such file is there under its name or under a temporary one.
  pub cleanup_restores :
      (s0 s : S) (p : List ReplacedFile)
      → Pending files is_temp s0 p s
      → Restored s0 (cleanup fs p s).1
  unfolding cleanup contains
  cleanup_restores s0 s p (others, switched, ut, um) =
      let (left, undone) = restore_all-Undoing s0 s p [] (
        λ j x plain out out' e. others j x plain out e,
        switched,
        tt,
        ut,
        um,
        none_stuck p,
        inl refl,
      ) in
      let rest = Restored-of_Undoing s0 (restore_all fs p s).1 left undone in
      elim (Result-cases (restore_all fs p s).0) [
        | inl ([], e) ↦ rw e rest
        | inl (x ∷ errs, e) ↦ rw e rest
        | inr (x, e) ↦ rw e rest
      ]
