-- ===== src/JailedConfig/Batch/Progress.antt =====
-- The files that a batch has written so far.
use mathlib.Core.Path.{ap}
use soperator.Prelude.{
  ◌≡◌, refl, ◌∙◌, Bool, true, false, Option, none, some, List, [], ◌∷◌, ◌++◌, map, Bytes,
  comparable_bytes, contains, contains-append, All, apart, arith,
}
use soperator.JailedConfig.Batch.{JailedFile, ReplacedFile}
use soperator.JailedConfig.Batch.Rollback.{
  targets, temps, targets-append, OthersKept, IsSwitched, Pending, Frame, Grows, differs,
  OthersKept-Frame, others-kept, IsSwitched-Grows, Pending-append, Pending-Frame,
}

pub names-append :
    (done : List (Bytes × JailedFile)) (b : Bytes) (file : JailedFile)
    → map (λ w. w.0) (done ++ (b, file) ∷ []) ≡ map (λ w. w.0) done ++ b ∷ []
names-append [] b file = refl
names-append (w ∷ done) b file = ap (λ l. w.0 ∷ l) (names-append done b file)

All-append_one :
    (P : Bytes × JailedFile → Type 0) (p : List (Bytes × JailedFile)) (f : Bytes × JailedFile)
    → All P p
    → P f
    → All P (p ++ f ∷ [])
All-append_one P [] f h g = (g, tt)
All-append_one P (x ∷ p) f h g = (h.0, All-append_one P p f h.1 g)

module _ {S : Type 0} (files : S → Bytes → Option JailedFile) (is_temp : Bytes → Bool) where
  -- A step of a batch: the files that it has written so far, and those that are pending.
  abbrev pub Progress : S → List (Bytes × JailedFile) → List ReplacedFile → S → Type 0
  Progress s0 done p s =
      Pending files is_temp s0 p s
      × OthersKept files is_temp s0 (map (λ w. w.0) done) s
      × All (λ w. (is_temp w.0 ≡ false) × (files s w.0 ≡ some w.1)) done
      × ((j : Bytes) → contains (map (λ w. w.0) done) j ≡ false → contains (targets p) j ≡ false)

  written-Grows :
      (s s' : S) (done : List (Bytes × JailedFile))
      → Grows files is_temp s s'
      → All (λ w. (is_temp w.0 ≡ false) × (files s w.0 ≡ some w.1)) done
      → All (λ w. (is_temp w.0 ≡ false) × (files s' w.0 ≡ some w.1)) done
  written-Grows s s' [] grows h = tt
  written-Grows s s' (w ∷ done) grows (h, rest) =
      ((h.0, grows w.0 w.1 h.1), written-Grows s s' done grows rest)

  written-Frame :
      (s s' : S) (done : List (Bytes × JailedFile)) (a b : Bytes)
      → Frame files is_temp a b s s'
      → is_temp a ≡ true
      → contains (map (λ w. w.0) done) b ≡ false
      → All (λ w. (is_temp w.0 ≡ false) × (files s w.0 ≡ some w.1)) done
      → All (λ w. (is_temp w.0 ≡ false) × (files s' w.0 ≡ some w.1)) done
  unfolding contains
  written-Frame s s' [] a b frame ha nb h = tt
  written-Frame s s' (w ∷ done) a b frame ha nb (h, rest) = (
    (h.0, frame w.0 (differs files is_temp a w.0 ha h.0) (apart w.0 b (ground (arith, nb))) ∙ h.1),
    written-Frame s s' done a b frame ha (ground (arith, nb)) rest,
  )

  pub Progress-Grows :
      (s0 s s' : S) (done : List (Bytes × JailedFile)) (p : List ReplacedFile)
      → Grows files is_temp s s'
      → Progress s0 done p s
      → Progress s0 done p s'
  Progress-Grows s0 s s' done p grows ((others, switched, ut, um), kept, written, known) = (
    (
      λ j x plain out e. grows j x (others j x plain out e),
      IsSwitched-Grows files is_temp s0 s s' p grows switched,
      ut,
      um,
    ),
    λ j x plain out e. grows j x (kept j x plain out e),
    written-Grows s s' done grows written,
    known,
  )

  -- One more file is written and pending.
  pub Progress-append :
      (s0 s s' : S) (done : List (Bytes × JailedFile)) (p : List ReplacedFile) (f : ReplacedFile)
      (file : JailedFile)
      → Frame files is_temp f.temp_name f.target_name s s'
      → IsSwitched files is_temp s0 s' f
      → files s' f.target_name ≡ some file
      → contains (temps p) f.temp_name ≡ false
      → contains (map (λ w. w.0) done) f.target_name ≡ false
      → Progress s0 done p s
      → Progress s0 (done ++ (f.target_name, file) ∷ []) (p ++ f ∷ []) s'
  Progress-append s0 s s' done p f file frame h new na nb (pending, kept, written, known) = (
    Pending-append files is_temp s0 s s' p f frame h na (known f.target_name nb) pending,
    rw (names-append done f.target_name file) (
        OthersKept-Frame files is_temp s0 s s' (map (λ w. w.0) done) f.temp_name f.target_name frame
          h.0 kept),
    All-append_one _ done (f.target_name, file)
        (written-Frame s s' done f.temp_name f.target_name frame h.0 nb written) (h.1, new),
    λ j out.
        rw (targets-append p f, contains-append)
          (ground
            (arith, rw (names-append done f.target_name file, contains-append) at out, known j)),
  )

  -- One more file is written, where there was none.
  pub Progress-create :
      (s0 s s' : S) (done : List (Bytes × JailedFile)) (p : List ReplacedFile) (a b : Bytes)
      (file : JailedFile)
      → Frame files is_temp a b s s'
      → is_temp a ≡ true
      → is_temp b ≡ false
      → files s b ≡ none
      → files s' b ≡ some file
      → contains (temps p) a ≡ false
      → contains (map (λ w. w.0) done) b ≡ false
      → Progress s0 done p s
      → Progress s0 (done ++ (b, file) ∷ []) p s'
  Progress-create s0 s s' done p a b file frame ha hb absent new na nb
        (pending, kept, written, known) =
      (
        Pending-Frame files is_temp s0 s s' p a b frame ha hb na (known b nb)
            (λ x e. absurd (ground (arith, e, absent))) pending,
        rw (names-append done b file)
            (OthersKept-Frame files is_temp s0 s s' (map (λ w. w.0) done) a b frame ha kept),
        All-append_one _ done (b, file) (written-Frame s s' done a b frame ha nb written) (hb, new),
        λ j out. ground (arith, rw (names-append done b file, contains-append) at out, known j),
      )

  -- A temporary name that the batch does not hold has changed.
  pub Progress-temp :
      (s0 s s' : S) (done : List (Bytes × JailedFile)) (p : List ReplacedFile) (a b : Bytes)
      → Frame files is_temp a a s s'
      → is_temp a ≡ true
      → is_temp b ≡ false
      → contains (temps p) a ≡ false
      → contains (map (λ w. w.0) done) b ≡ false
      → Progress s0 done p s
      → Progress s0 done p s'
  Progress-temp s0 s s' done p a b frame ha hb na nb (pending, kept, written, known) =
      let wide : Frame files is_temp a b s s' = λ j h k. frame j h h in
      let same = frame b (differs files is_temp a b ha hb) (differs files is_temp a b ha hb) in
      (
        Pending-Frame files is_temp s0 s s' p a b wide ha hb na (known b nb) (λ x e. same ∙ e)
            pending,
        others-kept files is_temp s0 s s' (map (λ w. w.0) done) a b wide ha nb (λ x e. same ∙ e)
            kept,
        written-Frame s s' done a b wide ha nb written,
        known,
      )
