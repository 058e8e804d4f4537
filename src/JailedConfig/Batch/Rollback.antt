-- ===== src/JailedConfig/Batch/Rollback.antt =====
-- The state of the files while a batch is pending, and its undoing.
use mathlib.Core.Path.{subst, ap}
use soperator.Prelude.{
  apart, ◌≡◌, refl, sym, ◌∙◌, Bool, true, false, ◌||◌, Option, none, some, List, [], ◌∷◌, ◌++◌,
  Bytes, comparable_bytes, bytes_beq_iff, ◌==◌, contains, contains-append, All, IsUnique,
  IsUnique-append_one, Bool-cases, inl, inr, arith,
}
use soperator.JailedConfig.Batch.{JailedFile, ReplacedFile}

abbrev pub targets : List ReplacedFile → List Bytes
targets [] = []
targets (f ∷ p) = f.target_name ∷ targets p

abbrev pub temps : List ReplacedFile → List Bytes
temps [] = []
temps (f ∷ p) = f.temp_name ∷ temps p

pub targets-append :
    (p : List ReplacedFile) (f : ReplacedFile)
    → targets (p ++ f ∷ []) ≡ targets p ++ f.target_name ∷ []
targets-append [] f = refl
targets-append (g ∷ p) f = ap (λ l. g.target_name ∷ l) (targets-append p f)

temps-append :
    (p : List ReplacedFile) (f : ReplacedFile) → temps (p ++ f ∷ []) ≡ temps p ++ f.temp_name ∷ []
temps-append [] f = refl
temps-append (g ∷ p) f = ap (λ l. g.temp_name ∷ l) (temps-append p f)

All-append_one :
    (P : ReplacedFile → Type 0) (p : List ReplacedFile) (f : ReplacedFile)
    → All P p
    → P f
    → All P (p ++ f ∷ [])
All-append_one P [] f h g = (g, tt)
All-append_one P (x ∷ p) f h g = (h.0, All-append_one P p f h.1 g)

module _ {S : Type 0} (files : S → Bytes → Option JailedFile) (is_temp : Bytes → Bool) where
  -- Every other file that there was is as it was.
  abbrev pub OthersKept : S → List Bytes → S → Type 0
  OthersKept s0 names s =
      (j : Bytes) (x : JailedFile)
      → is_temp j ≡ false
      → contains names j ≡ false
      → files s0 j ≡ some x
      → files s j ≡ some x

  -- The old file is there under the temporary name, and the new one under the target name.
  abbrev pub IsSwitched : S → S → ReplacedFile → Type 0
  IsSwitched s0 s f =
      (is_temp f.temp_name ≡ true)
      × (is_temp f.target_name ≡ false)
      × ((x : JailedFile) → files s0 f.target_name ≡ some x → files s f.temp_name ≡ some x)
      × ((x : JailedFile) × (files s f.temp_name ≡ some x))
      × ((y : JailedFile) × (files s f.target_name ≡ some y))

  -- The pending files of a batch that began in `s0`.
  abbrev pub Pending : S → List ReplacedFile → S → Type 0
  Pending s0 p s =
      OthersKept s0 (targets p) s
      × All (IsSwitched s0 s) p
      × IsUnique (targets p)
      × IsUnique (temps p)

  -- Only the two names have changed.
  abbrev pub Frame : Bytes → Bytes → S → S → Type 0
  Frame a b s s' = (j : Bytes) → (a == j) ≡ false → (b == j) ≡ false → files s' j ≡ files s j

  pub differs : (a b : Bytes) → is_temp a ≡ true → is_temp b ≡ false → (a == b) ≡ false
  differs a b h k = elim (Bool-cases (a == b)) [
    | inl same ↦ let e : a ≡ b = (bytes_beq_iff a b).0 same in absurd (ground (arith, e))
    | inr other ↦ other
  ]

  -- A name without a file is none of the temporary names.
  pub fresh :
      (s0 s : S) (p : List ReplacedFile) (a : Bytes)
      → All (IsSwitched s0 s) p
      → files s a ≡ none
      → contains (temps p) a ≡ false
  unfolding contains
  fresh s0 s [] a h e = refl
  fresh s0 s (f ∷ p) a h e = elim (Bool-cases (f.temp_name == a)) [
    | inl same ↦
        let q : f.temp_name ≡ a = (bytes_beq_iff f.temp_name a).0 same in
        absurd (ground (arith, q, h.0.3.1))
    | inr other ↦ ground (arith, other, fresh s0 s p a h.1 e)
  ]

  pub IsSwitched-Frame :
      (s0 s s' : S) (p : List ReplacedFile) (a b : Bytes)
      → Frame a b s s'
      → is_temp a ≡ true
      → is_temp b ≡ false
      → contains (temps p) a ≡ false
      → contains (targets p) b ≡ false
      → All (IsSwitched s0 s) p
      → All (IsSwitched s0 s') p
  unfolding contains
  IsSwitched-Frame s0 s s' [] a b frame ha hb na nb h = tt
  IsSwitched-Frame s0 s s' (f ∷ p) a b frame ha hb na nb (g, rest) =
      let at_temp : files s' f.temp_name ≡ files s f.temp_name =
        frame f.temp_name (apart f.temp_name a (ground (arith, na)))
          (apart f.temp_name b (differs f.temp_name b g.0 hb)) in
      let at_target : files s' f.target_name ≡ files s f.target_name =
        frame f.target_name (differs a f.target_name ha g.1)
          (apart f.target_name b (ground (arith, nb))) in
      (
        (g.0, g.1, λ x e. at_temp ∙ g.2 x e, (g.3.0, at_temp ∙ g.3.1), (g.4.0, at_target ∙ g.4.1)),
        IsSwitched-Frame s0 s s' p a b frame ha hb (ground (arith, na)) (ground (arith, nb)) rest,
      )

  pub OthersKept-Frame :
      (s0 s s' : S) (names : List Bytes) (a b : Bytes)
      → Frame a b s s'
      → is_temp a ≡ true
      → OthersKept s0 names s
      → OthersKept s0 (names ++ b ∷ []) s'
  unfolding contains
  OthersKept-Frame s0 s s' names a b frame ha h j x plain out e =
      let outside : (contains names j || contains (b ∷ []) j) ≡ false =
        sym (contains-append names (b ∷ []) j) ∙ out in
      frame j (differs a j ha plain) (ground (arith, outside))
      ∙ h j x plain (ground (arith, outside)) e

  -- A file whose names were free of the batch has been switched.
  pub Pending-append :
      (s0 s s' : S) (p : List ReplacedFile) (f : ReplacedFile)
      → Frame f.temp_name f.target_name s s'
      → IsSwitched s0 s' f
      → contains (temps p) f.temp_name ≡ false
      → contains (targets p) f.target_name ≡ false
      → Pending s0 p s
      → Pending s0 (p ++ f ∷ []) s'
  Pending-append s0 s s' p f frame h na nb (others, switched, ut, um) = (
    rw (targets-append p f)
        (OthersKept-Frame s0 s s' (targets p) f.temp_name f.target_name frame h.0 others),
    All-append_one (IsSwitched s0 s') p f
        (IsSwitched-Frame s0 s s' p f.temp_name f.target_name frame h.0 h.1 na nb switched) h,
    rw (targets-append p f) (IsUnique-append_one f.target_name (targets p) ut nb),
    rw (temps-append p f) (IsUnique-append_one f.temp_name (temps p) um na),
  )

  pub others-kept :
      (s0 s s' : S) (names : List Bytes) (a b : Bytes)
      → Frame a b s s'
      → is_temp a ≡ true
      → contains names b ≡ false
      → ((x : JailedFile) → files s b ≡ some x → files s' b ≡ some x)
      → OthersKept s0 names s
      → OthersKept s0 names s'
  others-kept s0 s s' names a b frame ha nb kept others j x plain out e =
      elim (Bool-cases (b == j)) [
        | inl same ↦
            let q : b ≡ j = (bytes_beq_iff b j).0 same in
            subst (λ k. files s' k ≡ some x) q
              (kept x (subst (λ k. files s k ≡ some x) (sym q) (others j x plain out e)))
        | inr other ↦ frame j (differs a j ha plain) other ∙ others j x plain out e
      ]

  -- A change of two free names that keeps the old file of the second, if there was one.
  pub Pending-Frame :
      (s0 s s' : S) (p : List ReplacedFile) (a b : Bytes)
      → Frame a b s s'
      → is_temp a ≡ true
      → is_temp b ≡ false
      → contains (temps p) a ≡ false
      → contains (targets p) b ≡ false
      → ((x : JailedFile) → files s b ≡ some x → files s' b ≡ some x)
      → Pending s0 p s
      → Pending s0 p s'
  Pending-Frame s0 s s' p a b frame ha hb na nb kept (others, switched, ut, um) = (
    others-kept s0 s s' (targets p) a b frame ha nb kept others,
    IsSwitched-Frame s0 s s' p a b frame ha hb na nb switched,
    ut,
    um,
  )

  -- Every file that is there stays.
  abbrev pub Grows : S → S → Type 0
  Grows s s' = (j : Bytes) (x : JailedFile) → files s j ≡ some x → files s' j ≡ some x

  pub IsSwitched-Grows :
      (s0 s s' : S) (p : List ReplacedFile)
      → Grows s s'
      → All (IsSwitched s0 s) p
      → All (IsSwitched s0 s') p
  IsSwitched-Grows s0 s s' [] grows h = tt
  IsSwitched-Grows s0 s s' (f ∷ p) grows (g, rest) = (
    (
      g.0,
      g.1,
      λ x e. grows f.temp_name x (g.2 x e),
      (g.3.0, grows f.temp_name g.3.0 g.3.1),
      (g.4.0, grows f.target_name g.4.0 g.4.1),
    ),
    IsSwitched-Grows s0 s s' p grows rest,
  )
