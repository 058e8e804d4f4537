-- ===== src/Hostlist/Prefix.antt =====
-- The names that a pattern can merge.
use soperator.Prelude.{
  ℕ, ◌≡◌, refl, sym, ap, true, false, Option, none, some, [], ◌∷◌, ◌++◌, Bytes, codes, contains,
  comparable_nat, nat_beq, nat_beq_iff, arith, Bool-cases, inl, inr, if◌then◌else◌,
}
use soperator.Hostlist.{is_digits, cut_last_dash, numbered_prefix, dashed_prefix}

-- The parts around the last dash, if there is one.
abbrev Cut : Bytes → Option (Bytes × Bytes) → Type 0
Cut s none = contains s b'-' ≡ false
Cut s (some (before, after)) = (s ≡ before ++ b'-' ∷ after) × (contains after b'-' ≡ false)

cut_last_dash-Cut : (s : Bytes) → Cut s (cut_last_dash s)
unfolding cut_last_dash contains
cut_last_dash-Cut [] = refl
cut_last_dash-Cut (c ∷ s) = step (cut_last_dash s) (cut_last_dash-Cut s)
  where
    step :
        (o : Option (Bytes × Bytes))
        → Cut s o
        → Cut (c ∷ s) (elim o [
          | none ↦ if nat_beq c b'-' then some ([], s) else none
          | some (before, after) ↦ some (c ∷ before, after)
        ])
    step none h = elim (Bool-cases (nat_beq c b'-')) [
      | inl dash ↦ rw dash (ap (λ k. k ∷ s) ((nat_beq_iff c b'-').0 dash), h)
      | inr other ↦ rw other (ground (arith, h))
    ]
    step (some (before, after)) h = (ap (λ l. c ∷ l) h.0, h.1)

is_digits-no_dash : (s : Bytes) → is_digits s ≡ true → contains s b'-' ≡ false
unfolding is_digits contains
is_digits-no_dash [] h = refl
is_digits-no_dash (c ∷ s) h = ground (arith, is_digits-no_dash s)

cut_last_dash-absent : (s : Bytes) → contains s b'-' ≡ false → cut_last_dash s ≡ none
unfolding cut_last_dash contains
cut_last_dash-absent [] h = refl
cut_last_dash-absent (c ∷ s) h =
    let rest = cut_last_dash-absent s (ground arith) in
    let other : nat_beq c b'-' ≡ false = ground arith in rw (rest, other) refl

cut_last_dash-append :
    (before suffix : Bytes)
    → contains suffix b'-' ≡ false
    → cut_last_dash (before ++ b'-' ∷ suffix) ≡ some (before, suffix)
unfolding cut_last_dash
cut_last_dash-append [] suffix h = rw (cut_last_dash-absent suffix h) refl
cut_last_dash-append (c ∷ before) suffix h = rw (cut_last_dash-append before suffix h) refl

-- A prefix, a dash and digits, at least one, from the text.
abbrev pub IsNumbered : Bytes → Bytes → Type 0
IsNumbered s prefix =
    (before : Bytes) × (c : ℕ) × (suffix : Bytes) × (prefix ≡ before ++ codes "-")
    × (s ≡ before ++ b'-' ∷ c ∷ suffix)
    × (is_digits (c ∷ suffix) ≡ true)

numbered_prefix-IsNumbered :
    (s : Bytes) (o : Option (Bytes × Bytes)) (prefix : Bytes)
    → Cut s o
    → numbered_prefix o ≡ some prefix
    → IsNumbered s prefix
unfolding numbered_prefix
numbered_prefix-IsNumbered s none prefix h e = absurd (ground arith)
numbered_prefix-IsNumbered s (some (before, [])) prefix h e = absurd (ground arith)
numbered_prefix-IsNumbered s (some (before, c ∷ suffix)) prefix h e =
    elim (Bool-cases (is_digits (c ∷ suffix))) [
      | inl digits ↦ (before, c, suffix, ground arith, h.0, digits)
      | inr other ↦ absurd (ground arith)
    ]

-- A name has the prefix up to and with its last dash exactly if digits, at least one, are all that
-- follows that dash.
pub dashed_prefix_exact :
    (s prefix : Bytes)
    → (dashed_prefix s ≡ some prefix → IsNumbered s prefix)
      × (IsNumbered s prefix → dashed_prefix s ≡ some prefix)
unfolding dashed_prefix numbered_prefix
dashed_prefix_exact s prefix = (
  numbered_prefix-IsNumbered s (cut_last_dash s) prefix (cut_last_dash-Cut s),
  λ (before, c, suffix, p, e, digits).
      rw
        (
          e,
          cut_last_dash-append before (c ∷ suffix) (is_digits-no_dash (c ∷ suffix) digits),
          digits,
        )
        (ap some (sym p)),
)
