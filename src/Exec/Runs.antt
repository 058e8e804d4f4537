-- ===== src/Exec/Runs.antt =====
-- Pre- and postconditions of actions: what holds of the state after a value, and after an error.
use soperator.Prelude.{◌∙◌, inl, inr, arith, String, Bool, true, false, ◌≡◌, refl, if◌then◌else◌}
use soperator.Exec.{
  Result-cases, Err, Result, ok, err, Exec, pure, raise, wrap_result, wrapped, lifted, attempt,
  continue_with, ◌>>=◌,
}

-- `Q` of the value and the state after a success, `R` of the state after an error.
abbrev pub Outcome : {S A : Type 0} → (A → S → Type 0) → (S → Type 0) → Result A → S → Type 0
Outcome Q R (ok a) s = Q a s
Outcome Q R (err e) s = R s

pub record Runs {S A : Type 0} (P : S → Type 0) (m : Exec S A) (Q : A → S → Type 0) (R : S → Type 0)
    : Type 0 where
  pub at : (s : S) → P s → Outcome Q R (m s).0 (m s).1

module _ {S A : Type 0} (Q Q' : A → S → Type 0) (R R' : S → Type 0) where
  pub Outcome-weaken :
      ((a : A) (s : S) → Q a s → Q' a s)
      → ((s : S) → R s → R' s)
      → (r : Result A) (s : S) → Outcome Q R r s
      → Outcome Q' R' r s
  Outcome-weaken post fail (ok a) s h = post a s h
  Outcome-weaken post fail (err e) s h = fail s h

Outcome-wrapped :
    {S A : Type 0} (Q : A → S → Type 0) (R : S → Type 0) (msg : String) (r : Result A) (s : S)
    → Outcome Q R r s
    → Outcome Q R (wrap_result msg r) s
Outcome-wrapped Q R msg (ok a) s h = h
Outcome-wrapped Q R msg (err e) s h = h

module _ {S A : Type 0} {P : S → Type 0} {Q : A → S → Type 0} {R : S → Type 0} where
  pub Runs-pure : (a : A) → ((s : S) → P s → Q a s) → Runs P (pure a) Q R
  Runs-pure a h = record { at = h }

  pub Runs-raise : (e : Err) → ((s : S) → P s → R s) → Runs P (raise e) Q R
  Runs-raise e h = record { at = h }

  pub Runs-wrapped : (msg : String) (m : Exec S A) → Runs P m Q R → Runs P (wrapped msg m) Q R
  Runs-wrapped msg m h = record { at = λ s p. Outcome-wrapped Q R msg (m s).0 (m s).1 (h.at s p) }

  pub Runs-if :
      (b : Bool) (m n : Exec S A)
      → (b ≡ true → Runs P m Q R)
      → (b ≡ false → Runs P n Q R)
      → Runs P (if b then m else n) Q R
  Runs-if true m n hm hn = hm refl
  Runs-if false m n hm hn = hn refl

  -- A stronger precondition and weaker postconditions.
  pub Runs-weaken :
      {P' : S → Type 0} {Q' : A → S → Type 0} {R' : S → Type 0} (m : Exec S A)
      → Runs P m Q R
      → ((s : S) → P' s → P s)
      → ((a : A) (s : S) → Q a s → Q' a s)
      → ((s : S) → R s → R' s)
      → Runs P' m Q' R'
  Runs-weaken {Q'} {R'} m h pre post fail = record {
    at = λ s p. Outcome-weaken Q Q' R R' post fail (m s).0 (m s).1 (h.at s (pre s p));
  }

continue-Outcome :
    {S A B : Type 0} (R : S → Type 0) (Q : A → S → Type 0) (T : B → S → Type 0) (r : Result A)
    (s : S) (f : A → Exec S B)
    → Outcome Q R r s
    → ((a : A) → Runs (Q a) (f a) T R)
    → Outcome T R (continue_with r f s).0 (continue_with r f s).1
continue-Outcome R Q T (ok a) s f q h = (h a).at s q
continue-Outcome R Q T (err e) s f q h = q

module _ {S A B : Type 0} {P R : S → Type 0} {Q : A → S → Type 0} {T : B → S → Type 0} where
  pub Runs-bind :
      (m : Exec S A) (f : A → Exec S B)
      → Runs P m Q R
      → ((a : A) → Runs (Q a) (f a) T R)
      → Runs P (m >>= f) T R
  Runs-bind m f hm hf = record {
    at = λ s p. continue-Outcome R Q T (m s).0 (m s).1 f (hm.at s p) hf;
  }

-- An outcome by the two cases of its result.
pub Outcome-by_cases :
    {S A : Type 0} (Q : A → S → Type 0) (R : S → Type 0) (r : Result A) (s : S)
    → ((a : A) → r ≡ ok a → Q a s)
    → ((e : Err) → r ≡ err e → R s)
    → Outcome Q R r s
Outcome-by_cases Q R (ok a) s q f = q a refl
Outcome-by_cases Q R (err e) s q f = f e refl

-- An attempt never fails: its value is the result, error or not.
pub Runs-attempt :
    {S A : Type 0} {P R R' : S → Type 0} {Q : A → S → Type 0} (m : Exec S A)
    → Runs P m Q R
    → Runs P (attempt m) (λ r s. Outcome Q R r s) R'
Runs-attempt m h = record { at = λ s p. h.at s p }

-- A chain of actions succeeds only if each of them does.
pub bind_ok :
    {S A B : Type 0} (m : Exec S A) (f : A → Exec S B) (s : S) (b : B)
    → ((m >>= f) s).0 ≡ ok b
    → (a : A) × ((m s).0 ≡ ok a) × ((f a (m s).1).0 ≡ ok b)
bind_ok m f s b h = elim (Result-cases (m s).0) [
  | inl (a, e) ↦ (a, e, (rw e at h))
  | inr (x, e) ↦ absurd (ground arith)
]

pub wrapped_ok :
    {S A : Type 0} (text : String) (m : Exec S A) (s : S) (a : A)
    → (wrapped text m s).0 ≡ ok a
    → (m s).0 ≡ ok a
wrapped_ok text m s a e = elim (Result-cases (m s).0) [
  | inl (b, h) ↦ h ∙ (rw h at e)
  | inr (x, h) ↦ absurd (ground (arith, rw h at e))
]

pub lifted_ok : {S A : Type 0} (r : Result A) (s : S) (a : A) → (lifted r s).0 ≡ ok a → r ≡ ok a
lifted_ok (ok b) s a e = e
lifted_ok (err x) s a e = absurd (ground (arith, e))
