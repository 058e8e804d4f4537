-- ===== src/Exec/Keeps.antt =====
-- Actions that leave a property of the state as it is.
use soperator.Prelude.{◌⊎◌, inl, inr}
use soperator.Exec.{
  Err, Result, ok, err, Exec, pure, raise, attempt, lifted, unless_panicked, is_panicked, ◌>>=◌,
}
use soperator.Exec.Runs.{
  Outcome, Outcome-weaken, Runs-weaken, Runs, Runs-pure, Runs-raise, Runs-bind, Runs-if,
}

pub Outcome-same :
    {S A : Type 0} (U : S → Type 0) (r : Result A) (s : S) → Outcome (λ a. U) U r s → U s
Outcome-same U (ok a) s h = h
Outcome-same U (err e) s h = h

pub Outcome-always :
    {S A : Type 0} (X : Type 0) (r : Result A) (s : S)
    → X
    → Outcome {S = S} {A = A} (λ a t. X) (λ t. X) r s
Outcome-always X (ok a) s h = h
Outcome-always X (err e) s h = h

-- The action leaves a property of the state as it is, however it ends.
abbrev pub Keeps : {S A : Type 0} → (S → Type 0) → Exec S A → Type 0
Keeps U m = Runs U m (λ a. U) U

module _ {S : Type 0} (U : S → Type 0) where
  pub Keeps-attempt : {A : Type 0} (m : Exec S A) → Keeps U m → Keeps U (attempt m)
  Keeps-attempt m h = record { at = λ s p. Outcome-same U (m s).0 (m s).1 (h.at s p) }

  pub Keeps-unless_panicked : {A : Type 0} (r : Result A) → Keeps U (unless_panicked r)
  Keeps-unless_panicked (ok a) = Runs-pure (ok a) (λ s u. u)
  Keeps-unless_panicked (err e) =
      Runs-if (is_panicked e) (raise e) (pure (err e)) (λ h. Runs-raise e (λ s u. u))
        (λ h. Runs-pure (err e) (λ s u. u))

  pub Keeps-pure : {A : Type 0} (a : A) → Keeps U (pure a)
  Keeps-pure a = Runs-pure a (λ s u. u)

  pub Keeps-raise : {A : Type 0} (e : Err) → Keeps U (raise {A = A} e)
  Keeps-raise e = Runs-raise e (λ s u. u)

  pub Keeps-bind :
      {A B : Type 0} (m : Exec S A) (f : A → Exec S B)
      → Keeps U m
      → ((a : A) → Keeps U (f a))
      → Keeps U (m >>= f)
  Keeps-bind m f hm hf = Runs-bind m f hm hf

  pub lifted-Keeps : {A : Type 0} (r : Result A) → Keeps U (lifted r)
  lifted-Keeps (ok a) = Keeps-pure a
  lifted-Keeps (err e) = Keeps-raise e

  pub Outcome-intro : {A : Type 0} (r : Result A) (s : S) → U s → Outcome (λ a. U) U r s
  Outcome-intro (ok a) s h = h
  Outcome-intro (err e) s h = h

-- A property that also holds for a reason that does not depend on the state.
module _ {S : Type 0} (U : S → Type 0) (X : Type 0) where
  abbrev pub OrReason : S → Type 0
  OrReason s = U s ⊎ X

  pub Keeps-OrReason :
      {A : Type 0} {D : Type 0} (m : Exec S A)
      → Runs U m (λ a s. U s ⊎ D) (λ s. U s ⊎ D)
      → (D → X)
      → Keeps OrReason m
  Keeps-OrReason {D} m h f = record {
    at = λ s v. elim v [
      | inl u ↦
          Outcome-weaken (λ a t. U t ⊎ D) (λ a. OrReason) (λ t. U t ⊎ D) OrReason
            (λ a t w. elim w [ inl x ↦ inl x | inr d ↦ inr (f d) ])
            (λ t w. elim w [ inl x ↦ inl x | inr d ↦ inr (f d) ]) (m s).0 (m s).1 (h.at s u)
      | inr x ↦
          Outcome-weaken (λ a t. X) (λ a. OrReason) (λ t. X) OrReason (λ a t y. inr y)
            (λ t y. inr y) (m s).0 (m s).1 (Outcome-always X (m s).0 (m s).1 x)
    ];
  }

  pub OrReason-of_Keeps : {A : Type 0} (m : Exec S A) → Keeps U m → Keeps OrReason m
  OrReason-of_Keeps m h =
      Keeps-OrReason {D = ⊥} m (Runs-weaken m h (λ s u. u) (λ a s u. inl u) (λ s u. inl u))
        (λ d. absurd d)
