-- ===== src/Topology/SwitchName/Safe.antt =====
-- A safe name is one that Slurm can split, and distinct switches keep distinct names.
use soperator.Prelude.{
  ap, ℕ, zero, suc, ◌+◌, ◌-◌, ◌*◌, ◌<◌, ◌^◌, ◌≤◌, ◌≡◌, refl, ap, ◌∙◌, true, [], ◌∷◌, ◌++◌, Bytes,
  codes, leb, arith, Bool-cases, inl, inr, if◌then◌else◌,
}
use soperator.Topology.SwitchName.{
  is_decimal, reversed, leading_digits, trailing_digit_count, slurm_safe_switch_name,
}

reversed-append_one : (s : Bytes) (c : ℕ) → reversed (s ++ c ∷ []) ≡ c ∷ reversed s
unfolding reversed
reversed-append_one [] c = refl
reversed-append_one (d ∷ s) c = rw (reversed-append_one s c) refl

reversed-reversed : (s : Bytes) → reversed (reversed s) ≡ s
unfolding reversed
reversed-reversed [] = refl
reversed-reversed (c ∷ s) =
    reversed-append_one (reversed s) c ∙ ap (λ t. c ∷ t) (reversed-reversed s)

-- The number that Slurm reads from the digits at the end of a name, given from the last one on.
abbrev pub run_value : Bytes → ℕ
run_value [] = zero
run_value (c ∷ s) = let rest = run_value s in if is_decimal c then (c - b'0') + 10 * rest else zero

abbrev pub ten_to : ℕ → ℕ
ten_to zero = 1
ten_to (suc n) = 10 * ten_to n

run_value_bound : (s : Bytes) → run_value s < ten_to (leading_digits s)
unfolding leading_digits
run_value_bound [] = omega arith
run_value_bound (c ∷ s) = elim (Bool-cases (is_decimal c)) [
  | inl digit ↦ rw digit (ground (arith, run_value_bound s))
  | inr other ↦ rw other (omega arith)
]

ten_to_positive : (n : ℕ) → 1 ≤ ten_to n
ten_to_positive zero = omega arith
ten_to_positive (suc n) = omega (arith, ten_to_positive n)

ten_to_mono : (m n : ℕ) → m ≤ n → ten_to m ≤ ten_to n
ten_to_mono zero n h = ten_to_positive n
ten_to_mono (suc m) zero h = absurd (omega arith)
ten_to_mono (suc m) (suc n) h = omega (arith, ten_to_mono m n (omega arith))

safe_count : (name : Bytes) → leading_digits (reversed (slurm_safe_switch_name name)) ≤ 18
unfolding slurm_safe_switch_name trailing_digit_count leading_digits
safe_count name = elim (Bool-cases (leb (trailing_digit_count name) 18)) [
  | inl short ↦ rw short (ground arith)
  | inr long ↦ rw (long, reversed-append_one name 95) (omega arith)
]

-- The number at the end of a safe name fits the 64 bits that Slurm keeps it in.
pub slurm_safe_switch_name_fits :
    (name : Bytes) → run_value (reversed (slurm_safe_switch_name name)) < 2 ^ 64
slurm_safe_switch_name_fits name =
    let s = reversed (slurm_safe_switch_name name) in
    omega (arith, run_value_bound s, ten_to_mono (leading_digits s) 18 (safe_count name))

abbrev pub length : Bytes → ℕ
length [] = zero
length (c ∷ s) = suc (length s)

-- Decimal digits only.
abbrev pub AllDigits : Bytes → Type 0
AllDigits [] = Unit {0}
AllDigits (c ∷ s) = (b'0' ≤ c) × (c ≤ b'9') × AllDigits s

-- The name ends in more than 18 digits, given from the last byte on.
abbrev pub HasLongRun : Bytes → Type 0
HasLongRun s =
    (run : Bytes) × (rest : Bytes) × (s ≡ run ++ rest) × AllDigits run × (length run ≡ 19)

run_of_count :
    (n : ℕ) (s : Bytes)
    → n ≤ leading_digits s
    → (run : Bytes) × (rest : Bytes) × (s ≡ run ++ rest) × AllDigits run × (length run ≡ n)
unfolding leading_digits
run_of_count zero s h = ([], s, refl, tt, refl)
run_of_count (suc n) [] h = absurd (omega (arith, h))
run_of_count (suc n) (c ∷ s) h = elim (Bool-cases (is_decimal c)) [
  | inr other ↦ absurd (omega (arith, rw other at h))
  | inl digit ↦
      let (run, rest, e, all, count) = run_of_count n s (omega (arith, rw digit at h)) in
      (
        c ∷ run,
        rest,
        ap (λ t. c ∷ t) e,
        (ground (arith, digit), ground (arith, digit), all),
        ap suc count,
      )
]

count_of_run : (run rest : Bytes) → AllDigits run → length run ≤ leading_digits (run ++ rest)
unfolding leading_digits
count_of_run [] rest h = omega arith
count_of_run (c ∷ run) rest (low, high, h) =
    let digit : is_decimal c ≡ true = ground (arith, low, high) in
    rw digit (omega (arith, count_of_run run rest h))

-- A name is changed exactly if more than 18 digits stand at its end, and then an underscore follows
-- them.
pub slurm_safe_switch_name_exact :
    (name : Bytes)
    → (HasLongRun (reversed name) → slurm_safe_switch_name name ≡ name ++ codes "_")
      × ((HasLongRun (reversed name) → ⊥) → slurm_safe_switch_name name ≡ name)
unfolding slurm_safe_switch_name trailing_digit_count
slurm_safe_switch_name_exact name = elim (Bool-cases (leb (leading_digits (reversed name)) 18)) [
  | inl short ↦ (
    λ long.
        let (run, rest, e, all, count) = long in
        let bound : length run ≤ leading_digits (reversed name) =
          rw e (count_of_run run rest all) in
        absurd (ground (arith, short, bound, count)),
    λ h. rw short refl,
  )
  | inr long ↦
      (λ h. rw long refl, λ h. absurd (h (run_of_count 19 (reversed name) (ground (arith, long)))))
]
