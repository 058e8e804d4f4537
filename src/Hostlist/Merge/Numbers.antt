-- ===== src/Hostlist/Merge/Numbers.antt =====
-- The numeric suffixes of names, described without the loop that reads them.
use mathlib.Core.Path.{subst}
use soperator.Prelude.{
  ℕ, ◌+◌, ◌-◌, ◌*◌, ◌≤◌, ◌<◌, ◌≡◌, refl, sym, ap, ◌∙◌, inl, inr, true, not, ◌||◌, Option, none,
  some, [], ◌∷◌, ◌++◌, Bytes, comparable_bytes, ◌==◌, ltb, Bool-cases, if◌then◌else◌, arith,
}
use soperator.Text.{has_prefix, has_prefix-split, has_prefix-append, parse_nat, parse_digits}
use soperator.Hostlist.{size, is_digits}
use soperator.Hostlist.Merge.{NumericSuffix, trim_prefix, in_range, suffix_value, numeric_suffix}

abbrev pub AllDigits : Bytes → Type 0
AllDigits [] = Unit {0}
AllDigits (c ∷ s) = (b'0' ≤ c) × (c ≤ b'9') × AllDigits s

-- The number that decimal digits continue.
abbrev pub decimal : ℕ → Bytes → ℕ
decimal n [] = n
decimal n (c ∷ s) = decimal (n * 10 + (c - b'0')) s

-- Digits, at least one, of a number that fits in 64 bits with a sign.
abbrev pub IsNumber : Bytes → ℕ → Type 0
IsNumber [] n = ⊥
IsNumber (c ∷ s) n = AllDigits (c ∷ s) × (decimal 0 (c ∷ s) ≡ n) × (n < 9223372036854775808)

is_digits-AllDigits : (s : Bytes) → is_digits s ≡ true → AllDigits s
unfolding is_digits
is_digits-AllDigits [] h = tt
is_digits-AllDigits (c ∷ s) h =
    (ground (arith, h), ground (arith, h), is_digits-AllDigits s (ground (arith, h)))

AllDigits-is_digits : (s : Bytes) → AllDigits s → is_digits s ≡ true
unfolding is_digits
AllDigits-is_digits [] h = refl
AllDigits-is_digits (c ∷ s) (low, high, h) = ground (arith, low, high, AllDigits-is_digits s h)

parse_digits-decimal : (n : ℕ) (s : Bytes) → AllDigits s → parse_digits n s ≡ some (decimal n s)
unfolding parse_digits
parse_digits-decimal n [] h = refl
parse_digits-decimal n (c ∷ s) (low, high, h) =
    ground (arith, low, high, parse_digits-decimal (n * 10 + (c - b'0')) s h)

trim_prefix-append : (prefix s : Bytes) → trim_prefix (prefix ++ s) prefix ≡ s
unfolding trim_prefix
trim_prefix-append [] s = refl
trim_prefix-append (d ∷ prefix) s = trim_prefix-append prefix s

-- What the loop does with the text behind the prefix.
abbrev read_suffix : Bytes → Option NumericSuffix
read_suffix suffix =
    if suffix == [] || not (is_digits suffix)
    then none
    else suffix_value suffix (in_range (parse_nat suffix))

numeric_suffix-append :
    (prefix suffix : Bytes) → numeric_suffix prefix (prefix ++ suffix) ≡ read_suffix suffix
unfolding numeric_suffix
numeric_suffix-append prefix suffix =
    rw (has_prefix-append prefix suffix, trim_prefix-append prefix suffix) refl

read_suffix-IsNumber :
    (suffix : Bytes) (x : NumericSuffix)
    → read_suffix suffix ≡ some x
    → IsNumber suffix x.number × (x.width ≡ size suffix)
unfolding parse_nat
read_suffix-IsNumber [] x h = absurd (ground (arith, h))
read_suffix-IsNumber (c ∷ s) x h = elim (Bool-cases (is_digits (c ∷ s))) [
  | inr other ↦ absurd (ground (arith, rw other at h))
  | inl digits ↦
      let all = is_digits-AllDigits (c ∷ s) digits in
      let read = parse_digits-decimal 0 (c ∷ s) all in
      elim (Bool-cases (ltb (decimal 0 (c ∷ s)) 9223372036854775808)) [
        | inr large ↦ absurd (ground (arith, rw (digits, read, large) at h))
        | inl small ↦
            let e : record { number = decimal 0 (c ∷ s); width = size (c ∷ s) } ≡ x =
              ground (arith, rw (digits, read, small) at h) in
            (
              (
                all,
                ap (λ y. y.number) e,
                subst (λ y. y.number < 9223372036854775808) e (ground (arith, small)),
              ),
              sym (ap (λ y. y.width) e),
            )
      ]
]

read_suffix-of_IsNumber :
    (suffix : Bytes) (n : ℕ)
    → IsNumber suffix n
    → read_suffix suffix ≡ some (record { number = n; width = size suffix })
unfolding parse_nat
read_suffix-of_IsNumber [] n h = absurd h
read_suffix-of_IsNumber (c ∷ s) n (all, e, small) =
    let fits : ltb n 9223372036854775808 ≡ true = ground (arith, small) in
    rw (AllDigits-is_digits (c ∷ s) all, parse_digits-decimal 0 (c ∷ s) all, e, fits) refl

-- A name is the prefix and the digits of the number.
abbrev pub HasNumber : Bytes → Bytes → Bytes → ℕ → Type 0
HasNumber prefix entity suffix n = (entity ≡ prefix ++ suffix) × IsNumber suffix n

pub numeric_suffix-HasNumber :
    (prefix entity : Bytes) (x : NumericSuffix)
    → numeric_suffix prefix entity ≡ some x
    → (suffix : Bytes) × HasNumber prefix entity suffix x.number
      × (x.width ≡ size suffix)
      × (trim_prefix entity prefix ≡ suffix)
unfolding numeric_suffix
numeric_suffix-HasNumber prefix entity x h = elim (Bool-cases (has_prefix entity prefix)) [
  | inr other ↦ absurd (ground (arith, rw other at h))
  | inl starts ↦
      let (suffix, e) = has_prefix-split entity prefix starts in
      let (number, width) = read_suffix-IsNumber suffix x (
        sym (numeric_suffix-append prefix suffix)
        ∙ subst (λ y. numeric_suffix prefix y ≡ some x) e h) in
      (
        suffix,
        (e, number),
        width,
        ap (λ y. trim_prefix y prefix) e ∙ trim_prefix-append prefix suffix,
      )
]

pub numeric_suffix-of_HasNumber :
    (prefix entity suffix : Bytes) (n : ℕ)
    → HasNumber prefix entity suffix n
    → (numeric_suffix prefix entity ≡ some (record { number = n; width = size suffix }))
      × (trim_prefix entity prefix ≡ suffix)
numeric_suffix-of_HasNumber prefix entity suffix n (e, number) = (
  ap (numeric_suffix prefix) e
      ∙ numeric_suffix-append prefix suffix
      ∙ read_suffix-of_IsNumber suffix n number,
  ap (λ y. trim_prefix y prefix) e ∙ trim_prefix-append prefix suffix,
)
