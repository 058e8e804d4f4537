-- ===== src/Text.antt =====
-- The functions of Go's strings and strconv packages that the parsers call, on ASCII text.

use mathlib.Core.Path.{ap₂}
use soperator.Prelude.{
  ◌≡◌, refl, true, ◌++◌, nat_beq_iff, arith, true, false, ltb, ◌&&◌, ◌||◌, ◌++◌, ◌/◌, ◌%◌, ℕ, ◌+◌,
  ◌-◌, ◌*◌, zero, suc, ℤ, pos, negsuc, Bool, Option, none, some, List, [], ◌∷◌, Bytes, leb, nat_beq,
  comparable_bytes, if◌then◌else◌,
}

-- `strings.TrimSpace` on ASCII text.
abbrev pub is_space : ℕ → Bool
is_space c = nat_beq c 32 || (leb 9 c && leb c 13)

unfoldable pub trim_left : Bytes → Bytes
trim_left [] = []
trim_left (c ∷ s) = if is_space c then trim_left s else c ∷ s

unfoldable pub trim_right : Bytes → Bytes
trim_right [] = []
trim_right (c ∷ s) = elim (trim_right s) [
  | [] ↦ if is_space c then [] else c ∷ []
  | d ∷ t ↦ c ∷ d ∷ t
]

unfoldable pub trim_space : Bytes → Bytes
unfolding trim_left trim_right
trim_space s = trim_right (trim_left s)

abbrev pub is_digit : ℕ → Bool
is_digit c = leb b'0' c && leb c b'9'

-- The digits of `strconv.ParseInt(s, 10, 32)`, as a number with no bound.
unfoldable pub parse_digits : ℕ → Bytes → Option ℕ
parse_digits n [] = some n
parse_digits n (c ∷ s) =
    let rest = parse_digits (n * 10 + (c - b'0')) s in if is_digit c then rest else none

unfoldable pub parse_nat : Bytes → Option ℕ
unfolding parse_digits
parse_nat [] = none
parse_nat (c ∷ s) = parse_digits 0 (c ∷ s)

abbrev pub max_int32 : ℕ
max_int32 = 2147483647

abbrev pub within : Option ℕ → Option ℤ
within none = none
within (some n) = if leb n max_int32 then some (pos n) else none

-- The negative of a number; -0 is 0.
abbrev pub negated : ℕ → ℤ
negated zero = pos zero
negated (suc n) = negsuc n

abbrev pub within_negated : Option ℕ → Option ℤ
within_negated none = none
within_negated (some n) = if leb n (max_int32 + 1) then some (negated n) else none

-- `strconv.ParseInt(s, 10, 32)`; `none` is its error.
unfoldable pub parse_int32 : Bytes → Option ℤ
unfolding parse_nat
parse_int32 [] = none
parse_int32 (c ∷ s) =
    if nat_beq c b'+'
    then within (parse_nat s)
    else if nat_beq c b'-'
    then within_negated (parse_nat s)
    else within (parse_nat (c ∷ s))

-- The text before and behind the first `sep`, if there is one: `strings.SplitN(s, sep, 2)`.
unfoldable pub cut : ℕ → Bytes → Option (Bytes × Bytes)
cut sep [] = none
cut sep (c ∷ s) =
    if nat_beq c sep
    then some ([], s)
    else elim (cut sep s) [ none ↦ none | some (a, b) ↦ some (c ∷ a, b) ]

-- `strings.Split(s, sep)` at a one-byte separator, with the part that is being read.
unfoldable pub split_at : ℕ → Bytes → Bytes → List Bytes
split_at sep part [] = part ∷ []
split_at sep part (c ∷ s) =
    let next = split_at sep [] s in
    let same = split_at sep (part ++ c ∷ []) s in if nat_beq c sep then part ∷ next else same

-- `strings.HasPrefix`
abbrev pub has_prefix : Bytes → Bytes → Bool
has_prefix s [] = true
has_prefix [] (d ∷ t) = false
has_prefix (c ∷ s) (d ∷ t) = nat_beq c d && has_prefix s t

-- `strconv.Itoa` on a number of at most `fuel` digits.
unfoldable pub digits : ℕ → ℕ → Bytes
digits zero n = []
digits (suc fuel) n =
    let rest = digits fuel (n / 10) in
    if ltb n 10 then (48 + n) ∷ [] else rest ++ (48 + n % 10) ∷ []

-- `strings.Contains`
unfoldable pub contains_text : Bytes → Bytes → Bool
contains_text [] part = has_prefix [] part
contains_text (c ∷ s) part = has_prefix (c ∷ s) part || contains_text s part

-- `strings.Join(ids, ",")`
unfoldable pub join_commas : List Bytes → Bytes
join_commas [] = []
join_commas (id ∷ []) = id
join_commas (id ∷ next ∷ ids) = id ++ b',' ∷ join_commas (next ∷ ids)

pub has_prefix-split :
    (s prefix : Bytes) → has_prefix s prefix ≡ true → (rest : Bytes) × (s ≡ prefix ++ rest)
has_prefix-split s [] h = (s, refl)
has_prefix-split [] (d ∷ prefix) h = absurd (ground (arith, h))
has_prefix-split (c ∷ s) (d ∷ prefix) h =
    let (rest, e) = has_prefix-split s prefix (ground (arith, h)) in
    (rest, ap₂ (λ x xs. x ∷ xs) ((nat_beq_iff c d).0 (ground (arith, h))) e)

pub has_prefix-append : (prefix rest : Bytes) → has_prefix (prefix ++ rest) prefix ≡ true
has_prefix-append [] rest = refl
has_prefix-append (d ∷ prefix) rest = ground (arith, has_prefix-append prefix rest)
