-- ===== src/PowerManager/NodeList/Ranges.antt =====
-- A range such as `3-7` gives exactly the ordinals between its ends, and every ordinal that is
-- read is an int32.
use soperator.Prelude.{
  ◌≡◌, refl, ℕ, zero, suc, ◌≤◌, ℤ, pos, negsuc, comparable_int, ltb_ℤ, Bool, false, not, ◌&&◌,
  Option, none, some, List, [], ◌∷◌, ◌++◌, Bytes, comparable_bytes, nat_beq, comparable_nat,
  contains, arith, Bool-cases, inl, inr,
}
use soperator.PowerManager.NodeList.{count_up, rounds_between, parse_range_part}
use soperator.Text.{cut, parse_int32, max_int32, parse_nat, within, within_negated}

abbrev pub between : ℤ → ℤ → ℤ → Bool
between start end x = not (ltb_ℤ x start) && not (ltb_ℤ end x)

contains-count_up :
    (k : ℕ) (a b x : ℤ) → k ≡ rounds_between a b → contains (count_up k a) x ≡ between a b x
unfolding count_up contains
contains-count_up zero (pos a) b x h = ground arith
contains-count_up zero (negsuc a) b x h = ground arith
contains-count_up (suc k) (pos a) (pos b) x h =
    ground (arith, contains-count_up k (pos (suc a)) (pos b) x)
contains-count_up (suc k) (pos a) (negsuc b) x h = absurd (omega arith)
contains-count_up (suc k) (negsuc zero) (pos b) x h =
    ground (arith, contains-count_up k (pos 0) (pos b) x)
contains-count_up (suc k) (negsuc (suc a)) (pos b) x h =
    ground (arith, contains-count_up k (negsuc a) (pos b) x)
contains-count_up (suc k) (negsuc zero) (negsuc b) x h =
    ground (arith, contains-count_up k (pos 0) (negsuc b) x)
contains-count_up (suc k) (negsuc (suc a)) (negsuc b) x h =
    ground (arith, contains-count_up k (negsuc a) (negsuc b) x)

cut-append :
    (sep : ℕ) (first last : Bytes)
    → contains first sep ≡ false
    → cut sep (first ++ sep ∷ last) ≡ some (first, last)
unfolding cut contains
cut-append sep [] last h = ground arith
cut-append sep (c ∷ s) last h = ground (arith, cut-append sep s last)

-- Two numbers around a dash give the ordinals from the first to the second, both included, and
-- none if the second is smaller.
pub parse_range_part_exact :
    (first last : Bytes) (start end : ℤ)
    → contains first b'-' ≡ false
    → parse_int32 first ≡ some start
    → parse_int32 last ≡ some end
    → (ordinals : List ℤ) × (parse_range_part (first ++ b'-' ∷ last) ≡ some ordinals)
      × ((x : ℤ) → contains ordinals x ≡ between start end x)
unfolding parse_range_part
parse_range_part_exact first last start end h p q = (
  count_up (rounds_between start end) start,
  rw (cut-append b'-' first last h, parse_range_part) (rw (p, parse_range_part) (rw q refl)),
  λ x. contains-count_up (rounds_between start end) start end x refl,
)

-- What `parseInt` accepts fits an int32, so the conversions `int32(i)` lose nothing.
abbrev pub IsInt32 : ℤ → Type 0
IsInt32 (pos n) = n ≤ max_int32
IsInt32 (negsuc n) = n ≤ max_int32

within-IsInt32 : (o : Option ℕ) {z : ℤ} → within o ≡ some z → IsInt32 z
within-IsInt32 o {z = pos n} h = ground arith
within-IsInt32 o {z = negsuc n} h = ground arith

within_negated-IsInt32 : (o : Option ℕ) {z : ℤ} → within_negated o ≡ some z → IsInt32 z
within_negated-IsInt32 none h = absurd (cc)
within_negated-IsInt32 (some zero) {z = pos n} h = ground arith
within_negated-IsInt32 (some zero) {z = negsuc n} h = ground arith
within_negated-IsInt32 (some (suc m)) {z = pos n} h = ground arith
within_negated-IsInt32 (some (suc m)) {z = negsuc n} h = ground arith

pub parse_int32-IsInt32 : (s : Bytes) {z : ℤ} → parse_int32 s ≡ some z → IsInt32 z
unfolding parse_int32
parse_int32-IsInt32 [] h = absurd (ground arith)
parse_int32-IsInt32 (c ∷ s) {z} h = elim (Bool-cases (nat_beq c b'+')) [
  | inl plus ↦ within-IsInt32 (parse_nat s) (rw plus at h)
  | inr other ↦ elim (Bool-cases (nat_beq c b'-')) [
    | inl minus ↦ within_negated-IsInt32 (parse_nat s) (rw (other, minus) at h)
    | inr digit ↦ within-IsInt32 (parse_nat (c ∷ s)) (rw (other, digit) at h)
  ]
]
