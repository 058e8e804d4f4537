-- ===== src/Hostlist/Merge/Members.antt =====
-- The keys of the groups of MergePrefixed and the names that they are from.
use soperator.Prelude.{
  ℕ, ◌≡◌, refl, ap, ◌∙◌, inl, inr, Bool, true, ◌&&◌, some, List, [], ◌∷◌, Bytes, comparable_bytes,
  comparable_nat, ◌==◌, bytes_beq_iff, equal_refl, nat_beq, nat_beq_iff, contains, Bool-cases,
  Option-cases, arith,
}
use soperator.Hostlist.Merge.{NumericSuffix, numeric_suffix, key_width}
use soperator.Hostlist.Merge.Groups.{has_key}
use soperator.Hostlist.Merge.Exact.{numeric_suffixes}

-- A name has the number, and its key the width.
abbrev pub KeyFound : Bool → ℕ → ℕ → Bytes → List Bytes → Type 0
KeyFound padded width n prefix entities =
    (e : Bytes) × (x : NumericSuffix) × (contains entities e ≡ true)
    × (numeric_suffix prefix e ≡ some x)
    × (key_width padded x ≡ width)
    × (x.number ≡ n)

KeyFound-later :
    (padded : Bool) (width n : ℕ) (prefix entity : Bytes) (entities : List Bytes)
    → KeyFound padded width n prefix entities
    → KeyFound padded width n prefix (entity ∷ entities)
unfolding contains
KeyFound-later padded width n prefix entity entities (e, x, member, read, w, m) =
    (e, x, ground (arith, member), read, w, m)

pub has_key-found :
    (padded : Bool) (width n : ℕ) (prefix : Bytes) (entities : List Bytes)
    → has_key padded width n (numeric_suffixes prefix entities) ≡ true
    → KeyFound padded width n prefix entities
unfolding contains
has_key-found padded width n prefix [] h = absurd (ground (arith, h))
has_key-found padded width n prefix (entity ∷ entities) h =
    elim (Option-cases (numeric_suffix prefix entity)) [
      | inl absent ↦
          KeyFound-later padded width n prefix entity entities
            (has_key-found padded width n prefix entities (rw absent at h))
      | inr (x, found) ↦
          elim (Bool-cases (nat_beq (key_width padded x) width && nat_beq x.number n)) [
            | inl same ↦ (
              entity,
              x,
              ground (arith, equal_refl entity),
              found,
              (nat_beq_iff (key_width padded x) width).0 (ground (arith, same)),
              (nat_beq_iff x.number n).0 (ground (arith, same)),
            )
            | inr other ↦ KeyFound-later padded width n prefix entity entities (
                has_key-found padded width n prefix entities (ground (arith, other, rw found at h)))
          ]
    ]

pub has_key-of_member :
    (padded : Bool) (prefix : Bytes) (entities : List Bytes) (e : Bytes) (x : NumericSuffix)
    → contains entities e ≡ true
    → numeric_suffix prefix e ≡ some x
    → has_key padded (key_width padded x) x.number (numeric_suffixes prefix entities) ≡ true
unfolding contains
has_key-of_member padded prefix [] e x h found = absurd (ground (arith, h))
has_key-of_member padded prefix (entity ∷ entities) e x h found = elim (Bool-cases (entity == e)) [
  | inl same ↦
      let q : numeric_suffix prefix entity ≡ some x =
        ap (numeric_suffix prefix) ((bytes_beq_iff entity e).0 same) ∙ found in
      rw q (
        ground (
          arith,
          (nat_beq_iff (key_width padded x) (key_width padded x)).1 refl,
          (nat_beq_iff x.number x.number).1 refl,
        ))
  | inr other ↦ elim (Option-cases (numeric_suffix prefix entity)) [
    | inl absent ↦
        rw absent (has_key-of_member padded prefix entities e x (ground (arith, other, h)) found)
    | inr (y, q) ↦ rw q (
        ground
          (arith, has_key-of_member padded prefix entities e x (ground (arith, other, h)) found))
  ]
]
