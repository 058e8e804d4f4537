-- ===== src/Hostlist/Merge/Groups.antt =====
-- Membership in the groups of MergePrefixed, from the suffixes to the sorted groups.
use mathlib.Core.Path.{subst}
use soperator.Prelude.{
  ℕ, ◌≡◌, refl, ap, ◌∙◌, inl, inr, Bool, true, false, ◌&&◌, ◌||◌, List, [], ◌∷◌, ◌++◌,
  comparable_bytes, comparable_nat, nat_ord, nat_beq, nat_beq_iff, contains, contains-append,
  contains-sort, lookup, put, sort, Bool-cases, arith,
}
use soperator.Hostlist.Merge.{
  NumericSuffix, SuffixGroup, key_width, or_empty, add_suffix, suffixes_by_width, insert_group,
  group_below, groups_of,
}

-- A group of the width has the number.
abbrev pub in_groups : ℕ → ℕ → List SuffixGroup → Bool
in_groups width n [] = false
in_groups width n (g ∷ groups) =
    (nat_beq g.width width && contains g.numbers n) || in_groups width n groups

-- The same of the map, before it is sorted, entry by entry.
abbrev in_entries : ℕ → ℕ → List (ℕ × List ℕ) → Bool
in_entries width n [] = false
in_entries width n ((w, numbers) ∷ by_width) =
    (nat_beq w width && contains numbers n) || in_entries width n by_width

-- One of the suffixes has the number, and its key the width.
abbrev pub has_key : Bool → ℕ → ℕ → List NumericSuffix → Bool
has_key padded width n [] = false
has_key padded width n (suffix ∷ suffixes) =
    (nat_beq (key_width padded suffix) width && nat_beq suffix.number n)
    || has_key padded width n suffixes

in_groups-insert_group :
    (g : SuffixGroup) (groups : List SuffixGroup) (width n : ℕ)
    → in_groups width n (insert_group g groups) ≡ in_groups width n (g ∷ groups)
unfolding insert_group
in_groups-insert_group g [] width n = refl
in_groups-insert_group g (h ∷ groups) width n = elim (Bool-cases (group_below h g)) [
  | inl e ↦ rw e (
      ap (λ b. (nat_beq h.width width && contains h.numbers n) || b)
        (in_groups-insert_group g groups width n)
      ∙ swap (nat_beq h.width width && contains h.numbers n)
          (nat_beq g.width width && contains g.numbers n) (in_groups width n groups))
  | inr e ↦ rw e refl
]
  where
    swap : (a b c : Bool) → (a || (b || c)) ≡ (b || (a || c))
    swap a b c = ground arith

pub in_groups-groups_of :
    (by_width : List (ℕ × List ℕ)) (width n : ℕ)
    → in_groups width n (groups_of by_width) ≡ in_entries width n by_width
unfolding groups_of
in_groups-groups_of [] width n = refl
in_groups-groups_of ((w, numbers) ∷ by_width) width n =
    in_groups-insert_group (record { width = w; numbers = sort numbers }) (groups_of by_width) width
      n
    ∙ rw (contains-sort numbers n, in_groups-groups_of by_width width n) refl

in_entries-put :
    (by_width : List (ℕ × List ℕ)) (w : ℕ) (old : List ℕ) (m width n : ℕ)
    → or_empty (lookup by_width w) ≡ old
    → in_entries width n (put w (old ++ m ∷ []) by_width)
      ≡ ((nat_beq w width && nat_beq m n) || in_entries width n by_width)
unfolding put lookup contains
in_entries-put [] w old m width n h = rw (← h) (ground (arith))
in_entries-put ((v, numbers) ∷ by_width) w old m width n h = elim (Bool-cases (nat_beq v w)) [
  | inl same ↦
      let e : v ≡ w = (nat_beq_iff v w).0 same in
      let q : numbers ≡ old = rw same at h in
      rw (same, ← q, contains-append numbers (m ∷ []) n)
        (rw e (
          merge_or (nat_beq w width) (contains numbers n) (nat_beq m n)
            (in_entries width n by_width)))
  | inr other ↦
      rw (other, in_entries-put by_width w old m width n (rw other at h))
        (swap (nat_beq v width && contains numbers n) (nat_beq w width && nat_beq m n)
          (in_entries width n by_width))
]
  where
    merge_or : (k a b c : Bool) → ((k && (a || (b || false))) || c) ≡ ((k && b) || ((k && a) || c))
    merge_or k a b c = ground arith

    swap : (a b c : Bool) → (a || (b || c)) ≡ (b || (a || c))
    swap a b c = ground arith

-- A number that a lookup finds is in an entry.
in_entries-of_lookup :
    (by_width : List (ℕ × List ℕ)) (w n : ℕ)
    → contains (or_empty (lookup by_width w)) n ≡ true
    → in_entries w n by_width ≡ true
unfolding lookup contains
in_entries-of_lookup [] w n h = absurd (ground (arith, h))
in_entries-of_lookup ((v, numbers) ∷ by_width) w n h = elim (Bool-cases (nat_beq v w)) [
  | inl same ↦ ground (arith, same, rw same at h)
  | inr other ↦ ground (arith, other, in_entries-of_lookup by_width w n (rw other at h))
]

in_entries-add_suffix :
    (padded : Bool) (suffix : NumericSuffix) (by_width : List (ℕ × List ℕ)) (width n : ℕ)
    → in_entries width n (add_suffix padded suffix by_width) ≡ (
        (nat_beq (key_width padded suffix) width && nat_beq suffix.number n)
        || in_entries width n by_width)
unfolding add_suffix
in_entries-add_suffix padded suffix by_width width n =
    let w = key_width padded suffix in
    elim (Bool-cases (contains (or_empty (lookup by_width w)) suffix.number)) [
      | inr new ↦ rw new (in_entries-put by_width w _ suffix.number width n refl)
      | inl old ↦ rw old (
          absorbed width n (nat_beq_iff w width).0 (nat_beq_iff suffix.number n).0
            (in_entries-of_lookup by_width w suffix.number old))
    ]
  where
    absorbed :
        (v k : ℕ)
        → (nat_beq (key_width padded suffix) v ≡ true → key_width padded suffix ≡ v)
        → (nat_beq suffix.number k ≡ true → suffix.number ≡ k)
        → in_entries (key_width padded suffix) suffix.number by_width ≡ true
        → in_entries v k by_width ≡ (
            (nat_beq (key_width padded suffix) v && nat_beq suffix.number k)
            || in_entries v k by_width)
    absorbed v k same_width same_number found =
        elim (Bool-cases (nat_beq (key_width padded suffix) v)) [
          | inr other ↦ rw other refl
          | inl e ↦ elim (Bool-cases (nat_beq suffix.number k)) [
            | inr other ↦ rw (e, other) refl
            | inl f ↦
                rw (e, f)
                  (subst (λ l. in_entries l k by_width ≡ true) (same_width e)
                    (subst (λ l. in_entries (key_width padded suffix) l by_width ≡ true)
                      (same_number f) found))
          ]
        ]

pub in_entries-suffixes_by_width :
    (padded : Bool) (suffixes : List NumericSuffix) (by_width : List (ℕ × List ℕ)) (width n : ℕ)
    → in_entries width n (suffixes_by_width padded suffixes by_width)
      ≡ (has_key padded width n suffixes || in_entries width n by_width)
unfolding suffixes_by_width
in_entries-suffixes_by_width padded [] by_width width n = refl
in_entries-suffixes_by_width padded (suffix ∷ suffixes) by_width width n =
    in_entries-suffixes_by_width padded suffixes (add_suffix padded suffix by_width) width n
    ∙ ap (λ b. has_key padded width n suffixes || b)
        (in_entries-add_suffix padded suffix by_width width n)
    ∙ swap (has_key padded width n suffixes)
        (nat_beq (key_width padded suffix) width && nat_beq suffix.number n)
        (in_entries width n by_width)
  where
    swap : (a b c : Bool) → (a || (b || c)) ≡ ((b || a) || c)
    swap a b c = ground arith
