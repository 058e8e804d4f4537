-- ===== src/Hostlist/Merge/Described.antt =====
-- The groups of MergePrefixed and what it passes through, by the names that it is given.
use mathlib.Core.Path.{subst}
use soperator.Prelude.{
  ℕ, ◌≡◌, refl, sym, ap, ◌∙◌, ◌⊎◌, inl, inr, true, ◌&&◌, List, [], ◌∷◌, Bytes, comparable_bytes,
  comparable_nat, ◌==◌, bytes_beq_iff, equal_refl, nat_beq_iff, contains, Bool-cases, Option-cases,
  arith,
}
use soperator.Hostlist.{size}
use soperator.Hostlist.Merge.{
  NumericSuffix, numeric_suffix, has_leading_zero, trim_prefix, key_width, collected, suffix_groups,
}
use soperator.Hostlist.Merge.Numbers.{
  HasNumber, numeric_suffix-HasNumber, numeric_suffix-of_HasNumber,
}
use soperator.Hostlist.Merge.Groups.{in_groups, has_key}
use soperator.Hostlist.Merge.Exact.{numeric_suffixes, some_padded, is_none, suffix_groups-collected}
use soperator.Hostlist.Merge.Members.{has_key-found, has_key-of_member}

-- Some name has a number that begins with a zero and goes on.
abbrev pub IsPadded : Bytes → List Bytes → Type 0
IsPadded prefix entities =
    (e : Bytes) × (n : ℕ) × (d : ℕ) × (rest : Bytes) × (contains entities e ≡ true)
    × HasNumber prefix e (b'0' ∷ d ∷ rest) n

leading_zero_split :
    (s : Bytes) → has_leading_zero s ≡ true → (d : ℕ) × (rest : Bytes) × (s ≡ b'0' ∷ d ∷ rest)
unfolding has_leading_zero
leading_zero_split [] h = absurd (ground (arith, h))
leading_zero_split (c ∷ []) h = absurd (ground (arith, h))
leading_zero_split (c ∷ d ∷ s) h = (d, s, ap (λ k. k ∷ d ∷ s) ((nat_beq_iff c b'0').0 h))

IsPadded-later :
    (prefix entity : Bytes) (entities : List Bytes)
    → IsPadded prefix entities
    → IsPadded prefix (entity ∷ entities)
unfolding contains
IsPadded-later prefix entity entities (e, n, d, rest, member, number) =
    (e, n, d, rest, ground (arith, member), number)

some_padded-IsPadded :
    (prefix : Bytes) (entities : List Bytes)
    → some_padded prefix entities ≡ true
    → IsPadded prefix entities
unfolding contains
some_padded-IsPadded prefix [] h = absurd (ground (arith, h))
some_padded-IsPadded prefix (entity ∷ entities) h =
    elim (Option-cases (numeric_suffix prefix entity)) [
      | inl absent ↦
          IsPadded-later prefix entity entities
            (some_padded-IsPadded prefix entities (rw absent at h))
      | inr (x, found) ↦ elim (Bool-cases (has_leading_zero (trim_prefix entity prefix))) [
        | inr other ↦
            IsPadded-later prefix entity entities
              (some_padded-IsPadded prefix entities (rw (found, other) at h))
        | inl zero_first ↦
            let (suffix, number, width, trimmed) = numeric_suffix-HasNumber prefix entity x found in
            let (d, rest, e) =
              leading_zero_split suffix
                (subst (λ s. has_leading_zero s ≡ true) trimmed zero_first) in
            (
              entity,
              x.number,
              d,
              rest,
              ground (arith, equal_refl entity),
              subst (λ s. HasNumber prefix entity s x.number) e number,
            )
      ]
    ]

some_padded-of_IsPadded :
    (prefix : Bytes) (entities : List Bytes) (e : Bytes) (n d : ℕ) (rest : Bytes)
    → contains entities e ≡ true
    → HasNumber prefix e (b'0' ∷ d ∷ rest) n
    → some_padded prefix entities ≡ true
unfolding contains has_leading_zero
some_padded-of_IsPadded prefix [] e n d rest h number = absurd (ground (arith, h))
some_padded-of_IsPadded prefix (entity ∷ entities) e n d rest h number =
    elim (Bool-cases (entity == e)) [
      | inr other ↦
          let found =
            some_padded-of_IsPadded prefix entities e n d rest (ground (arith, other, h)) number in
          ground (arith, found)
      | inl same ↦
          let q : entity ≡ e = (bytes_beq_iff entity e).0 same in
          let (read, trimmed) =
            numeric_suffix-of_HasNumber prefix entity (b'0' ∷ d ∷ rest) n
              (q ∙ number.0, number.1) in
          rw (read, trimmed) refl
    ]

-- The width of a group: that of the digits if some name is padded, and otherwise zero.
abbrev pub HasWidth : Bytes → List Bytes → Bytes → ℕ → Type 0
HasWidth prefix entities suffix width =
    (IsPadded prefix entities × (width ≡ size suffix))
    ⊎ ((IsPadded prefix entities → ⊥) × (width ≡ 0))

key_width-HasWidth :
    (prefix : Bytes) (entities : List Bytes) (suffix : Bytes) (x : NumericSuffix)
    → x.width ≡ size suffix
    → HasWidth prefix entities suffix (key_width (some_padded prefix entities) x)
key_width-HasWidth prefix entities suffix x e = elim (Bool-cases (some_padded prefix entities)) [
  | inl padded ↦ inl (some_padded-IsPadded prefix entities padded, rw padded e)
  | inr plain ↦ inr (
    λ (f, n, d, rest, h, number).
        absurd (ground (arith, plain, some_padded-of_IsPadded prefix entities f n d rest h number)),
    rw plain refl,
  )
]

HasWidth-key_width :
    (prefix : Bytes) (entities : List Bytes) (suffix : Bytes) (width n : ℕ)
    → HasWidth prefix entities suffix width
    → key_width (some_padded prefix entities) (record { number = n; width = size suffix }) ≡ width
HasWidth-key_width prefix entities suffix width n (inl ((f, m, d, rest, h, number), e)) =
    rw (some_padded-of_IsPadded prefix entities f m d rest h number) (sym e)
HasWidth-key_width prefix entities suffix width n (inr (plain, e)) =
    elim (Bool-cases (some_padded prefix entities)) [
      | inl padded ↦ absurd (plain (some_padded-IsPadded prefix entities padded))
      | inr other ↦ rw other (sym e)
    ]

-- The groups that MergePrefixed renders have, under each width, exactly the numbers of the names
-- that are the prefix and digits, at least one, of a number below 2^63, where the width is that of
-- the digits if some such name has a further digit behind a leading zero, and zero otherwise; and
-- it passes through exactly the given names that are not the prefix and such digits, whatever
-- repeats and whatever the order.
pub suffix_groups_exact :
    (prefix : Bytes) (entities : List Bytes)
    → ((width n : ℕ)
        → in_groups width n (suffix_groups (collected prefix entities)) ≡ true
        → (e : Bytes) × (suffix : Bytes) × (contains entities e ≡ true)
          × HasNumber prefix e suffix n
          × HasWidth prefix entities suffix width)
      × ((width n : ℕ) (e suffix : Bytes)
          → contains entities e ≡ true
          → HasNumber prefix e suffix n
          → HasWidth prefix entities suffix width
          → in_groups width n (suffix_groups (collected prefix entities)) ≡ true)
      × ((e : Bytes)
          → (contains (collected prefix entities).passthrough e ≡ true
              → (contains entities e ≡ true)
                × ((suffix : Bytes) (n : ℕ) → HasNumber prefix e suffix n → ⊥))
            × (contains entities e ≡ true
                → ((suffix : Bytes) (n : ℕ) → HasNumber prefix e suffix n → ⊥)
                → contains (collected prefix entities).passthrough e ≡ true))
suffix_groups_exact prefix entities =
    let (groups, passthrough) = suffix_groups-collected prefix entities in
    (
      λ width n h.
          let (e, x, member, read, w, m) =
            has_key-found (some_padded prefix entities) width n prefix entities
              (sym (groups width n) ∙ h) in
          let (suffix, number, size_of, trimmed) = numeric_suffix-HasNumber prefix e x read in
          (
            e,
            suffix,
            member,
            subst (λ k. HasNumber prefix e suffix k) m number,
            subst (λ k. HasWidth prefix entities suffix k) w
                (key_width-HasWidth prefix entities suffix x size_of),
          ),
      λ width n e suffix member number wide.
          let (read, trimmed) = numeric_suffix-of_HasNumber prefix e suffix n number in
          let key = HasWidth-key_width prefix entities suffix width n wide in
          groups width n
          ∙ subst
              (λ k.
                has_key (some_padded prefix entities) k n (numeric_suffixes prefix entities) ≡ true)
              key
              (has_key-of_member (some_padded prefix entities) prefix entities e
                (record { number = n; width = size suffix }) member read),
      λ e. (
        λ h.
            let both : (contains entities e && is_none (numeric_suffix prefix e)) ≡ true =
              sym (passthrough e) ∙ h in
            (
              ground (arith, both),
              λ suffix n number.
                  let (read, trimmed) = numeric_suffix-of_HasNumber prefix e suffix n number in
                  absurd (ground (arith, rw read at both)),
            ),
        λ member no_number. passthrough e ∙ (elim (Option-cases (numeric_suffix prefix e)) [
          | inl absent ↦ rw (member, absent) refl
          | inr (x, read) ↦
              let (suffix, number, width, trimmed) = numeric_suffix-HasNumber prefix e x read in
              absurd (no_number suffix x.number number)
        ]),
      ),
    )
