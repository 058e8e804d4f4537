-- ===== src/Hostlist/Merge/Exact.antt =====
-- The first loop of MergePrefixed and the groups made from it, against all entities at once.
use mathlib.Core.Path.{subst}
use mathlib.Core.List.{append-nil, append_assoc}
use soperator.Prelude.{
  ℕ, ◌≡◌, refl, sym, ◌∙◌, inl, inr, Bool, true, false, not, ◌&&◌, ◌||◌, Option, none, some, List,
  [], ◌∷◌, ◌++◌, Bytes, comparable_bytes, comparable_nat, nat_ord, ◌==◌, bytes_beq_iff, contains,
  contains-add, Bool-cases, arith,
}
use soperator.Hostlist.Merge.{
  NumericSuffix, Collected, numeric_suffix, has_leading_zero, trim_prefix, collect_one, collect,
  collected, suffixes_by_width, suffix_groups,
}
use soperator.Hostlist.Merge.Groups.{
  in_groups, has_key, in_groups-groups_of, in_entries-suffixes_by_width,
}

-- The numeric suffixes of the entities, in order.
abbrev with_numeric : Option NumericSuffix → List NumericSuffix → List NumericSuffix
with_numeric none suffixes = suffixes
with_numeric (some suffix) suffixes = suffix ∷ suffixes

abbrev pub numeric_suffixes : Bytes → List Bytes → List NumericSuffix
numeric_suffixes prefix [] = []
numeric_suffixes prefix (entity ∷ entities) =
    with_numeric (numeric_suffix prefix entity) (numeric_suffixes prefix entities)

abbrev pub is_none : Option NumericSuffix → Bool
is_none none = true
is_none (some suffix) = false

-- Some entity with a numeric suffix has a leading zero there.
abbrev pub some_padded : Bytes → List Bytes → Bool
some_padded prefix [] = false
some_padded prefix (entity ∷ entities) =
    (not (is_none (numeric_suffix prefix entity)) && has_leading_zero (trim_prefix entity prefix))
    || some_padded prefix entities

collect-suffixes :
    (prefix : Bytes) (entities : List Bytes) (c : Collected)
    → (collect prefix entities c).suffixes ≡ c.suffixes ++ numeric_suffixes prefix entities
unfolding collect
collect-suffixes prefix [] c = sym (append-nil c.suffixes)
collect-suffixes prefix (entity ∷ entities) c =
    collect-suffixes prefix entities (collect_one prefix entity (numeric_suffix prefix entity) c)
    ∙ one (numeric_suffix prefix entity)
  where
    one :
        (o : Option NumericSuffix)
        → (collect_one prefix entity o c).suffixes ++ numeric_suffixes prefix entities
          ≡ c.suffixes ++ with_numeric o (numeric_suffixes prefix entities)
    one none = refl
    one (some suffix) = append_assoc c.suffixes (suffix ∷ []) (numeric_suffixes prefix entities)

collect-padded :
    (prefix : Bytes) (entities : List Bytes) (c : Collected)
    → (collect prefix entities c).has_padded_suffix
      ≡ (c.has_padded_suffix || some_padded prefix entities)
unfolding collect
collect-padded prefix [] c = ground arith
collect-padded prefix (entity ∷ entities) c =
    collect-padded prefix entities (collect_one prefix entity (numeric_suffix prefix entity) c)
    ∙ one (numeric_suffix prefix entity)
  where
    one :
        (o : Option NumericSuffix)
        → ((collect_one prefix entity o c).has_padded_suffix || some_padded prefix entities) ≡ (
            c.has_padded_suffix
            || ((not (is_none o) && has_leading_zero (trim_prefix entity prefix))
                || some_padded prefix entities))
    one none = refl
    one (some suffix) = ground arith

collect-passthrough :
    (prefix : Bytes) (entities : List Bytes) (c : Collected) (e : Bytes)
    → contains (collect prefix entities c).passthrough e
      ≡ (contains c.passthrough e || (contains entities e && is_none (numeric_suffix prefix e)))
unfolding collect contains
collect-passthrough prefix [] c e = ground arith
collect-passthrough prefix (entity ∷ entities) c e =
    collect-passthrough prefix entities (collect_one prefix entity (numeric_suffix prefix entity) c)
      e
    ∙ one (numeric_suffix prefix entity) refl
  where
    one :
        (o : Option NumericSuffix)
        → numeric_suffix prefix entity ≡ o
        → (contains (collect_one prefix entity o c).passthrough e
            || (contains entities e && is_none (numeric_suffix prefix e)))
          ≡ (contains c.passthrough e
              || ((entity == e || contains entities e) && is_none (numeric_suffix prefix e)))
    one none q = elim (Bool-cases (entity == e)) [
      | inl same ↦
          let p : numeric_suffix prefix e ≡ none =
            subst (λ x. numeric_suffix prefix x ≡ none) ((bytes_beq_iff entity e).0 same) q in
          rw (p, same, contains-add entity c.passthrough e) (ground (arith, same))
      | inr other ↦ rw (other, contains-add entity c.passthrough e) (ground (arith, other))
    ]
    one (some suffix) q = elim (Bool-cases (entity == e)) [
      | inl same ↦
          let p : numeric_suffix prefix e ≡ some suffix =
            subst (λ x. numeric_suffix prefix x ≡ some suffix) ((bytes_beq_iff entity e).0 same)
              q in
          rw (p, same) (ground arith)
      | inr other ↦ rw other (ground arith)
    ]

-- MergePrefixed renders, for each width, exactly the numbers of the entities that are the prefix
-- and digits that fit in 64 bits, with the width of the digits where some such entity has a
-- leading zero and with the width zero otherwise; and it passes through exactly the other
-- entities, whatever repeats and whatever the order.
pub suffix_groups-collected :
    (prefix : Bytes) (entities : List Bytes)
    → ((width n : ℕ)
        → in_groups width n (suffix_groups (collected prefix entities))
          ≡ has_key (some_padded prefix entities) width n (numeric_suffixes prefix entities))
      × ((e : Bytes)
          → contains (collected prefix entities).passthrough e
            ≡ (contains entities e && is_none (numeric_suffix prefix e)))
unfolding suffix_groups contains
suffix_groups-collected prefix entities = (grouped, collect-passthrough prefix entities nothing)
  where
    nothing : Collected
    nothing = record { suffixes = []; passthrough = []; has_padded_suffix = false }

    or_false : (a : Bool) → (a || false) ≡ a
    or_false a = ground arith

    grouped :
        (width n : ℕ)
        → in_groups width n (suffix_groups (collected prefix entities))
          ≡ has_key (some_padded prefix entities) width n (numeric_suffixes prefix entities)
    grouped width n =
        in_groups-groups_of
          (suffixes_by_width (collected prefix entities).has_padded_suffix
            (collected prefix entities).suffixes [])
          width n
        ∙ in_entries-suffixes_by_width (collected prefix entities).has_padded_suffix
            (collected prefix entities).suffixes [] width n
        ∙ or_false (
            has_key (collected prefix entities).has_padded_suffix width n
              (collected prefix entities).suffixes)
        ∙ rw (collect-padded prefix entities nothing, collect-suffixes prefix entities nothing) refl
