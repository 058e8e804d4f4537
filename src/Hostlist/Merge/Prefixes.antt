-- ===== src/Hostlist/Merge/Prefixes.antt =====
-- The loop of Merge over all entities at once: which group each one goes to.
use mathlib.Core.Path.{subst}
use mathlib.Core.List.{append-nil, append_assoc}
use soperator.Prelude.{
  sym, equal_refl, Option-cases, ap, ◌≡◌, refl, sym, ◌∙◌, inl, inr, Bool, true, false, ◌&&◌, ◌||◌,
  Option, none, some, List, [], ◌∷◌, ◌++◌, Bytes, comparable_bytes, comparable_nat, nat_ord, ◌==◌,
  bytes_beq_iff, contains, contains-add, lookup, lookup-put, Bool-cases, if◌then◌else◌, arith,
}
use soperator.Hostlist.{dashed_prefix}
use soperator.Hostlist.Prefix.{IsNumbered, dashed_prefix_exact}
use soperator.Hostlist.Merge.{entities_of, by_prefix, split_by_prefix}

-- The names with a prefix, repeats included.
abbrev kept : Bytes → Bytes → Option Bytes → List Bytes → List Bytes
kept prefix entity none rest = rest
kept prefix entity (some q) rest = if q == prefix then entity ∷ rest else rest

abbrev pub names_with : Bytes → List Bytes → List Bytes
names_with prefix [] = []
names_with prefix (entity ∷ entities) =
    kept prefix entity (dashed_prefix entity) (names_with prefix entities)

abbrev pub has_no_prefix : Option Bytes → Bool
has_no_prefix none = true
has_no_prefix (some prefix) = false

lookup-by_prefix :
    (entity prefix : Bytes) (o : Option Bytes) (groups : List (Bytes × List Bytes))
    (passthrough rest : List Bytes)
    → entities_of (lookup (by_prefix entity o (groups, passthrough)).0 prefix) ++ rest
      ≡ entities_of (lookup groups prefix) ++ kept prefix entity o rest
unfolding lookup
lookup-by_prefix entity prefix none groups passthrough rest = refl
lookup-by_prefix entity prefix (some q) groups passthrough rest = elim (Bool-cases (q == prefix)) [
  | inl same ↦
      let e : q ≡ prefix = (bytes_beq_iff q prefix).0 same in
      rw (lookup-put q _ groups prefix, same, e)
        (append_assoc (entities_of (lookup groups prefix)) (entity ∷ []) rest)
  | inr other ↦ rw (lookup-put q _ groups prefix, other) refl
]

lookup-split_by_prefix :
    (entities : List Bytes) (prefix : Bytes) (groups : List (Bytes × List Bytes))
    (passthrough : List Bytes)
    → entities_of (lookup (split_by_prefix entities (groups, passthrough)).0 prefix)
      ≡ entities_of (lookup groups prefix) ++ names_with prefix entities
unfolding split_by_prefix
lookup-split_by_prefix [] prefix groups passthrough =
    sym (append-nil (entities_of (lookup groups prefix)))
lookup-split_by_prefix (entity ∷ entities) prefix groups passthrough =
    let found = by_prefix entity (dashed_prefix entity) (groups, passthrough) in
    lookup-split_by_prefix entities prefix found.0 found.1
    ∙ lookup-by_prefix entity prefix (dashed_prefix entity) groups passthrough
        (names_with prefix entities)

contains-split_by_prefix :
    (entities : List Bytes) (groups : List (Bytes × List Bytes)) (passthrough : List Bytes)
    (e : Bytes)
    → contains (split_by_prefix entities (groups, passthrough)).1 e
      ≡ (contains passthrough e || (contains entities e && has_no_prefix (dashed_prefix e)))
unfolding split_by_prefix contains
contains-split_by_prefix [] groups passthrough e = ground arith
contains-split_by_prefix (entity ∷ entities) groups passthrough e =
    let found = by_prefix entity (dashed_prefix entity) (groups, passthrough) in
    contains-split_by_prefix entities found.0 found.1 e ∙ one (dashed_prefix entity) refl
  where
    one :
        (o : Option Bytes)
        → dashed_prefix entity ≡ o
        → (contains (by_prefix entity o (groups, passthrough)).1 e
            || (contains entities e && has_no_prefix (dashed_prefix e)))
          ≡ (contains passthrough e
              || ((entity == e || contains entities e) && has_no_prefix (dashed_prefix e)))
    one none q = elim (Bool-cases (entity == e)) [
      | inl same ↦
          let p : dashed_prefix e ≡ none =
            subst (λ x. dashed_prefix x ≡ none) ((bytes_beq_iff entity e).0 same) q in
          rw (p, same, contains-add entity passthrough e) (ground (arith, same))
      | inr other ↦ rw (other, contains-add entity passthrough e) (ground (arith, other))
    ]
    one (some prefix) q = elim (Bool-cases (entity == e)) [
      | inl same ↦
          let p : dashed_prefix e ≡ some prefix =
            subst (λ x. dashed_prefix x ≡ some prefix) ((bytes_beq_iff entity e).0 same) q in
          rw (p, same) (ground arith)
      | inr other ↦ rw other (ground arith)
    ]

abbrev is_of : Bytes → Option Bytes → Bool
is_of prefix none = false
is_of prefix (some q) = q == prefix

contains-kept :
    (prefix entity : Bytes) (o : Option Bytes) (rest : List Bytes) (e : Bytes)
    → contains (kept prefix entity o rest) e ≡ ((entity == e && is_of prefix o) || contains rest e)
unfolding contains
contains-kept prefix entity none rest e = ground arith
contains-kept prefix entity (some q) rest e = elim (Bool-cases (q == prefix)) [
  | inl same ↦ rw same (ground arith)
  | inr other ↦ rw other (ground arith)
]

contains-names_with :
    (prefix : Bytes) (entities : List Bytes) (e : Bytes)
    → contains (names_with prefix entities) e
      ≡ (contains entities e && is_of prefix (dashed_prefix e))
unfolding contains
contains-names_with prefix [] e = refl
contains-names_with prefix (entity ∷ entities) e =
    rw
      (
        contains-kept prefix entity (dashed_prefix entity) (names_with prefix entities) e,
        contains-names_with prefix entities e,
      )
      (elim (Bool-cases (entity == e)) [
        | inl same ↦ rw ((bytes_beq_iff entity e).0 same) (ground arith)
        | inr other ↦ rw other refl
      ])

is_of-IsNumbered :
    (prefix e : Bytes)
    → (is_of prefix (dashed_prefix e) ≡ true → IsNumbered e prefix)
      × (IsNumbered e prefix → is_of prefix (dashed_prefix e) ≡ true)
is_of-IsNumbered prefix e = (
  λ h. (dashed_prefix_exact e prefix).0 (only (dashed_prefix e) h),
  λ h. rw ((dashed_prefix_exact e prefix).1 h) (equal_refl prefix),
)
  where
    only : (o : Option Bytes) → is_of prefix o ≡ true → o ≡ some prefix
    only none h = absurd (ground arith)
    only (some q) h = ap some ((bytes_beq_iff q prefix).0 h)

has_no_prefix-IsNumbered :
    (e : Bytes)
    → (has_no_prefix (dashed_prefix e) ≡ true → (prefix : Bytes) → ¬ IsNumbered e prefix)
      × (((prefix : Bytes) → ¬ IsNumbered e prefix) → has_no_prefix (dashed_prefix e) ≡ true)
has_no_prefix-IsNumbered e = (
  λ h prefix numbered.
      absurd (ground (arith, h, ap has_no_prefix ((dashed_prefix_exact e prefix).1 numbered))),
  λ h. elim (Option-cases (dashed_prefix e)) [
    | inl absent ↦ rw absent refl
    | inr (prefix, found) ↦ absurd (h prefix ((dashed_prefix_exact e prefix).0 found))
  ],
)

-- The group that Merge makes for a prefix, and the names that it passes through.
abbrev pub group_of : List Bytes → Bytes → List Bytes
group_of entities prefix = entities_of (lookup (split_by_prefix entities ([], [])).0 prefix)

abbrev pub passed_through : List Bytes → List Bytes
passed_through entities = (split_by_prefix entities ([], [])).1

contains-group_of :
    (entities : List Bytes) (prefix e : Bytes)
    → contains (group_of entities prefix) e
      ≡ (contains entities e && is_of prefix (dashed_prefix e))
unfolding lookup
contains-group_of entities prefix e =
    ap (λ names. contains names e) (lookup-split_by_prefix entities prefix [] [])
    ∙ contains-names_with prefix entities e

contains-passed_through :
    (entities : List Bytes) (e : Bytes)
    → contains (passed_through entities) e
      ≡ (contains entities e && has_no_prefix (dashed_prefix e))
unfolding contains
contains-passed_through entities e = contains-split_by_prefix entities [] [] e

-- The group of a prefix holds exactly the given names that are the prefix, which ends in a dash,
-- and digits, at least one, with their repeats and in order; and Merge passes through exactly the
-- given names that have no such prefix.
pub split_by_prefix_exact :
    (entities : List Bytes)
    → ((prefix : Bytes) → group_of entities prefix ≡ names_with prefix entities)
      × ((prefix e : Bytes)
          → (contains (group_of entities prefix) e ≡ true
              → (contains entities e ≡ true) × IsNumbered e prefix)
            × ((contains entities e ≡ true)
                → IsNumbered e prefix
                → contains (group_of entities prefix) e ≡ true))
      × ((e : Bytes)
          → (contains (passed_through entities) e ≡ true
              → (contains entities e ≡ true) × ((prefix : Bytes) → ¬ IsNumbered e prefix))
            × ((contains entities e ≡ true)
                → ((prefix : Bytes) → ¬ IsNumbered e prefix)
                → contains (passed_through entities) e ≡ true))
unfolding lookup
split_by_prefix_exact entities = (
  λ prefix. lookup-split_by_prefix entities prefix [] [],
  λ prefix e. (
    λ h.
        let both = and_cases _ _ (sym (contains-group_of entities prefix e) ∙ h) in
        (both.0, (is_of-IsNumbered prefix e).0 both.1),
    λ h k. rw (contains-group_of entities prefix e, h, (is_of-IsNumbered prefix e).1 k) refl,
  ),
  λ e. (
    λ h.
        let both = and_cases _ _ (sym (contains-passed_through entities e) ∙ h) in
        (both.0, (has_no_prefix-IsNumbered e).0 both.1),
    λ h k. rw (contains-passed_through entities e, h, (has_no_prefix-IsNumbered e).1 k) refl,
  ),
)
  where
    and_cases : (a b : Bool) → (a && b) ≡ true → (a ≡ true) × (b ≡ true)
    and_cases a b h = (ground (arith, h), ground (arith, h))
