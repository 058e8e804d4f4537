-- ===== src/Hostlist/Merge.antt =====
-- Merge and MergePrefixed (internal/utils/slurm/pattern/merge.go): names with numbers behind a
-- common prefix, collected into one pattern. The keys of a map come in the order of their first
-- use; the sorts that follow make it irrelevant.
pub mod Numbers
pub mod Groups
pub mod Exact
pub mod Members
pub mod Described
pub mod Prefixes
use soperator.Prelude.{
  ℕ, zero, suc, ◌+◌, ◌≡◌, refl, Bool, true, false, not, ◌&&◌, ◌||◌, Option, none, some, List, [],
  ◌∷◌, ◌++◌, map, Bytes, comparable_bytes, bytes_ord, comparable_nat, nat_ord, ◌==◌, ltb, nat_beq,
  contains, add, lookup, put, sort, if◌then◌else◌, arith,
}
use soperator.Text.{has_prefix, parse_nat, join_commas}
use soperator.Hostlist.{size, is_digits, dashed_prefix, render_suffix_group}

-- `numericSuffix`, and the group of one width.
pub record NumericSuffix : Type 0 where
  pub number : ℕ
  pub width : ℕ

pub record SuffixGroup : Type 0 where
  pub width : ℕ
  pub numbers : List ℕ

-- `strings.TrimPrefix`, for a text that has the prefix.
unfoldable pub trim_prefix : Bytes → Bytes → Bytes
trim_prefix s [] = s
trim_prefix [] (d ∷ prefix) = []
trim_prefix (c ∷ s) (d ∷ prefix) = trim_prefix s prefix

-- `strconv.Atoi` on digits: a number beyond 64 bits is its error.
abbrev pub in_range : Option ℕ → Option ℕ
in_range none = none
in_range (some n) = if ltb n 9223372036854775808 then some n else none

abbrev pub suffix_value : Bytes → Option ℕ → Option NumericSuffix
suffix_value suffix none = none
suffix_value suffix (some n) = some (record { number = n; width = size suffix })

-- The numeric suffix of an entity, or nothing for one that is passed through.
unfoldable pub numeric_suffix : Bytes → Bytes → Option NumericSuffix
unfolding trim_prefix is_digits parse_nat
numeric_suffix prefix entity =
    let suffix = trim_prefix entity prefix in
    if not (has_prefix entity prefix)
    then none
    else if suffix == [] || not (is_digits suffix)
    then none
    else suffix_value suffix (in_range (parse_nat suffix))

unfoldable pub has_leading_zero : Bytes → Bool
has_leading_zero [] = false
has_leading_zero (c ∷ []) = false
has_leading_zero (c ∷ d ∷ s) = nat_beq c b'0'

-- What the first loop of MergePrefixed collects.
pub record Collected : Type 0 where
  pub suffixes : List NumericSuffix
  pub passthrough : List Bytes
  pub has_padded_suffix : Bool

abbrev pub collect_one : Bytes → Bytes → Option NumericSuffix → Collected → Collected
collect_one prefix entity none c = record c { passthrough = add entity c.passthrough }
collect_one prefix entity (some suffix) c = record c {
  suffixes = c.suffixes ++ suffix ∷ [];
  has_padded_suffix = c.has_padded_suffix || has_leading_zero (trim_prefix entity prefix);
}

unfoldable pub collect : Bytes → List Bytes → Collected → Collected
unfolding numeric_suffix has_leading_zero add trim_prefix
collect prefix [] c = c
collect prefix (entity ∷ entities) c =
    collect prefix entities (collect_one prefix entity (numeric_suffix prefix entity) c)

-- The key of a suffix: its width counts only if some suffix is padded.
abbrev pub key_width : Bool → NumericSuffix → ℕ
key_width padded suffix = if padded then suffix.width else 0

abbrev pub or_empty : Option (List ℕ) → List ℕ
or_empty none = []
or_empty (some numbers) = numbers

-- One turn of the second loop, over the map from widths to numbers: the set of seen keys has the
-- same keys as this map.
unfoldable pub add_suffix : Bool → NumericSuffix → List (ℕ × List ℕ) → List (ℕ × List ℕ)
unfolding lookup put contains
add_suffix padded suffix by_width =
    let width = key_width padded suffix in
    let numbers = or_empty (lookup by_width width) in
    if contains numbers suffix.number
    then by_width
    else put width (numbers ++ suffix.number ∷ []) by_width

unfoldable pub suffixes_by_width : Bool → List NumericSuffix → List (ℕ × List ℕ) → List (ℕ × List ℕ)
unfolding add_suffix
suffixes_by_width padded [] by_width = by_width
suffixes_by_width padded (suffix ∷ suffixes) by_width =
    suffixes_by_width padded suffixes (add_suffix padded suffix by_width)

abbrev first_of : List ℕ → ℕ
first_of [] = 0
first_of (n ∷ numbers) = n

-- The comparison of `slices.SortFunc`; no two groups have the same width.
abbrev pub group_below : SuffixGroup → SuffixGroup → Bool
group_below a b =
    if ltb (first_of a.numbers) (first_of b.numbers)
    then true
    else if ltb (first_of b.numbers) (first_of a.numbers)
    then false
    else ltb a.width b.width

unfoldable pub insert_group : SuffixGroup → List SuffixGroup → List SuffixGroup
insert_group g [] = g ∷ []
insert_group g (h ∷ groups) = if group_below h g then h ∷ insert_group g groups else g ∷ h ∷ groups

unfoldable pub groups_of : List (ℕ × List ℕ) → List SuffixGroup
unfolding insert_group sort
groups_of [] = []
groups_of ((width, numbers) ∷ by_width) =
    insert_group (record { width = width; numbers = sort numbers }) (groups_of by_width)

-- The groups that MergePrefixed renders, and the entities that it passes through.
abbrev pub collected : Bytes → List Bytes → Collected
collected prefix entities =
    collect prefix entities (record { suffixes = []; passthrough = []; has_padded_suffix = false })

unfoldable pub suffix_groups : Collected → List SuffixGroup
unfolding suffixes_by_width groups_of
suffix_groups c = groups_of (suffixes_by_width c.has_padded_suffix c.suffixes [])

unfoldable pub merge_prefixed : List Bytes → Bytes → Bytes
unfolding collect suffix_groups sort render_suffix_group join_commas
merge_prefixed [] prefix = []
merge_prefixed (entity ∷ entities) prefix =
    let c = collected prefix (entity ∷ entities) in
    join_commas (
      map (λ g. render_suffix_group prefix g.width g.numbers) (suffix_groups c)
      ++ sort c.passthrough)

-- The loop of Merge: the entities of each prefix, and those without one.
abbrev entities_of : Option (List Bytes) → List Bytes
entities_of none = []
entities_of (some entities) = entities

abbrev pub by_prefix :
    Bytes
    → Option Bytes
    → List (Bytes × List Bytes) × List Bytes
    → List (Bytes × List Bytes) × List Bytes
by_prefix entity none (groups, passthrough) = (groups, add entity passthrough)
by_prefix entity (some prefix) (groups, passthrough) =
    (put prefix (entities_of (lookup groups prefix) ++ entity ∷ []) groups, passthrough)

unfoldable pub split_by_prefix :
    List Bytes → List (Bytes × List Bytes) × List Bytes → List (Bytes × List Bytes) × List Bytes
unfolding dashed_prefix add put lookup
split_by_prefix [] found = found
split_by_prefix (entity ∷ entities) found =
    split_by_prefix entities (by_prefix entity (dashed_prefix entity) found)

abbrev pub merged_groups : List (Bytes × List Bytes) → List Bytes → List Bytes
merged_groups groups [] = []
merged_groups groups (prefix ∷ prefixes) =
    merge_prefixed (entities_of (lookup groups prefix)) prefix ∷ merged_groups groups prefixes

unfoldable pub merge : List Bytes → Bytes
unfolding split_by_prefix merge_prefixed sort join_commas lookup
merge entities =
    let (groups, passthrough) = split_by_prefix entities ([], []) in
    join_commas (merged_groups groups (sort (map (λ g. g.0) groups)) ++ sort passthrough)
