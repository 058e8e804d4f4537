-- ===== src/Hostlist/Tests.antt =====
-- Runs of the patterns, and the properties at concrete inputs.
use soperator.Prelude.{
  true, Bytes, contains, comparable_bytes, ◌≡◌, refl, ℕ, List, [], ◌∷◌, codes, none, some,
}
use soperator.Hostlist.{render_suffix_group, ranges_of, dashed_prefix}
use soperator.Hostlist.Ranges.{expanded, expanded-ranges_of}
use soperator.Hostlist.Merge.{merge, merge_prefixed, collected, suffix_groups}
use soperator.Hostlist.Merge.Groups.{in_groups}
use soperator.Hostlist.Prefix.{IsNumbered}
use soperator.Hostlist.Merge.Prefixes.{group_of, passed_through, names_with, split_by_prefix_exact}
use soperator.Hostlist.Merge.Numbers.{HasNumber}
use soperator.Hostlist.Merge.Described.{HasWidth, suffix_groups_exact}

abbrev numbers : List ℕ
numbers = 1 ∷ 2 ∷ 3 ∷ 7 ∷ 9 ∷ 10 ∷ []

group_rendered : render_suffix_group (codes "worker-") 0 numbers ≡ codes "worker-[1-3,7,9-10]"
unfolding render_suffix_group
group_rendered = refl

padded_rendered : render_suffix_group (codes "gpu-") 3 (7 ∷ []) ≡ codes "gpu-007"
unfolding render_suffix_group
padded_rendered = refl

prefix_found : dashed_prefix (codes "worker-gpu-12") ≡ some (codes "worker-gpu-")
unfolding dashed_prefix
prefix_found = refl

prefix_absent : dashed_prefix (codes "worker-") ≡ none
unfolding dashed_prefix
prefix_absent = refl

expanded-ranges_of_example : expanded (ranges_of numbers) ≡ numbers
expanded-ranges_of_example = expanded-ranges_of numbers

-- Two workers with a repeat, a padded one of another partition and a name without a number.
abbrev names : List Bytes
names =
    codes "worker-1"
    ∷ codes "gpu"
    ∷ codes "worker-3"
    ∷ codes "worker-0"
    ∷ codes "worker-1"
    ∷ codes "gpu-07"
    ∷ []

merged_names : merge names ≡ codes "gpu-07,worker-[0-1,3],gpu"
unfolding merge
merged_names = refl

padded_apart :
    merge_prefixed (codes "gpu-07" ∷ codes "gpu-8" ∷ codes "gpu-08" ∷ []) (codes "gpu-")
    ≡ codes "gpu-[07-08],gpu-8"
unfolding merge_prefixed
padded_apart = refl

suffix_groups_exact_example :
    ((width n : ℕ)
      → in_groups width n (suffix_groups (collected (codes "worker-") names)) ≡ true
      → (e : Bytes) × (suffix : Bytes) × (contains names e ≡ true)
        × HasNumber (codes "worker-") e suffix n
        × HasWidth (codes "worker-") names suffix width)
    × ((width n : ℕ) (e suffix : Bytes)
        → contains names e ≡ true
        → HasNumber (codes "worker-") e suffix n
        → HasWidth (codes "worker-") names suffix width
        → in_groups width n (suffix_groups (collected (codes "worker-") names)) ≡ true)
    × ((e : Bytes)
        → (contains (collected (codes "worker-") names).passthrough e ≡ true
            → (contains names e ≡ true)
              × ((suffix : Bytes) (n : ℕ) → HasNumber (codes "worker-") e suffix n → ⊥))
          × (contains names e ≡ true
              → ((suffix : Bytes) (n : ℕ) → HasNumber (codes "worker-") e suffix n → ⊥)
              → contains (collected (codes "worker-") names).passthrough e ≡ true))
suffix_groups_exact_example = suffix_groups_exact (codes "worker-") names

split_by_prefix_exact_example :
    ((prefix : Bytes) → group_of names prefix ≡ names_with prefix names)
    × ((prefix e : Bytes)
        → (contains (group_of names prefix) e ≡ true
            → (contains names e ≡ true) × IsNumbered e prefix)
          × ((contains names e ≡ true)
              → IsNumbered e prefix
              → contains (group_of names prefix) e ≡ true))
    × ((e : Bytes)
        → (contains (passed_through names) e ≡ true
            → (contains names e ≡ true) × ((prefix : Bytes) → ¬ IsNumbered e prefix))
          × ((contains names e ≡ true)
              → ((prefix : Bytes) → ¬ IsNumbered e prefix)
              → contains (passed_through names) e ≡ true))
split_by_prefix_exact_example = split_by_prefix_exact names
