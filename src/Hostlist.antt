-- ===== src/Hostlist.antt =====
-- The hostlist patterns of Slurm, such as `worker-[0-5,7]` (internal/utils/slurm/pattern).
pub mod Ranges
pub mod Prefix
pub mod Merge
mod Tests
use soperator.Prelude.{
  ℕ, zero, suc, ◌+◌, ◌-◌, Bool, true, false, ◌&&◌, Option, none, some, List, [], ◌∷◌, ◌++◌, Bytes,
  codes, nat_beq, leb, if◌then◌else◌,
}
use soperator.Text.{digits}

abbrev pub zeros : ℕ → Bytes
zeros zero = []
zeros (suc n) = b'0' ∷ zeros n

abbrev pub size : Bytes → ℕ
size [] = zero
size (c ∷ s) = suc (size s)

-- `fmt.Sprintf("%0*d", width, number)` for a number that is not negative.
unfoldable pub format_pattern_number : ℕ → ℕ → Bytes
unfolding digits
format_pattern_number number width =
    let text = digits (suc number) number in zeros (width - size text) ++ text

-- The loops of `renderSuffixGroup`: the runs of numbers that follow each other, as first and last.
unfoldable pub ranges_from : ℕ → ℕ → List ℕ → List (ℕ × ℕ)
ranges_from start end [] = (start, end) ∷ []
ranges_from start end (n ∷ numbers) =
    let longer = ranges_from start n numbers in
    let next = ranges_from n n numbers in
    if nat_beq n (suc end) then longer else (start, end) ∷ next

unfoldable pub ranges_of : List ℕ → List (ℕ × ℕ)
unfolding ranges_from
ranges_of [] = []
ranges_of (n ∷ numbers) = ranges_from n n numbers

abbrev pub render_range : ℕ → ℕ × ℕ → Bytes
render_range width (start, end) =
    if nat_beq start end
    then format_pattern_number start width
    else format_pattern_number start width ++ b'-' ∷ format_pattern_number end width

-- `strings.Join(ranges, ",")`
unfoldable pub render_ranges : ℕ → List (ℕ × ℕ) → Bytes
unfolding format_pattern_number
render_ranges width [] = []
render_ranges width (r ∷ []) = render_range width r
render_ranges width (r ∷ q ∷ ranges) =
    render_range width r ++ b',' ∷ render_ranges width (q ∷ ranges)

unfoldable pub render_suffix_group : Bytes → ℕ → List ℕ → Bytes
unfolding render_ranges ranges_of
render_suffix_group prefix width [] = prefix ++ codes "[]"
render_suffix_group prefix width (n ∷ []) = prefix ++ format_pattern_number n width
render_suffix_group prefix width (n ∷ m ∷ numbers) =
    prefix ++ b'[' ∷ render_ranges width (ranges_of (n ∷ m ∷ numbers)) ++ codes "]"

abbrev pub is_digit : ℕ → Bool
is_digit c = leb b'0' c && leb c b'9'

unfoldable pub is_digits : Bytes → Bool
is_digits [] = true
is_digits (c ∷ s) = is_digit c && is_digits s

-- `s[:i]` and `s[i+1:]` for `i = strings.LastIndex(s, "-")`.
unfoldable pub cut_last_dash : Bytes → Option (Bytes × Bytes)
cut_last_dash [] = none
cut_last_dash (c ∷ s) = elim (cut_last_dash s) [
  | none ↦ if nat_beq c b'-' then some ([], s) else none
  | some (before, after) ↦ some (c ∷ before, after)
]

-- The rest of `dashedPrefix`, with the parts around the last dash.
unfoldable pub numbered_prefix : Option (Bytes × Bytes) → Option Bytes
unfolding is_digits
numbered_prefix none = none
numbered_prefix (some (before, [])) = none
numbered_prefix (some (before, c ∷ suffix)) =
    if is_digits (c ∷ suffix) then some (before ++ codes "-") else none

unfoldable pub dashed_prefix : Bytes → Option Bytes
unfolding cut_last_dash numbered_prefix
dashed_prefix s = numbered_prefix (cut_last_dash s)
