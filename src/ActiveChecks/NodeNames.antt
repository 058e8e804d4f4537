-- ===== src/ActiveChecks/NodeNames.antt =====
-- The node list of a job, such as `worker-[0-5,7],gpu-3` (internal/slurmapi/job.go). A text is the
-- list of its bytes, without line breaks, and a number has no bound.
use soperator.Prelude.{
  ℕ, zero, suc, ◌-◌, pos, Bool, true, false, not, ◌&&◌, Option, none, some, List, [], ◌∷◌, ◌++◌,
  Bytes, nat_beq, leb, if◌then◌else◌,
}
use soperator.Exec.{message, Result, ok, err}
use soperator.Hostlist.{size, format_pattern_number}
use soperator.ActiveChecks.Annotations.{split_at}
use soperator.PowerManager.NodeList.{split_loop}
use soperator.Text.{trim_space, parse_nat}

-- `splitNodeString` is written like `splitNodeList` of the power manager.
unfoldable pub split_node_string : Bytes → List Bytes
unfolding split_loop
split_node_string node_string = split_loop [] [] (pos 0) node_string

-- `strconv.Atoi`, for a text without a minus sign.
abbrev pub atoi : Bytes → Option ℕ
atoi [] = none
atoi (c ∷ s) = if nat_beq c b'+' then parse_nat s else parse_nat (c ∷ s)

-- The regular expression `^(.+)\[(.+)]$`: the text without its last bracket, and its parts around
-- the last opening bracket that has text after it.
abbrev pub is_empty : Bytes → Bool
is_empty [] = true
is_empty (c ∷ s) = false

abbrev pub longer : ℕ → Option Bytes → Bytes → Option Bytes
longer c (some inside) s = some (c ∷ inside)
longer c none [] = if nat_beq c b']' then some [] else none
longer c none (d ∷ s) = none

unfoldable pub without_last_bracket : Bytes → Option Bytes
without_last_bracket [] = none
without_last_bracket (c ∷ s) = longer c (without_last_bracket s) s

abbrev pub or_here : ℕ → Bytes → Option (Bytes × Bytes) → Option (Bytes × Bytes)
or_here c s (some (before, after)) = some (c ∷ before, after)
or_here c s none = if nat_beq c b'[' && not (is_empty s) then some ([], s) else none

unfoldable pub cut_open_bracket : Bytes → Option (Bytes × Bytes)
cut_open_bracket [] = none
cut_open_bracket (c ∷ s) = or_here c s (cut_open_bracket s)

abbrev pub with_prefix : Option (Bytes × Bytes) → Option (Bytes × Bytes)
with_prefix none = none
with_prefix (some ([], spec)) = none
with_prefix (some (c ∷ prefix, spec)) = some (c ∷ prefix, spec)

abbrev pub cut_inside : Option Bytes → Option (Bytes × Bytes)
cut_inside none = none
cut_inside (some inside) = with_prefix (cut_open_bracket inside)

unfoldable pub match_node_range : Bytes → Option (Bytes × Bytes)
unfolding without_last_bracket cut_open_bracket
match_node_range pattern = cut_inside (without_last_bracket pattern)

-- The names of the numbers from `i`, as many as `count`.
unfoldable pub names_from : Bytes → ℕ → ℕ → ℕ → List Bytes
unfolding format_pattern_number
names_from prefix width i zero = []
names_from prefix width i (suc count) =
    (prefix ++ format_pattern_number i width) ∷ names_from prefix width (suc i) count

abbrev pub range_names : Bytes → ℕ → Option ℕ → Option ℕ → Result (List Bytes)
range_names prefix width none last = err (message "invalid start number in node pattern")
range_names prefix width (some start) none = err (message "invalid end number in node pattern")
range_names prefix width (some start) (some last) =
    if leb start last
    then ok (names_from prefix width start (suc last - start))
    else err (message "invalid range in node pattern")

abbrev pub number_name : Bytes → ℕ → Option ℕ → Result (List Bytes)
number_name prefix width none = err (message "invalid number in node pattern")
number_name prefix width (some number) = ok (names_from prefix width number 1)

-- One part of the range, by its pieces between dashes.
abbrev pub part_names : Bytes → List Bytes → Result (List Bytes)
part_names prefix [] = err (message "invalid range format in node pattern")
part_names prefix (number ∷ []) = number_name prefix (size number) (atoi number)
part_names prefix (start ∷ last ∷ []) = range_names prefix (size start) (atoi start) (atoi last)
part_names prefix (start ∷ last ∷ more ∷ pieces) =
    err (message "invalid range format in node pattern")

abbrev pub appended_names : Result (List Bytes) → Result (List Bytes) → Result (List Bytes)
appended_names (err e) rest = err e
appended_names (ok names) (err e) = err e
appended_names (ok names) (ok rest) = ok (names ++ rest)

unfoldable pub parts_names : Bytes → List Bytes → Result (List Bytes)
unfolding split_at parse_nat names_from trim_space
parts_names prefix [] = ok []
parts_names prefix (part ∷ parts) =
    appended_names (part_names prefix (split_at b'-' (trim_space part))) (parts_names prefix parts)

abbrev pub expanded_match : Option (Bytes × Bytes) → Result (List Bytes)
expanded_match none = ok []
expanded_match (some (prefix, spec)) = parts_names prefix (split_at b',' spec)

unfoldable pub expand_node_range : Bytes → Result (List Bytes)
unfolding match_node_range parts_names split_at
expand_node_range pattern = expanded_match (match_node_range pattern)

-- A pattern without a range is a name.
abbrev pub names_or_part : Bytes → Result (List Bytes) → Result (List Bytes)
names_or_part part (err e) = err e
names_or_part part (ok []) = ok (part ∷ [])
names_or_part part (ok (name ∷ names)) = ok (name ∷ names)

unfoldable pub expand_parts : List Bytes → Result (List Bytes)
unfolding expand_node_range
expand_parts [] = ok []
expand_parts (part ∷ parts) =
    appended_names (names_or_part part (expand_node_range part)) (expand_parts parts)

-- `GetNodeList`, with `parseNodeList`
unfoldable pub get_node_list : Bytes → Result (List Bytes)
unfolding expand_parts split_node_string
get_node_list [] = ok []
get_node_list (c ∷ s) = expand_parts (split_node_string (c ∷ s))
