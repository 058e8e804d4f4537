-- ===== src/PowerManager/NodeList.antt =====
-- The node lists that Slurm passes to the power manager, such as `worker-[0-5,7],gpu-3`, and their
-- parser (cmd/powermanager/main.go). A text is the list of its bytes; the code walks runes, which
-- gives the same result, since every character that it tests for is ASCII.
pub mod Ranges
pub mod Split
pub mod Groups
mod Tests
use mathlib.Core.Option
use soperator.Prelude.{
  ℕ, ◌+◌, ◌-◌, ◌*◌, ◌≤◌, zero, suc, ℤ, pos, negsuc, ℤ_beq, succ_ℤ, pred_ℤ, ltb_ℤ, Bool, true, false,
  not, ◌&&◌, ◌||◌, Option, none, some, List, [], ◌∷◌, ◌++◌, map, Bytes, codes, bytes_beq, ltb, leb,
  nat_beq, put, lookup, comparable_bytes, if◌then◌else◌,
}
use soperator.Text.{
  is_space, trim_left, trim_right, trim_space, is_digit, parse_digits, parse_nat, max_int32, within,
  negated, within_negated, parse_int32, cut, split_at,
}

-- `if s := strings.TrimSpace(current.String()); s != "" { parts = append(parts, s) }`
unfoldable pub flush : List Bytes → Bytes → List Bytes
unfolding trim_space
flush parts current = elim (trim_space current) [ [] ↦ parts | c ∷ s ↦ parts ++ (c ∷ s) ∷ [] ]

-- The loop of `splitNodeList` over its variables.
unfoldable pub split_loop : List Bytes → Bytes → ℤ → Bytes → List Bytes
unfolding flush
split_loop parts current bracket_depth [] = flush parts current
split_loop parts current bracket_depth (ch ∷ rest) =
    let comma = nat_beq ch b',' && ℤ_beq bracket_depth (pos 0) in
    split_loop (if comma then flush parts current else parts)
      (if comma then [] else current ++ ch ∷ [])
      (if nat_beq ch b'['
        then succ_ℤ bracket_depth
        else if nat_beq ch b']'
        then pred_ℤ bracket_depth
        else bracket_depth)
      rest

pub split_node_list : Bytes → List Bytes
unfolding split_loop
split_node_list node_list = split_loop [] [] (pos 0) node_list

-- `for i := start; i <= end; i++`, over the number of rounds and the first value.
pub count_up : ℕ → ℤ → List ℤ
count_up zero i = []
count_up (suc rounds) i = i ∷ count_up rounds (succ_ℤ i)

abbrev pub rounds_between : ℤ → ℤ → ℕ
rounds_between (pos a) (pos b) = b + 1 - a
rounds_between (pos a) (negsuc b) = 0
rounds_between (negsuc a) (pos b) = a + b + 2
rounds_between (negsuc a) (negsuc b) = a + 1 - b

infixl 5 ◌>>=◌
abbrev pub ◌>>=◌ : {A B : Type 0} → Option A → (A → Option B) → Option B
none >>= f = none
some a >>= f = f a

-- The body of the loop of `parseRangeSpec`, for one part that has been trimmed.
pub parse_range_part : Bytes → Option (List ℤ)
unfolding parse_int32 count_up cut
parse_range_part part = elim (cut b'-' part) [
  | none ↦ do num ← parse_int32 part; some (num ∷ [])
  | some (first, last) ↦ do
    start ← parse_int32 first
    end ← parse_int32 last
    some (count_up (rounds_between start end) start)
]

pub parse_range_parts : List Bytes → Option (List ℤ)
unfolding parse_range_part trim_space
parse_range_parts [] = some []
parse_range_parts (part ∷ parts) = do
  ordinals ← parse_range_part (trim_space part)
  rest ← parse_range_parts parts
  some (ordinals ++ rest)

pub parse_range_spec : Bytes → Option (List ℤ)
unfolding parse_range_parts split_at
parse_range_spec spec = parse_range_parts (split_at b',' [] spec)

pub record NodeRef : Type 0 where
  pub node_set_name : Bytes
  pub ordinal : ℤ

-- `-\[([^\]]+)\]$` at the start of a text, with what stands in the brackets.
inside_bracket : Bytes → Option Bytes
inside_bracket [] = none
inside_bracket (c ∷ []) = if nat_beq c b']' then some [] else none
inside_bracket (c ∷ d ∷ s) =
    if nat_beq c b']'
    then none
    else elim (inside_bracket (d ∷ s)) [ none ↦ none | some inside ↦ some (c ∷ inside) ]

abbrev non_empty : Option Bytes → Option Bytes
non_empty none = none
non_empty (some []) = none
non_empty (some (c ∷ s)) = some (c ∷ s)

pub bracket_here : Bytes → Option Bytes
unfolding inside_bracket
bracket_here (c ∷ d ∷ s) =
    if nat_beq c b'-' && nat_beq d b'[' then non_empty (inside_bracket s) else none
bracket_here s = none

all_digits : Bytes → Bool
all_digits [] = true
all_digits (c ∷ s) = is_digit c && all_digits s

-- `-(\d+)$` at the start of a text, with the digits.
pub digits_here : Bytes → Option Bytes
unfolding all_digits
digits_here (c ∷ d ∷ s) = if nat_beq c b'-' && all_digits (d ∷ s) then some (d ∷ s) else none
digits_here s = none

-- `(.*)` before what `here` accepts: the longest such text with no line feed in it.
pub greedy : (Bytes → Option Bytes) → Bytes → Option (Bytes × Bytes)
greedy here [] = none
greedy here (c ∷ s) =
    let deeper = greedy here s in
    if nat_beq c 10 then none else elim deeper [
      | some (name, found) ↦ some (c ∷ name, found)
      | none ↦ Option.map (λ found. ([], found)) (here (c ∷ s))
    ]

-- `^(.+)` before it: at least one character.
pub match_name : (Bytes → Option Bytes) → Bytes → Option (Bytes × Bytes)
unfolding greedy
match_name here [] = none
match_name here (c ∷ s) =
    if nat_beq c 10 then none else Option.map (λ m. (c ∷ m.0, m.1)) (greedy here s)

-- One part, such as `worker-[0-5,7]` or `worker-3`.
pub parse_node_range : Bytes → Option (List NodeRef)
unfolding match_name bracket_here digits_here parse_range_spec parse_int32
parse_node_range node_range = elim (match_name bracket_here node_range) [
  | some (name, range_spec) ↦ do
    ordinals ← parse_range_spec range_spec
    some (map (λ ord. record { node_set_name = name; ordinal = ord }) ordinals)
  | none ↦ do
    m ← match_name digits_here node_range
    ordinal ← parse_int32 m.1
    some (record { node_set_name = m.0; ordinal = ordinal } ∷ [])
]

parse_parts : List Bytes → Option (List NodeRef)
unfolding parse_node_range
parse_parts [] = some []
parse_parts (part ∷ parts) = do
  refs ← parse_node_range part
  result ← parse_parts parts
  some (refs ++ result)

unfoldable pub parse_node_list : Bytes → Option (List NodeRef)
unfolding parse_parts split_node_list
parse_node_list node_list = parse_parts (split_node_list node_list)

abbrev pub appended : Option (List ℤ) → ℤ → List ℤ
appended none ord = ord ∷ []
appended (some ords) ord = ords ++ ord ∷ []

-- The loop of `groupNodesByNodeSet`, from the map built so far.
unfoldable pub group_from : List (Bytes × List ℤ) → List NodeRef → List (Bytes × List ℤ)
unfolding put lookup
group_from result [] = result
group_from result (ref ∷ refs) =
    group_from
      (put ref.node_set_name (appended (lookup result ref.node_set_name) ref.ordinal) result) refs

unfoldable pub group_nodes_by_node_set : List NodeRef → List (Bytes × List ℤ)
unfolding group_from
group_nodes_by_node_set refs = group_from [] refs
