-- ===== src/PowerManager/NodeList/Tests.antt =====
-- The parser at concrete inputs.
use mathlib.Core.List.{cons-ne-nil}
use soperator.Prelude.{
  ◌≡◌, refl, ℤ, comparable_int, pos, negsuc, none, some, List, [], ◌∷◌, ◌++◌, codes, All, contains,
  comparable_nat, comparable_bytes, lookup,
}
use soperator.PowerManager.NodeList.Split.{IsPart, split_node_list-join}
use soperator.PowerManager.NodeList.Ranges.{
  between, parse_range_part_exact, IsInt32, parse_int32-IsInt32,
}
use soperator.PowerManager.NodeList.Groups.{lookup-group_nodes_by_node_set}
use soperator.PowerManager.NodeList.{
  NodeRef, parse_range_spec, parse_node_list, parse_range_part, split_node_list,
  group_nodes_by_node_set,
}
use soperator.Text.{parse_int32, trim_space}

parse_range_spec_mixed :
    parse_range_spec (codes "0-2, 7,10-9") ≡ some (pos 0 ∷ pos 1 ∷ pos 2 ∷ pos 7 ∷ [])
unfolding parse_range_spec
parse_range_spec_mixed = refl

parse_int32_overflow : parse_int32 (codes "2147483648") ≡ none
unfolding parse_int32
parse_int32_overflow = refl

parse_int32_negative : parse_int32 (codes "-2") ≡ some (negsuc 1)
unfolding parse_int32
parse_int32_negative = refl

parse_node_list_mixed :
    parse_node_list (codes "worker-[0-1,5],gpu-b-3")
    ≡ some (
        record { node_set_name = codes "worker"; ordinal = pos 0 }
        ∷ record { node_set_name = codes "worker"; ordinal = pos 1 }
        ∷ record { node_set_name = codes "worker"; ordinal = pos 5 }
        ∷ record { node_set_name = codes "gpu-b"; ordinal = pos 3 }
        ∷ [])
unfolding parse_node_list
parse_node_list_mixed = refl

parse_node_list_bad : parse_node_list (codes "worker") ≡ none
unfolding parse_node_list
parse_node_list_bad = refl

two_parts : All IsPart (codes "a-[0,2]" ∷ codes "b-1" ∷ [])
unfolding trim_space
two_parts = (
  record {
    trimmed = refl;
    not_empty = cons-ne-nil _ _;
    closed = (refl, (refl, (refl, (refl, (refl, (refl, (refl, refl)))))));
  },
  (
    record { trimmed = refl; not_empty = cons-ne-nil _ _; closed = (refl, (refl, (refl, refl))) },
    tt,
  ),
)

split_node_list-join_example :
    split_node_list (codes "a-[0,2],b-1") ≡ codes "a-[0,2]" ∷ codes "b-1" ∷ []
split_node_list-join_example = split_node_list-join (codes "a-[0,2]" ∷ codes "b-1" ∷ []) two_parts

parse_range_part_exact_example :
    (ordinals : List ℤ) × (parse_range_part (codes "3" ++ b'-' ∷ codes "7") ≡ some ordinals)
    × ((x : ℤ) → contains ordinals x ≡ between (pos 3) (pos 7) x)
unfolding parse_int32 contains
parse_range_part_exact_example =
    parse_range_part_exact (codes "3") (codes "7") (pos 3) (pos 7) refl refl refl

parsed_in_range : IsInt32 (pos 7)
unfolding parse_int32
parsed_in_range = parse_int32-IsInt32 (codes "7") {z = pos 7} refl

abbrev refs : List NodeRef
refs =
    record { node_set_name = codes "a"; ordinal = pos 2 }
    ∷ record { node_set_name = codes "b"; ordinal = pos 0 }
    ∷ record { node_set_name = codes "a"; ordinal = pos 1 }
    ∷ []

lookup-group_nodes_by_node_set_example :
    lookup (group_nodes_by_node_set refs) (codes "a") ≡ some (pos 2 ∷ pos 1 ∷ [])
lookup-group_nodes_by_node_set_example = lookup-group_nodes_by_node_set refs (codes "a")
