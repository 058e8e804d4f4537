-- ===== src/Topology/Labels.antt =====
-- The tier labels of a Kubernetes node and the fabric of a Slurm node
-- (internal/controller/topologyconfcontroller/topology_graph.go).
pub mod Tiers
mod Tests
use soperator.Text.{has_prefix, digits}
use soperator.Prelude.{
  ℕ, zero, suc, ◌+◌, ◌/◌, ◌%◌, Bool, true, false, not, ◌&&◌, Option, none, some, List, [], ◌∷◌,
  ◌++◌, Bytes, codes, comparable_bytes, ◌==◌, lookup, nat_beq, ltb, if◌then◌else◌,
}

-- `m[key]` on a map of strings: the empty string when the key is missing.
abbrev pub value_or_empty : Option Bytes → Bytes
value_or_empty none = []
value_or_empty (some v) = v

unfoldable pub label : List (Bytes × Bytes) → Bytes → Bytes
unfolding lookup
label labels key = value_or_empty (lookup labels key)

unfoldable pub tier_key : ℕ → Bytes
unfolding digits
tier_key n = codes "tier-" ++ digits (suc n) n

abbrev pub is_tier_key : Bytes → Bool
is_tier_key key = not (key == codes "tier-0") && has_prefix key (codes "tier-")

-- `numOfTiers`
unfoldable pub num_of_tiers : List (Bytes × Bytes) → ℕ
num_of_tiers [] = zero
num_of_tiers ((key, v) ∷ labels) =
    let rest = num_of_tiers labels in if is_tier_key key then suc rest else rest

-- One round of the loop: an empty label ends it.
unfoldable pub prepend : Bytes → Option (List Bytes) → Option (List Bytes)
prepend [] path = none
prepend (c ∷ s) none = none
prepend (c ∷ s) (some path) = some ((c ∷ s) ∷ path)

-- The loop over the tiers after `done`, of which `left` are left.
unfoldable pub tiers_from : List (Bytes × Bytes) → ℕ → ℕ → Option (List Bytes)
unfolding label tier_key prepend
tiers_from labels done zero = some []
tiers_from labels done (suc left) =
    prepend (label labels (tier_key (suc done))) (tiers_from labels (suc done) left)

unfoldable pub labels_to_path : List (Bytes × Bytes) → Option (List Bytes)
unfolding num_of_tiers tiers_from
labels_to_path labels =
    let tiers = num_of_tiers labels in if nat_beq tiers 0 then none else tiers_from labels 0 tiers

abbrev pub default_fabric : Bytes
default_fabric = codes "root"

abbrev pub or_default : Bytes → Bytes
or_default [] = default_fabric
or_default (c ∷ s) = c ∷ s

unfoldable pub fabric_of : List (Bytes × Bytes) → Bytes → Bytes
unfolding label
fabric_of fabric_by_node node = or_default (label fabric_by_node node)

unfoldable pub unknown_switch_name : Bytes → Bytes
unknown_switch_name fabric =
    if fabric == default_fabric then codes "unknown" else fabric ++ codes ".unknown"
