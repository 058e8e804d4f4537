-- ===== src/Topology/Labels/Tests.antt =====
-- Runs of the label functions, and the path of a node with labels.
use soperator.Prelude.{◌≡◌, refl, List, [], ◌∷◌, Bytes, codes, none, some}
use soperator.Topology.Labels.{labels_to_path, fabric_of, unknown_switch_name}
use soperator.Topology.Labels.Tiers.{PathRead, labels_to_path-PathRead}

abbrev two_tiers : List (Bytes × Bytes)
two_tiers =
    (codes "tier-2", codes "spine1")
    ∷ (codes "tier-0", codes "block3")
    ∷ (codes "tier-1", codes "leaf7")
    ∷ []

two_tiers_path : labels_to_path two_tiers ≡ some (codes "leaf7" ∷ codes "spine1" ∷ [])
unfolding labels_to_path
two_tiers_path = refl

gap_has_no_path :
    labels_to_path ((codes "tier-3", codes "spine1") ∷ (codes "tier-1", codes "leaf7") ∷ []) ≡ none
unfolding labels_to_path
gap_has_no_path = refl

named_fabric_unknown : unknown_switch_name (codes "ib1") ≡ codes "ib1.unknown"
unfolding unknown_switch_name
named_fabric_unknown = refl

default_fabric_unknown : unknown_switch_name (fabric_of [] (codes "worker-0")) ≡ codes "unknown"
unfolding unknown_switch_name fabric_of
default_fabric_unknown = refl

labels_to_path-PathRead_example : PathRead two_tiers (labels_to_path two_tiers)
labels_to_path-PathRead_example = labels_to_path-PathRead two_tiers
