-- ===== src/Topology/Graph/Unplaced.antt =====
-- The unknown switches: the second stage of `BuildTopologyGraph` for the nodes without a place.
use soperator.Prelude.{
  ◌≡◌, refl, Bool, false, not, ◌&&◌, ◌||◌, List, [], ◌∷◌, Bytes, comparable_bytes, ◌==◌,
  bytes_beq_iff, contains, arith, Bool-cases, inl, inr,
}
use soperator.Topology.Labels.{fabric_of, unknown_switch_name}
use soperator.Topology.Graph.{Build, place_unknown, place_name}
use soperator.Topology.Graph.Edges.{has_edge, has_edge-add_edge}

module _ (fabric_by_node : List (Bytes × Bytes)) where
  abbrev pub unknown_of : Bytes → Bytes
  unknown_of name = unknown_switch_name (fabric_of fabric_by_node name)

  -- The unknown switch of the fabric of a name that is not placed.
  abbrev pub unknown_top : (Bytes → Bool) → List Bytes → Bytes → Bytes → Bool
  unknown_top placed [] f s = false
  unknown_top placed (name ∷ names) f s =
      (not (placed name) && fabric_of fabric_by_node name == f && unknown_of name == s)
      || unknown_top placed names f s

  place_name-graph :
      (name : Bytes) (b : Build) (p c : Bytes)
      → has_edge (place_name fabric_by_node name b).graph p c
        ≡ ((name == c && not (contains b.placed c) && unknown_of c == p) || has_edge b.graph p c)
  unfolding place_name
  place_name-graph name b p c = elim (Bool-cases (name == c)) [
    | inl same ↦
        let e : name ≡ c = (bytes_beq_iff name c).0 same in
        ground (arith, e, has_edge-add_edge (unknown_of name) name b.graph p c)
    | inr other ↦ ground (arith, has_edge-add_edge (unknown_of name) name b.graph p c)
  ]

  place_name-tops :
      (name : Bytes) (b : Build) (f s : Bytes)
      → has_edge (place_name fabric_by_node name b).top_switches f s ≡ (
          (not (contains b.placed name)
            && fabric_of fabric_by_node name == f
            && unknown_of name == s)
          || has_edge b.top_switches f s)
  unfolding place_name
  place_name-tops name b f s = ground (
    arith,
    has_edge-add_edge (fabric_of fabric_by_node name) (unknown_of name) b.top_switches f s,
  )

  place_name-placed :
      (name : Bytes) (b : Build) → (place_name fabric_by_node name b).placed ≡ b.placed
  unfolding place_name
  place_name-placed name b = ground arith

  pub place_unknown-graph :
      (names : List Bytes) (b : Build) (p c : Bytes)
      → has_edge (place_unknown fabric_by_node names b).graph p c ≡ (
          (contains names c && not (contains b.placed c) && unknown_of c == p)
          || has_edge b.graph p c)
  unfolding place_unknown contains
  place_unknown-graph [] b p c = refl
  place_unknown-graph (name ∷ names) b p c = ground (
    arith,
    place_unknown-graph names (place_name fabric_by_node name b) p c,
    place_name-graph name b p c,
    place_name-placed name b,
  )

  pub place_unknown-tops :
      (names : List Bytes) (b : Build) (f s : Bytes)
      → has_edge (place_unknown fabric_by_node names b).top_switches f s
        ≡ (unknown_top (contains b.placed) names f s || has_edge b.top_switches f s)
  unfolding place_unknown
  place_unknown-tops [] b f s = refl
  place_unknown-tops (name ∷ names) b f s = ground (
    arith,
    place_unknown-tops names (place_name fabric_by_node name b) f s,
    place_name-tops name b f s,
    place_name-placed name b,
  )

  pub unknown_top-ext :
      (placed placed' : Bytes → Bool) (names : List Bytes) (f s : Bytes)
      → ((w : Bytes) → placed w ≡ placed' w)
      → unknown_top placed names f s ≡ unknown_top placed' names f s
  unknown_top-ext placed placed' [] f s h = refl
  unknown_top-ext placed placed' (name ∷ names) f s h =
      ground (arith, h name, unknown_top-ext placed placed' names f s h)
