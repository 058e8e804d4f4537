-- ===== src/Topology/Graph/Complete.antt =====
-- What the built graph holds: exactly the edges that the labels, the pods and the fabrics ask for.
use soperator.Prelude.{
  ◌≡◌, sym, ◌∙◌, Bool, true, false, not, ◌&&◌, ◌||◌, ◌⊎◌, List, [], ◌∷◌, Bytes, comparable_bytes,
  ◌==◌, equal_refl, contains, arith, Bool-cases, inl, inr, Option, none, some,
}
use soperator.Topology.Graph.{
  children_of, has_parent, Build, place_nodes, place_unknown, empty_build, build_topology_graph,
}
use soperator.Topology.Graph.Edges.{
  has_edge, has_edge-attach_fabric_roots, has_parent-cases, has_parent-of_edge,
}
use soperator.Topology.Graph.Placement.{
  switch_edge, switch_top, is_placed, path_edge, path_worker, node_path, place_nodes-Adds,
}
use soperator.Topology.Graph.Unplaced.{
  unknown_of, unknown_top, unknown_top-ext, place_unknown-graph, place_unknown-tops,
}

path_worker-edge :
    (fabrics : List (Bytes × Bytes)) (path : Option (List Bytes)) (ws : List Bytes) (w : Bytes)
    → path_worker fabrics path ws w ≡ true
    → (p : Bytes) × (path_edge fabrics path ws p w ≡ true)
path_worker-edge fabrics none ws w h = absurd (ground arith)
path_worker-edge fabrics (some []) ws w h = absurd (ground arith)
path_worker-edge fabrics (some (bottom ∷ path)) ws w h = (bottom, ground (arith, equal_refl bottom))

module _ (nodes : List (Bytes × List (Bytes × Bytes))) (pods : List (Bytes × List Bytes))
    (names : List Bytes) (fabrics : List (Bytes × Bytes)) where
  -- The tree below the fabric roots: the paths of the labels, and the unknown switches.
  abbrev pub tree_edge : Bytes → Bytes → Bool
  tree_edge p c =
      (contains names c && not (is_placed fabrics pods nodes c) && unknown_of fabrics c == p)
      || switch_edge fabrics pods nodes p c

  -- The switch is the top of the path of a node of the fabric, or its unknown switch.
  abbrev pub top_edge : Bytes → Bytes → Bool
  top_edge f s =
      unknown_top fabrics (is_placed fabrics pods nodes) names f s
      || switch_top fabrics pods nodes f s

  abbrev staged : Build
  staged = place_nodes fabrics pods nodes empty_build

  abbrev built : Build
  built = place_unknown fabrics names staged

  staged_placed : (w : Bytes) → contains staged.placed w ≡ is_placed fabrics pods nodes w
  unfolding contains
  staged_placed w = ground (arith, (place_nodes-Adds fabrics pods nodes empty_build).2 w)

  built_edge : (p c : Bytes) → has_edge built.graph p c ≡ tree_edge p c
  unfolding has_edge
  built_edge p c = ground (
    arith,
    place_unknown-graph fabrics names staged p c,
    staged_placed c,
    (place_nodes-Adds fabrics pods nodes empty_build).0 p c,
  )

  built_top : (f s : Bytes) → has_edge built.top_switches f s ≡ top_edge f s
  unfolding has_edge
  built_top f s = ground (
    arith,
    place_unknown-tops fabrics names staged f s,
    unknown_top-ext fabrics (contains staged.placed) (is_placed fabrics pods nodes) names f s
        staged_placed,
    (place_nodes-Adds fabrics pods nodes empty_build).1 f s,
  )

  build_edge :
      (p c : Bytes)
      → has_edge (build_topology_graph nodes pods names fabrics) p c
        ≡ ((top_edge p c && not (has_parent built.graph c)) || tree_edge p c)
  unfolding build_topology_graph
  build_edge p c = ground (
    arith,
    has_edge-attach_fabric_roots built.graph built.top_switches p c,
    built_edge p c,
    built_top p c,
  )

  -- The graph has every edge of the tree; a top switch is below its fabric root, unless the tree
  -- gives it a parent; and every other edge is one of these two kinds, so that no switch that has
  -- a parent in the tree is put below a fabric root.
  pub build_topology_graph_exact :
      ((p c : Bytes)
        → tree_edge p c ≡ true
        → has_edge (build_topology_graph nodes pods names fabrics) p c ≡ true)
      × ((f s : Bytes)
          → top_edge f s ≡ true
          → (has_edge (build_topology_graph nodes pods names fabrics) f s ≡ true)
            ⊎ ((q : Bytes) × (tree_edge q s ≡ true)))
      × ((p c : Bytes)
          → has_edge (build_topology_graph nodes pods names fabrics) p c ≡ true
          → (tree_edge p c ≡ true)
            ⊎ ((top_edge p c ≡ true) × ((q : Bytes) → tree_edge q c ≡ false)))
  build_topology_graph_exact = (
    λ p c h. ground (arith, build_edge p c),
    λ f s h. elim (Bool-cases (has_parent built.graph s)) [
      | inl held ↦
          let parent = has_parent-cases built.graph s held in
          inr (parent.0, sym (built_edge parent.0 s) ∙ parent.1)
      | inr missing ↦ inl (ground (arith, build_edge f s))
    ],
    λ p c h. elim (Bool-cases (tree_edge p c)) [
      | inl held ↦ inl held
      | inr missing ↦ inr (
        ground (arith, build_edge p c),
        λ q. ground (arith, build_edge p c, built_edge q c, has_parent-of_edge built.graph q c),
      )
    ],
  )

  placed_edge :
      (ns : List (Bytes × List (Bytes × Bytes))) (w : Bytes)
      → is_placed fabrics pods ns w ≡ true
      → (p : Bytes) × (switch_edge fabrics pods ns p w ≡ true)
  placed_edge [] w h = absurd (ground arith)
  placed_edge ((node, labels) ∷ ns) w h =
      let ws = children_of pods node in
      elim (Bool-cases (path_worker fabrics (node_path fabrics labels ws) ws w)) [
        | inl here ↦
            let e = path_worker-edge fabrics (node_path fabrics labels ws) ws w here in
            (e.0, ground (arith, e.1))
        | inr there ↦
            let rest = placed_edge ns w (rw there at h) in (rest.0, ground (arith, rest.1))
      ]

  -- Every Slurm node of the list has a switch above it, whatever labels and pods there are.
  pub build_topology_graph_complete :
      (name : Bytes)
      → contains names name ≡ true
      → (p : Bytes) × (has_edge (build_topology_graph nodes pods names fabrics) p name ≡ true)
  build_topology_graph_complete name h = elim (Bool-cases (is_placed fabrics pods nodes name)) [
    | inl held ↦
        let e = placed_edge nodes name held in
        (e.0, build_topology_graph_exact.0 e.0 name (ground (arith, e.1)))
    | inr missing ↦
        let p = unknown_of fabrics name in
        (p, build_topology_graph_exact.0 p name (ground (arith, equal_refl p)))
  ]
