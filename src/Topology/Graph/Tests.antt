-- ===== src/Topology/Graph/Tests.antt =====
-- Runs of the graph, and its properties at a small cluster.
use soperator.Prelude.{contains, ◌≡◌, refl, true, false, List, [], ◌∷◌, ◌⊎◌, Bytes, codes}
use soperator.Topology.Graph.{TopologyGraph, build_topology_graph}
use soperator.Topology.Graph.Edges.{has_edge}
use soperator.Topology.Graph.Complete.{
  tree_edge, top_edge, build_topology_graph_exact, build_topology_graph_complete,
}

-- One labelled node with a worker, and a worker that is not placed.
abbrev nodes : List (Bytes × List (Bytes × Bytes))
nodes = (codes "k1", (codes "tier-1", codes "leaf") ∷ (codes "tier-2", codes "spine") ∷ []) ∷ []

abbrev pods : List (Bytes × List Bytes)
pods = (codes "k1", codes "w0" ∷ []) ∷ []

abbrev names : List Bytes
names = codes "w0" ∷ codes "w1" ∷ []

abbrev graph : TopologyGraph
graph = build_topology_graph nodes pods names []

graph_built :
    graph
    ≡ (codes "leaf", codes "w0" ∷ [])
      ∷ (codes "spine", codes "leaf" ∷ [])
      ∷ (codes "unknown", codes "w1" ∷ [])
      ∷ (codes "root", codes "spine" ∷ codes "unknown" ∷ [])
      ∷ []
unfolding build_topology_graph
graph_built = refl

build_topology_graph_exact_example :
    ((p c : Bytes) → tree_edge nodes pods names [] p c ≡ true → has_edge graph p c ≡ true)
    × ((f s : Bytes)
        → top_edge nodes pods names [] f s ≡ true
        → (has_edge graph f s ≡ true) ⊎ ((q : Bytes) × (tree_edge nodes pods names [] q s ≡ true)))
    × ((p c : Bytes)
        → has_edge graph p c ≡ true
        → (tree_edge nodes pods names [] p c ≡ true)
          ⊎ ((top_edge nodes pods names [] p c ≡ true)
              × ((q : Bytes) → tree_edge nodes pods names [] q c ≡ false)))
build_topology_graph_exact_example = build_topology_graph_exact nodes pods names []

build_topology_graph_complete_example : (p : Bytes) × (has_edge graph p (codes "w1") ≡ true)
unfolding contains
build_topology_graph_complete_example =
    build_topology_graph_complete nodes pods names [] (codes "w1") refl
