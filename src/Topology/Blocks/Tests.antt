-- ===== src/Topology/Blocks/Tests.antt =====
-- Runs of the block topology, and its property at a small cluster.
use soperator.Prelude.{
  ◌≡◌, refl, not, ◌&&◌, ◌||◌, List, [], ◌∷◌, Bytes, codes, contains, comparable_bytes, ◌==◌,
}
use soperator.Topology.Labels.{fabric_of, unknown_switch_name}
use soperator.Topology.Graph.Edges.{has_edge}
use soperator.Topology.Blocks.{build_topology_blocks}
use soperator.Topology.Blocks.Exact.{in_labelled_block, is_labelled, build_topology_blocks_exact}

abbrev nodes : List (Bytes × List (Bytes × Bytes))
nodes = (codes "k1", (codes "tier-0", codes "rack3") ∷ []) ∷ []

abbrev pods : List (Bytes × List Bytes)
pods = (codes "k1", codes "w0" ∷ []) ∷ []

abbrev names : List Bytes
names = codes "w0" ∷ codes "w1" ∷ []

blocks_built :
    build_topology_blocks nodes pods names []
    ≡ (codes "rack3", codes "w0" ∷ []) ∷ (codes "unknown", codes "w1" ∷ []) ∷ []
unfolding build_topology_blocks
blocks_built = refl

build_topology_blocks_exact_example :
    has_edge (build_topology_blocks nodes pods names []) (codes "rack3") (codes "w0") ≡ (
      (contains names (codes "w0")
        && not (is_labelled pods nodes (codes "w0"))
        && unknown_switch_name (fabric_of [] (codes "w0")) == codes "rack3")
      || in_labelled_block pods nodes (codes "rack3") (codes "w0"))
build_topology_blocks_exact_example =
    build_topology_blocks_exact nodes pods names [] (codes "rack3") (codes "w0")
