-- ===== src/Topology/Blocks.antt =====
-- The block topology (internal/controller/topologyconfcontroller/topology_blocks.go).
pub mod Exact
mod Tests
use soperator.Prelude.{
  Bool, true, false, not, ◌||◌, Option, none, some, List, [], ◌∷◌, ◌++◌, Bytes, codes,
  comparable_bytes, lookup, put, contains, add, if◌then◌else◌,
}
use soperator.Topology.Labels.{fabric_of, unknown_switch_name}
use soperator.Topology.Graph.{children_of}

-- `blocks` of a `TopologyBlocks`: the workers of each block, in the order of their appends.
abbrev pub TopologyBlocks : Type 0
TopologyBlocks = List (Bytes × List Bytes)

unfoldable pub add_node : Bytes → Bytes → TopologyBlocks → TopologyBlocks
unfolding put children_of
add_node block worker b = put block (children_of b block ++ worker ∷ []) b

-- The variables of `BuildTopologyBlocks`.
pub record Build : Type 0 where
  pub blocks : TopologyBlocks
  pub placed : List Bytes

unfoldable pub add_worker : Bytes → Bytes → Build → Build
unfolding add_node add
add_worker block worker b = record {
  blocks = add_node block worker b.blocks;
  placed = add worker b.placed;
}

-- `for _, worker := range workers`
unfoldable pub add_workers : Bytes → List Bytes → Build → Build
unfolding add_worker
add_workers block [] b = b
add_workers block (worker ∷ workers) b = add_workers block workers (add_worker block worker b)

-- One node of stage 2, with its tier-0 label; without workers nothing is added either way.
unfoldable pub place_block : Option Bytes → List Bytes → Build → Build
unfolding add_workers
place_block none workers b = b
place_block (some block) workers b = add_workers block workers b

unfoldable pub place_blocks :
    List (Bytes × List Bytes) → List (Bytes × List (Bytes × Bytes)) → Build → Build
unfolding place_block children_of lookup
place_blocks gpu_pods_by_node [] b = b
place_blocks gpu_pods_by_node ((node, labels) ∷ labels_by_node) b =
    place_blocks gpu_pods_by_node labels_by_node
      (place_block (lookup labels (codes "tier-0")) (children_of gpu_pods_by_node node) b)

unfoldable pub block_name : List (Bytes × Bytes) → Bytes → Build → Build
unfolding contains add_node fabric_of unknown_switch_name
block_name fabric_by_node name b = if contains b.placed name then b else record b {
  blocks = add_node (unknown_switch_name (fabric_of fabric_by_node name)) name b.blocks;
}

-- Stage 1: the nodes that stage 2 has not placed.
unfoldable pub block_names : List (Bytes × Bytes) → List Bytes → Build → Build
unfolding block_name
block_names fabric_by_node [] b = b
block_names fabric_by_node (name ∷ names) b =
    block_names fabric_by_node names (block_name fabric_by_node name b)

unfoldable pub build_topology_blocks :
    List (Bytes × List (Bytes × Bytes))
    → List (Bytes × List Bytes)
    → List Bytes
    → List (Bytes × Bytes)
    → TopologyBlocks
unfolding place_blocks block_names
build_topology_blocks labels_by_node gpu_pods_by_node all_node_names fabric_by_node =
    (block_names fabric_by_node all_node_names
      (place_blocks gpu_pods_by_node labels_by_node (record { blocks = []; placed = [] }))).blocks
