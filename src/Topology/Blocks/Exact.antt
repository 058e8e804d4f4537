-- ===== src/Topology/Blocks/Exact.antt =====
-- Which block a Slurm node stands in.
use soperator.Prelude.{
  ◌≡◌, refl, Bool, false, not, ◌&&◌, ◌||◌, Option, none, some, List, [], ◌∷◌, Bytes, codes,
  comparable_bytes, ◌==◌, bytes_beq_iff, lookup, contains, contains-append, contains-add, arith,
  Bool-cases, inl, inr,
}
use soperator.Topology.Labels.{fabric_of, unknown_switch_name}
use soperator.Topology.Graph.{children_of}
use soperator.Topology.Graph.Edges.{has_edge, has_edge-put}
use soperator.Topology.Blocks.{
  TopologyBlocks, add_node, Build, add_worker, add_workers, place_block, place_blocks, block_name,
  block_names, build_topology_blocks,
}

has_edge-add_node :
    (block worker : Bytes) (b : TopologyBlocks) (x w : Bytes)
    → has_edge (add_node block worker b) x w ≡ ((block == x && worker == w) || has_edge b x w)
unfolding add_node contains
has_edge-add_node block worker b x w =
    has_edge-put block worker _ b x w
      (ground (arith, contains-append (children_of b block) (worker ∷ []) w))

add_workers-blocks :
    (block : Bytes) (ws : List Bytes) (b : Build) (x w : Bytes)
    → has_edge (add_workers block ws b).blocks x w
      ≡ ((block == x && contains ws w) || has_edge b.blocks x w)
unfolding add_workers add_worker contains
add_workers-blocks block [] b x w = ground arith
add_workers-blocks block (v ∷ ws) b x w = ground (
  arith,
  add_workers-blocks block ws (add_worker block v b) x w,
  has_edge-add_node block v b.blocks x w,
)

add_workers-placed :
    (block : Bytes) (ws : List Bytes) (b : Build) (w : Bytes)
    → contains (add_workers block ws b).placed w ≡ (contains ws w || contains b.placed w)
unfolding add_workers add_worker contains
add_workers-placed block [] b w = refl
add_workers-placed block (v ∷ ws) b w =
    ground (arith, add_workers-placed block ws (add_worker block v b) w, contains-add v b.placed w)

-- The worker is a pod of the node, and the node has this block.
abbrev pub is_of_block : Option Bytes → List Bytes → Bytes → Bytes → Bool
is_of_block none ws x w = false
is_of_block (some block) ws x w = block == x && contains ws w

-- The worker is a pod of the node, and the node has a block.
abbrev pub has_block : Option Bytes → List Bytes → Bytes → Bool
has_block none ws w = false
has_block (some block) ws w = contains ws w

module _ (pods : List (Bytes × List Bytes)) where
  abbrev pub in_labelled_block : List (Bytes × List (Bytes × Bytes)) → Bytes → Bytes → Bool
  in_labelled_block [] x w = false
  in_labelled_block ((node, labels) ∷ nodes) x w =
      is_of_block (lookup labels (codes "tier-0")) (children_of pods node) x w
      || in_labelled_block nodes x w

  abbrev pub is_labelled : List (Bytes × List (Bytes × Bytes)) → Bytes → Bool
  is_labelled [] w = false
  is_labelled ((node, labels) ∷ nodes) w =
      has_block (lookup labels (codes "tier-0")) (children_of pods node) w || is_labelled nodes w

  place_block-blocks :
      (block : Option Bytes) (ws : List Bytes) (b : Build) (x w : Bytes)
      → has_edge (place_block block ws b).blocks x w
        ≡ (is_of_block block ws x w || has_edge b.blocks x w)
  unfolding place_block
  place_block-blocks none ws b x w = refl
  place_block-blocks (some block) ws b x w = add_workers-blocks block ws b x w

  place_block-placed :
      (block : Option Bytes) (ws : List Bytes) (b : Build) (w : Bytes)
      → contains (place_block block ws b).placed w ≡ (has_block block ws w || contains b.placed w)
  unfolding place_block
  place_block-placed none ws b w = refl
  place_block-placed (some block) ws b w = add_workers-placed block ws b w

  place_blocks-blocks :
      (nodes : List (Bytes × List (Bytes × Bytes))) (b : Build) (x w : Bytes)
      → has_edge (place_blocks pods nodes b).blocks x w
        ≡ (in_labelled_block nodes x w || has_edge b.blocks x w)
  unfolding place_blocks
  place_blocks-blocks [] b x w = refl
  place_blocks-blocks ((node, labels) ∷ nodes) b x w =
      let block = lookup labels (codes "tier-0") in
      let ws = children_of pods node in
      ground (
        arith,
        place_blocks-blocks nodes (place_block block ws b) x w,
        place_block-blocks block ws b x w,
      )

  place_blocks-placed :
      (nodes : List (Bytes × List (Bytes × Bytes))) (b : Build) (w : Bytes)
      → contains (place_blocks pods nodes b).placed w ≡ (is_labelled nodes w || contains b.placed w)
  unfolding place_blocks
  place_blocks-placed [] b w = refl
  place_blocks-placed ((node, labels) ∷ nodes) b w =
      let block = lookup labels (codes "tier-0") in
      let ws = children_of pods node in
      ground (
        arith,
        place_blocks-placed nodes (place_block block ws b) w,
        place_block-placed block ws b w,
      )

module _ (fabrics : List (Bytes × Bytes)) where
  block_name-blocks :
      (name : Bytes) (b : Build) (x w : Bytes)
      → has_edge (block_name fabrics name b).blocks x w ≡ (
          (name == w && not (contains b.placed w) && unknown_switch_name (fabric_of fabrics w) == x)
          || has_edge b.blocks x w)
  unfolding block_name
  block_name-blocks name b x w = elim (Bool-cases (name == w)) [
    | inl same ↦
        let e : name ≡ w = (bytes_beq_iff name w).0 same in
        ground (
          arith,
          e,
          has_edge-add_node (unknown_switch_name (fabric_of fabrics name)) name b.blocks x w,
        )
    | inr other ↦
        ground (
          arith,
          has_edge-add_node (unknown_switch_name (fabric_of fabrics name)) name b.blocks x w,
        )
  ]

  block_name-placed : (name : Bytes) (b : Build) → (block_name fabrics name b).placed ≡ b.placed
  unfolding block_name
  block_name-placed name b = ground arith

  block_names-blocks :
      (names : List Bytes) (b : Build) (x w : Bytes)
      → has_edge (block_names fabrics names b).blocks x w ≡ (
          (contains names w
            && not (contains b.placed w)
            && unknown_switch_name (fabric_of fabrics w) == x)
          || has_edge b.blocks x w)
  unfolding block_names contains
  block_names-blocks [] b x w = refl
  block_names-blocks (name ∷ names) b x w = ground (
    arith,
    block_names-blocks names (block_name fabrics name b) x w,
    block_name-blocks name b x w,
    block_name-placed name b,
  )

-- A node stands in a block exactly if it is a pod of a Kubernetes node with that tier-0 label, or
-- if it is a Slurm node that is no pod of any labelled node and the block is the unknown one of
-- its fabric.
pub build_topology_blocks_exact :
    (nodes : List (Bytes × List (Bytes × Bytes))) (pods : List (Bytes × List Bytes))
    (names : List Bytes) (fabrics : List (Bytes × Bytes)) (x w : Bytes)
    → has_edge (build_topology_blocks nodes pods names fabrics) x w ≡ (
        (contains names w
          && not (is_labelled pods nodes w)
          && unknown_switch_name (fabric_of fabrics w) == x)
        || in_labelled_block pods nodes x w)
unfolding build_topology_blocks has_edge contains
build_topology_blocks_exact nodes pods names fabrics x w =
    let start : Build = record { blocks = []; placed = [] } in
    ground (
      arith,
      block_names-blocks fabrics names (place_blocks pods nodes start) x w,
      place_blocks-blocks pods nodes start x w,
      place_blocks-placed pods nodes start w,
    )
