-- ===== src/Topology/Graph.antt =====
-- The tree topology: switches and the Slurm nodes below them
-- (internal/controller/topologyconfcontroller/topology_graph.go).
pub mod Edges
pub mod Placement
pub mod Unplaced
pub mod Complete
mod Tests
use soperator.Prelude.{
  Bool, true, false, not, ◌||◌, Option, none, some, List, [], ◌∷◌, Bytes, comparable_bytes, lookup,
  put, contains, add, if◌then◌else◌,
}
use soperator.Topology.Labels.{labels_to_path, fabric_of, unknown_switch_name}

-- `children` of a `TopologyGraph`: the set of the children of each vertex that has any. The
-- variable `topSwitchesByFabric` has the same form, from a fabric to its switches.
abbrev pub TopologyGraph : Type 0
TopologyGraph = List (Bytes × List Bytes)

abbrev pub or_no_children : Option (List Bytes) → List Bytes
or_no_children none = []
or_no_children (some children) = children

unfoldable pub children_of : TopologyGraph → Bytes → List Bytes
unfolding lookup
children_of g vertex = or_no_children (lookup g vertex)

-- `AddEdge`, and `addTopSwitch` on the switches by fabric.
unfoldable pub add_edge : Bytes → Bytes → TopologyGraph → TopologyGraph
unfolding children_of put add
add_edge parent child g = put parent (add child (children_of g parent)) g

-- `hasParent[child]`
unfoldable pub has_parent : TopologyGraph → Bytes → Bool
unfolding contains
has_parent [] child = false
has_parent ((parent, children) ∷ g) child = contains children child || has_parent g child

-- The variables of `BuildTopologyGraph`.
pub record Build : Type 0 where
  pub graph : TopologyGraph
  pub top_switches : TopologyGraph
  pub placed : List Bytes

unfoldable pub place_worker : List (Bytes × Bytes) → Bytes → Bytes → Bytes → Build → Build
unfolding add_edge fabric_of
place_worker fabric_by_node bottom top worker b = record {
  graph = add_edge bottom worker b.graph;
  top_switches = add_edge (fabric_of fabric_by_node worker) top b.top_switches;
  placed = add worker b.placed;
}

-- `for _, worker := range workers`
unfoldable pub place_workers : List (Bytes × Bytes) → Bytes → Bytes → List Bytes → Build → Build
unfolding place_worker
place_workers fabric_by_node bottom top [] b = b
place_workers fabric_by_node bottom top (worker ∷ workers) b =
    place_workers fabric_by_node bottom top workers
      (place_worker fabric_by_node bottom top worker b)

-- `graph.AddEdge(pathToRoot[i+1], pathToRoot[i])` for each i.
unfoldable pub link_path : List Bytes → TopologyGraph → TopologyGraph
unfolding add_edge
link_path [] g = g
link_path (low ∷ []) g = g
link_path (low ∷ high ∷ path) g = link_path (high ∷ path) (add_edge high low g)

-- `pathToRoot[len(pathToRoot)-1]`, for the path that starts with `bottom`.
abbrev pub top_of : Bytes → List Bytes → Bytes
top_of bottom [] = bottom
top_of bottom (switch ∷ path) = top_of switch path

-- One node of stage 2, its path found.
unfoldable pub place_path : List (Bytes × Bytes) → Option (List Bytes) → List Bytes → Build → Build
unfolding place_workers link_path
place_path fabric_by_node none workers b = b
place_path fabric_by_node (some []) workers b = b
place_path fabric_by_node (some (bottom ∷ path)) workers b =
    let b' = place_workers fabric_by_node bottom (top_of bottom path) workers b in
    record b' { graph = link_path (bottom ∷ path) b'.graph }

unfoldable pub place_node : List (Bytes × Bytes) → List (Bytes × Bytes) → List Bytes → Build → Build
unfolding place_path labels_to_path
place_node fabric_by_node labels [] b = b
place_node fabric_by_node labels (worker ∷ workers) b =
    place_path fabric_by_node (labels_to_path labels) (worker ∷ workers) b

-- Stage 2: the nodes with labels, in the order of the range loop.
unfoldable pub place_nodes :
    List (Bytes × Bytes)
    → List (Bytes × List Bytes)
    → List (Bytes × List (Bytes × Bytes))
    → Build
    → Build
unfolding place_node children_of
place_nodes fabric_by_node gpu_pods_by_node [] b = b
place_nodes fabric_by_node gpu_pods_by_node ((node, labels) ∷ labels_by_node) b =
    place_nodes fabric_by_node gpu_pods_by_node labels_by_node
      (place_node fabric_by_node labels (children_of gpu_pods_by_node node) b)

unfoldable pub place_name : List (Bytes × Bytes) → Bytes → Build → Build
unfolding contains add_edge fabric_of unknown_switch_name
place_name fabric_by_node name b =
    let fabric = fabric_of fabric_by_node name in
    let unknown = unknown_switch_name fabric in
    if contains b.placed name then b else record b {
      graph = add_edge unknown name b.graph;
      top_switches = add_edge fabric unknown b.top_switches;
    }

-- Stage 1: the nodes that stage 2 has not placed.
unfoldable pub place_unknown : List (Bytes × Bytes) → List Bytes → Build → Build
unfolding place_name
place_unknown fabric_by_node [] b = b
place_unknown fabric_by_node (name ∷ names) b =
    place_unknown fabric_by_node names (place_name fabric_by_node name b)

unfoldable pub attach_switch : (Bytes → Bool) → Bytes → Bytes → TopologyGraph → TopologyGraph
unfolding add_edge
attach_switch is_child fabric switch g =
    if not (is_child switch) then add_edge fabric switch g else g

unfoldable pub attach_switches : (Bytes → Bool) → Bytes → List Bytes → TopologyGraph → TopologyGraph
unfolding attach_switch
attach_switches is_child fabric [] g = g
attach_switches is_child fabric (switch ∷ switches) g =
    attach_switches is_child fabric switches (attach_switch is_child fabric switch g)

unfoldable pub attach_fabrics : (Bytes → Bool) → TopologyGraph → TopologyGraph → TopologyGraph
unfolding attach_switches
attach_fabrics is_child [] g = g
attach_fabrics is_child ((fabric, switches) ∷ tops) g =
    attach_fabrics is_child tops (attach_switches is_child fabric switches g)

-- `hasParent` is filled before the first edge is added.
unfoldable pub attach_fabric_roots : TopologyGraph → TopologyGraph → TopologyGraph
unfolding attach_fabrics has_parent
attach_fabric_roots g tops = attach_fabrics (has_parent g) tops g

abbrev pub empty_build : Build
empty_build = record { graph = []; top_switches = []; placed = [] }

unfoldable pub build_topology_graph :
    List (Bytes × List (Bytes × Bytes))
    → List (Bytes × List Bytes)
    → List Bytes
    → List (Bytes × Bytes)
    → TopologyGraph
unfolding place_nodes place_unknown attach_fabric_roots
build_topology_graph labels_by_node gpu_pods_by_node all_node_names fabric_by_node =
    let b =
      place_unknown fabric_by_node all_node_names
        (place_nodes fabric_by_node gpu_pods_by_node labels_by_node empty_build) in
    attach_fabric_roots b.graph b.top_switches
