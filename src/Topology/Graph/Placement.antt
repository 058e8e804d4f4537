-- ===== src/Topology/Graph/Placement.antt =====
-- Where the nodes with a label path are placed by `BuildTopologyGraph`.
use soperator.Prelude.{
  ◌≡◌, refl, Bool, false, ◌&&◌, ◌||◌, List, [], ◌∷◌, Bytes, comparable_bytes, ◌==◌, contains,
  contains-add, arith, Option, none, some,
}
use soperator.Topology.Labels.{labels_to_path, fabric_of}
use soperator.Topology.Graph.{
  children_of, Build, place_workers, place_worker, top_of, place_path, place_node, place_nodes,
}
use soperator.Topology.Graph.Edges.{has_edge, has_edge-add_edge, adjacent, has_edge-link_path}

module _ (fabric_by_node : List (Bytes × Bytes)) where
  abbrev pub any_of_fabric : Bytes → List Bytes → Bool
  any_of_fabric fabric [] = false
  any_of_fabric fabric (w ∷ ws) = fabric_of fabric_by_node w == fabric || any_of_fabric fabric ws

  place_workers-graph :
      (bottom top : Bytes) (ws : List Bytes) (b : Build) (p c : Bytes)
      → has_edge (place_workers fabric_by_node bottom top ws b).graph p c
        ≡ ((bottom == p && contains ws c) || has_edge b.graph p c)
  unfolding place_workers place_worker contains
  place_workers-graph bottom top [] b p c = ground arith
  place_workers-graph bottom top (w ∷ ws) b p c = ground (
    arith,
    place_workers-graph bottom top ws (place_worker fabric_by_node bottom top w b) p c,
    has_edge-add_edge bottom w b.graph p c,
  )

  place_workers-tops :
      (bottom top : Bytes) (ws : List Bytes) (b : Build) (f s : Bytes)
      → has_edge (place_workers fabric_by_node bottom top ws b).top_switches f s
        ≡ ((top == s && any_of_fabric f ws) || has_edge b.top_switches f s)
  unfolding place_workers place_worker
  place_workers-tops bottom top [] b f s = ground arith
  place_workers-tops bottom top (w ∷ ws) b f s = ground (
    arith,
    place_workers-tops bottom top ws (place_worker fabric_by_node bottom top w b) f s,
    has_edge-add_edge (fabric_of fabric_by_node w) top b.top_switches f s,
  )

  place_workers-placed :
      (bottom top : Bytes) (ws : List Bytes) (b : Build) (w : Bytes)
      → contains (place_workers fabric_by_node bottom top ws b).placed w
        ≡ (contains ws w || contains b.placed w)
  unfolding place_workers place_worker contains
  place_workers-placed bottom top [] b w = refl
  place_workers-placed bottom top (v ∷ ws) b w = ground (
    arith,
    place_workers-placed bottom top ws (place_worker fabric_by_node bottom top v b) w,
    contains-add v b.placed w,
  )

  -- `b'` has the edges, the top switches and the placed workers of `b` and those given.
  abbrev pub Adds :
      Build → Build → (Bytes → Bytes → Bool) → (Bytes → Bytes → Bool) → (Bytes → Bool) → Type 0
  Adds b b' edge top worker =
      ((p c : Bytes) → has_edge b'.graph p c ≡ (edge p c || has_edge b.graph p c))
      × ((f s : Bytes) → has_edge b'.top_switches f s ≡ (top f s || has_edge b.top_switches f s))
      × ((w : Bytes) → contains b'.placed w ≡ (worker w || contains b.placed w))

  -- What a node with this path and these workers adds.
  abbrev pub path_edge : Option (List Bytes) → List Bytes → Bytes → Bytes → Bool
  path_edge none ws p c = false
  path_edge (some []) ws p c = false
  path_edge (some (bottom ∷ path)) ws p c =
      (bottom == p && contains ws c) || adjacent (bottom ∷ path) p c

  abbrev pub path_top : Option (List Bytes) → List Bytes → Bytes → Bytes → Bool
  path_top none ws f s = false
  path_top (some []) ws f s = false
  path_top (some (bottom ∷ path)) ws f s = top_of bottom path == s && any_of_fabric f ws

  abbrev pub path_worker : Option (List Bytes) → List Bytes → Bytes → Bool
  path_worker none ws w = false
  path_worker (some []) ws w = false
  path_worker (some (bottom ∷ path)) ws w = contains ws w

  place_path-Adds :
      (path : Option (List Bytes)) (ws : List Bytes) (b : Build)
      → Adds b
          (place_path fabric_by_node path ws b)
          (path_edge path ws)
          (path_top path ws)
          (path_worker path ws)
  unfolding place_path
  place_path-Adds none ws b = (λ p c. refl, λ f s. refl, λ w. refl)
  place_path-Adds (some []) ws b = (λ p c. refl, λ f s. refl, λ w. refl)
  place_path-Adds (some (bottom ∷ path)) ws b =
      let top = top_of bottom path in
      let b' = place_workers fabric_by_node bottom top ws b in
      (
        λ p c. ground (
          arith,
          has_edge-link_path (bottom ∷ path) b'.graph p c,
          place_workers-graph bottom top ws b p c,
        ),
        place_workers-tops bottom top ws b,
        place_workers-placed bottom top ws b,
      )

  -- A node without workers adds nothing.
  abbrev pub if_any {ℓ} : {A : Type ℓ} → A → List Bytes → A → A
  if_any nothing [] a = nothing
  if_any nothing (w ∷ ws) a = a

  abbrev pub node_path : List (Bytes × Bytes) → List Bytes → Option (List Bytes)
  node_path labels ws = if_any none ws (labels_to_path labels)

  place_node-Adds :
      (labels : List (Bytes × Bytes)) (ws : List Bytes) (b : Build)
      → Adds b
          (place_node fabric_by_node labels ws b)
          (path_edge (node_path labels ws) ws)
          (path_top (node_path labels ws) ws)
          (path_worker (node_path labels ws) ws)
  unfolding place_node
  place_node-Adds labels [] b = (λ p c. refl, λ f s. refl, λ w. refl)
  place_node-Adds labels (w ∷ ws) b = place_path-Adds (labels_to_path labels) (w ∷ ws) b

  module _ (gpu_pods_by_node : List (Bytes × List Bytes)) where
    -- The edges that stage 2 means to add: each worker below the first switch of the path of its
    -- node, and each switch of the path below the next one.
    abbrev pub switch_edge : List (Bytes × List (Bytes × Bytes)) → Bytes → Bytes → Bool
    switch_edge [] p c = false
    switch_edge ((node, labels) ∷ nodes) p c =
        let ws = children_of gpu_pods_by_node node in
        path_edge (node_path labels ws) ws p c || switch_edge nodes p c

    abbrev pub switch_top : List (Bytes × List (Bytes × Bytes)) → Bytes → Bytes → Bool
    switch_top [] f s = false
    switch_top ((node, labels) ∷ nodes) f s =
        let ws = children_of gpu_pods_by_node node in
        path_top (node_path labels ws) ws f s || switch_top nodes f s

    -- The worker is a pod of a node with a path.
    abbrev pub is_placed : List (Bytes × List (Bytes × Bytes)) → Bytes → Bool
    is_placed [] w = false
    is_placed ((node, labels) ∷ nodes) w =
        let ws = children_of gpu_pods_by_node node in
        path_worker (node_path labels ws) ws w || is_placed nodes w

    pub place_nodes-Adds :
        (nodes : List (Bytes × List (Bytes × Bytes))) (b : Build)
        → Adds b
            (place_nodes fabric_by_node gpu_pods_by_node nodes b)
            (switch_edge nodes)
            (switch_top nodes)
            (is_placed nodes)
    unfolding place_nodes
    place_nodes-Adds [] b = (λ p c. refl, λ f s. refl, λ w. refl)
    place_nodes-Adds ((node, labels) ∷ nodes) b =
        let ws = children_of gpu_pods_by_node node in
        let b' = place_node fabric_by_node labels ws b in
        let one = place_node-Adds labels ws b in
        let rest = place_nodes-Adds nodes b' in
        (
          λ p c. ground (arith, one.0 p c, rest.0 p c),
          λ f s. ground (arith, one.1 f s, rest.1 f s),
          λ w. ground (arith, one.2 w, rest.2 w),
        )
