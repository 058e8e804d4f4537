-- ===== src/Topology/Graph/Edges.antt =====
-- The edges that the operations on the graph add.
use soperator.Prelude.{
  lookup, equal_refl, put, ◌≡◌, refl, Bool, false, ◌&&◌, ◌||◌, not, true, List, [], ◌∷◌, Bytes,
  comparable_bytes, ◌==◌, bytes_beq_iff, contains, contains-add, arith, Bool-cases, inl, inr,
}
use soperator.Topology.Graph.{
  has_parent, attach_switches, attach_switch, attach_fabrics, attach_fabric_roots, TopologyGraph,
  children_of, add_edge, link_path,
}

-- Some entry of `parent` has the child.
unfoldable pub has_edge : TopologyGraph → Bytes → Bytes → Bool
unfolding contains
has_edge [] parent child = false
has_edge ((vertex, children) ∷ g) parent child =
    (vertex == parent && contains children child) || has_edge g parent child

pub has_edge-put :
    (p c : Bytes) (set : List Bytes) (g : TopologyGraph) (x y : Bytes)
    → contains set y ≡ (c == y || contains (children_of g p) y)
    → has_edge (put p set g) x y ≡ ((p == x && c == y) || has_edge g x y)
unfolding put has_edge children_of lookup
has_edge-put p c set [] x y h = ground arith
has_edge-put p c set ((v, cs) ∷ g) x y h = elim (Bool-cases (v == p)) [
  | inl same ↦ let e : v ≡ p = (bytes_beq_iff v p).0 same in ground (arith, e)
  | inr other ↦ ground (arith, has_edge-put p c set g x y (rw other at h))
]

pub has_edge-add_edge :
    (p c : Bytes) (g : TopologyGraph) (x y : Bytes)
    → has_edge (add_edge p c g) x y ≡ ((p == x && c == y) || has_edge g x y)
unfolding add_edge
has_edge-add_edge p c g x y = has_edge-put p c _ g x y (contains-add c (children_of g p) y)

-- The switches of a path, each below the next one.
abbrev pub adjacent : List Bytes → Bytes → Bytes → Bool
adjacent [] p c = false
adjacent (low ∷ []) p c = false
adjacent (low ∷ high ∷ path) p c = (high == p && low == c) || adjacent (high ∷ path) p c

pub has_edge-link_path :
    (path : List Bytes) (g : TopologyGraph) (p c : Bytes)
    → has_edge (link_path path g) p c ≡ (adjacent path p c || has_edge g p c)
unfolding link_path
has_edge-link_path [] g p c = refl
has_edge-link_path (low ∷ []) g p c = refl
has_edge-link_path (low ∷ high ∷ path) g p c = ground (
  arith,
  has_edge-link_path (high ∷ path) (add_edge high low g) p c,
  has_edge-add_edge high low g p c,
)

has_edge-attach_switch :
    (is_child : Bytes → Bool) (fabric switch : Bytes) (g : TopologyGraph) (p c : Bytes)
    → has_edge (attach_switch is_child fabric switch g) p c
      ≡ ((fabric == p && switch == c && not (is_child c)) || has_edge g p c)
unfolding attach_switch
has_edge-attach_switch is_child fabric switch g p c = elim (Bool-cases (switch == c)) [
  | inl same ↦
      let e : switch ≡ c = (bytes_beq_iff switch c).0 same in
      ground (arith, e, has_edge-add_edge fabric switch g p c)
  | inr other ↦ ground (arith, has_edge-add_edge fabric switch g p c)
]

has_edge-attach_switches :
    (is_child : Bytes → Bool) (fabric : Bytes) (switches : List Bytes) (g : TopologyGraph)
    (p c : Bytes)
    → has_edge (attach_switches is_child fabric switches g) p c
      ≡ ((fabric == p && contains switches c && not (is_child c)) || has_edge g p c)
unfolding attach_switches contains
has_edge-attach_switches is_child fabric [] g p c = ground arith
has_edge-attach_switches is_child fabric (switch ∷ switches) g p c = ground (
  arith,
  has_edge-attach_switches is_child fabric switches (attach_switch is_child fabric switch g) p c,
  has_edge-attach_switch is_child fabric switch g p c,
)

has_edge-attach_fabrics :
    (is_child : Bytes → Bool) (tops g : TopologyGraph) (p c : Bytes)
    → has_edge (attach_fabrics is_child tops g) p c
      ≡ ((has_edge tops p c && not (is_child c)) || has_edge g p c)
unfolding attach_fabrics has_edge
has_edge-attach_fabrics is_child [] g p c = refl
has_edge-attach_fabrics is_child ((fabric, switches) ∷ tops) g p c = ground (
  arith,
  has_edge-attach_fabrics is_child tops (attach_switches is_child fabric switches g) p c,
  has_edge-attach_switches is_child fabric switches g p c,
)

-- A fabric root gets exactly the top switches of its fabric that have no parent in the tree, and
-- no other edge changes.
pub has_edge-attach_fabric_roots :
    (g tops : TopologyGraph) (p c : Bytes)
    → has_edge (attach_fabric_roots g tops) p c
      ≡ ((has_edge tops p c && not (has_parent g c)) || has_edge g p c)
unfolding attach_fabric_roots
has_edge-attach_fabric_roots g tops p c = has_edge-attach_fabrics (has_parent g) tops g p c

pub has_parent-of_edge :
    (g : TopologyGraph) (p c : Bytes) → has_edge g p c ≡ true → has_parent g c ≡ true
unfolding has_edge has_parent
has_parent-of_edge [] p c h = h
has_parent-of_edge ((v, cs) ∷ g) p c h = ground (arith, has_parent-of_edge g p c)

pub has_parent-cases :
    (g : TopologyGraph) (c : Bytes) → has_parent g c ≡ true → (p : Bytes) × (has_edge g p c ≡ true)
unfolding has_edge has_parent
has_parent-cases [] c h = absurd (ground arith)
has_parent-cases ((v, cs) ∷ g) c h = elim (Bool-cases (contains cs c)) [
  | inl here ↦ (v, ground (arith, equal_refl v))
  | inr there ↦ let rest = has_parent-cases g c (rw there at h) in (rest.0, ground (arith, rest.1))
]
