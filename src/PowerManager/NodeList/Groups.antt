-- ===== src/PowerManager/NodeList/Groups.antt =====
-- Grouping by NodeSet keeps every reference, in order.
use soperator.Prelude.{
  ◌≡◌, refl, sym, ap, ◌∙◌, ℤ, List, [], ◌∷◌, ◌++◌, Bytes, comparable_bytes, bytes_beq_iff, ◌==◌,
  lookup, put, lookup-put, Option, none, some, if◌then◌else◌, Bool-cases, inl, inr,
}
use mathlib.Core.List.{append_assoc, append-nil}
use soperator.PowerManager.NodeList.{NodeRef, appended, group_from, group_nodes_by_node_set}

-- The ordinals of the references to one NodeSet, in order.
abbrev pub ordinals_of : Bytes → List NodeRef → List ℤ
ordinals_of name [] = []
ordinals_of name (ref ∷ refs) =
    let rest = ordinals_of name refs in
    if ref.node_set_name == name then ref.ordinal ∷ rest else rest

-- A key that no reference names stays absent.
abbrev pub extended : Option (List ℤ) → List ℤ → Option (List ℤ)
extended none [] = none
extended none (o ∷ os) = some (o ∷ os)
extended (some ords) os = some (ords ++ os)

extended_one :
    (m : Option (List ℤ)) (o : ℤ) (os : List ℤ)
    → extended (some (appended m o)) os ≡ extended m (o ∷ os)
extended_one none o os = refl
extended_one (some ords) o os = ap some (append_assoc ords (o ∷ []) os)

extended_nil : (m : Option (List ℤ)) → extended m [] ≡ m
extended_nil none = refl
extended_nil (some ords) = rw append-nil

lookup-group_from :
    (m : List (Bytes × List ℤ)) (refs : List NodeRef) (name : Bytes)
    → lookup (group_from m refs) name ≡ extended (lookup m name) (ordinals_of name refs)
unfolding group_from
lookup-group_from m [] name = sym (extended_nil (lookup m name))
lookup-group_from m (ref ∷ refs) name =
    let key = ref.node_set_name in
    let grown = appended (lookup m key) ref.ordinal in
    lookup-group_from (put key grown m) refs name ∙ elim (Bool-cases (key == name)) [
      | inl same ↦
          let e : key ≡ name = (bytes_beq_iff key name).0 same in
          rw (lookup-put, same)
            (ap (λ k. extended (some (appended (lookup m k) ref.ordinal)) (ordinals_of name refs)) e
              ∙ extended_one (lookup m name) ref.ordinal (ordinals_of name refs))
      | inr other ↦ rw (lookup-put, other)
    ]

-- The group of a name holds the ordinals of its references, in order; a name without references
-- has no group.
pub lookup-group_nodes_by_node_set :
    (refs : List NodeRef) (name : Bytes)
    → lookup (group_nodes_by_node_set refs) name ≡ extended none (ordinals_of name refs)
unfolding group_nodes_by_node_set lookup
lookup-group_nodes_by_node_set refs name = lookup-group_from [] refs name
