-- ===== src/Rebooter/Taints.antt =====
-- The NoExecute taint: adding it, taking it away, and what stays.
mod Tests
use text.Mathlib.TextPositions.{eq_refl}
use soperator.Prelude.{
  ◌≡◌, refl, sym, ap, ◌∙◌, Bool, true, false, not, ◌&&◌, ◌||◌, Option, none, some, List, [], ◌∷◌,
  ◌++◌, String, ◌==◌, comparable_string, arith, if◌then◌else◌, Bool-cases, inl, inr, All,
}
use mathlib.Core.List.{append-nil}
use soperator.K8s.{Node, Taint}
use soperator.Rebooter.{
  has_no_execute, other_taints, all_other, is_other_taint, mutate_taints, no_execute_taint,
  no_execute_key, no_execute_effect,
}

has_no_execute-append :
    (taints : List Taint) → has_no_execute (taints ++ no_execute_taint ∷ []) ≡ true
unfolding has_no_execute
has_no_execute-append [] = ground (arith, eq_refl no_execute_key)
has_no_execute-append (t ∷ taints) = ground (arith, has_no_execute-append taints)

pub mutate_taints_adds :
    (base n : Node)
    → mutate_taints true base ≡ some n
    → (n.unschedulable ≡ base.unschedulable) × (has_no_execute n.taints ≡ true)
unfolding mutate_taints
mutate_taints_adds base n e = ground (arith, has_no_execute-append base.taints)

pub mutate_taints-none :
    (base : Node) → mutate_taints true base ≡ none → has_no_execute base.taints ≡ true
unfolding mutate_taints
mutate_taints-none base e = ground arith

-- The node after a change that may be none.
abbrev pub changed_node : Node → Option Node → Node
changed_node n none = n
changed_node n (some n') = n'

other_taints-append :
    (taints : List Taint) → other_taints (taints ++ no_execute_taint ∷ []) ≡ other_taints taints
unfolding other_taints
other_taints-append [] = ground (arith, eq_refl no_execute_key, eq_refl no_execute_effect)
other_taints-append (t ∷ taints) = ground (arith, other_taints-append taints)

all_other_same : (taints : List Taint) → all_other taints ≡ true → other_taints taints ≡ taints
unfolding all_other other_taints
all_other_same [] h = refl
all_other_same (t ∷ taints) h = ground (arith, all_other_same taints)

no_execute-none : (taints : List Taint) → has_no_execute taints ≡ false → all_other taints ≡ true
unfolding has_no_execute all_other
no_execute-none [] h = refl
no_execute-none (t ∷ taints) h = ground (arith, no_execute-none taints)

-- Removing the taint leaves exactly the taints with another key or effect, in order, whether the
-- code writes the node or finds nothing to remove.
mutate_taints_removes :
    (base : Node)
    → changed_node base (mutate_taints false base)
      ≡ record base { taints = other_taints base.taints }
unfolding mutate_taints
mutate_taints_removes base = elim (Bool-cases (all_other base.taints)) [
  | inl none_left ↦
      rw (none_left, mutate_taints)
        (λ i. record base { taints = sym (all_other_same base.taints none_left) i })
  | inr some_left ↦ rw (some_left, mutate_taints) refl
]

untaint_of_tainted :
    (base : Node)
    → changed_node
        (record base { taints = base.taints ++ no_execute_taint ∷ [] })
        (mutate_taints false (record base { taints = base.taints ++ no_execute_taint ∷ [] }))
      ≡ record base { taints = other_taints base.taints }
untaint_of_tainted base =
    mutate_taints_removes (record base { taints = base.taints ++ no_execute_taint ∷ [] })
    ∙ ap (λ ts. record base { taints = ts }) (other_taints-append base.taints)

-- On a node without a taint of the key, tainting it and then untainting it gives the node back.
taint_untaint :
    (base : Node)
    → has_no_execute base.taints ≡ false
    → changed_node
        (changed_node base (mutate_taints true base))
        (mutate_taints false (changed_node base (mutate_taints true base)))
      ≡ base
taint_untaint base h =
    ap (λ o. changed_node (changed_node base o) (mutate_taints false (changed_node base o)))
      (added base h)
    ∙ untaint_of_tainted base
    ∙ ap (λ ts. record base { taints = ts })
        (all_other_same base.taints (no_execute-none base.taints h))
  where
    added :
        (n : Node)
        → has_no_execute n.taints ≡ false
        → mutate_taints true n ≡ some (record n { taints = n.taints ++ no_execute_taint ∷ [] })
    added n e = unfold mutate_taints in rw e
