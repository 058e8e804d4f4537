-- ===== src/PowerManager/ActiveNodes/Tests.antt =====
-- The active set at concrete inputs.
use soperator.Prelude.{
  ◌≡◌, refl, ℤ, pos, negsuc, true, false, List, [], ◌∷◌, comparable_int, ℤ_ord, contains,
  IsAscending,
}
use soperator.PowerManager.ActiveNodes.{new_active_nodes, nodes_status}
use soperator.PowerManager.ActiveNodes.Order.{
  wanted, new_active_nodes_exact, nodes_status-new_active_nodes,
}

resume_keeps_order :
    new_active_nodes true (pos 4 ∷ pos 1 ∷ []) (pos 3 ∷ pos 1 ∷ negsuc 0 ∷ [])
    ≡ negsuc 0 ∷ pos 1 ∷ pos 3 ∷ pos 4 ∷ []
unfolding new_active_nodes
resume_keeps_order = refl

suspend_removes :
    new_active_nodes false (pos 4 ∷ pos 1 ∷ []) (pos 3 ∷ pos 1 ∷ pos 1 ∷ []) ≡ pos 3 ∷ []
unfolding new_active_nodes
suspend_removes = refl

abbrev active : List ℤ
active = pos 3 ∷ pos 1 ∷ []

new_active_nodes_exact_example :
    IsAscending (new_active_nodes true (pos 2 ∷ []) active)
    × ((a : ℤ)
        → contains (new_active_nodes true (pos 2 ∷ []) active) a
          ≡ wanted true (pos 2 ∷ []) active a)
new_active_nodes_exact_example = new_active_nodes_exact true (pos 2 ∷ []) active

nodes_status-new_active_nodes_example :
    nodes_status false (pos 3 ∷ []) (new_active_nodes false (pos 3 ∷ []) active) ≡ true
nodes_status-new_active_nodes_example = nodes_status-new_active_nodes false (pos 3 ∷ []) active
