-- ===== src/SoperatorChecks/Maintenance/Decisions.antt =====
-- Which condition decides about the maintenance of a node.
use soperator.Prelude.{
  ◌≡◌, refl, true, false, ◌==◌, comparable_string, Option, none, some, List, [], ◌∷◌, ◌++◌, String,
  All, if◌then◌else◌,
}
use soperator.Exec.{Exec}
use soperator.K8s.{Node, NodeCondition, condition_false}
use soperator.SoperatorChecks.Maintenance.{is_watched, maintenance_condition, process_maintenance}

maintenance_condition-unwatched :
    (kind : String) (found : Option NodeCondition) (conds : List NodeCondition)
    → All (λ c. is_watched kind c ≡ false) conds
    → maintenance_condition kind found conds ≡ found
unfolding maintenance_condition
maintenance_condition-unwatched kind found [] h = refl
maintenance_condition-unwatched kind found (c ∷ conds) h =
    rw h.0 (maintenance_condition-unwatched kind found conds h.1)

maintenance_condition-last :
    (kind : String) (found : Option NodeCondition) (before after : List NodeCondition)
    (cond : NodeCondition)
    → is_watched kind cond ≡ true
    → All (λ c. is_watched kind c ≡ false) after
    → maintenance_condition kind found (before ++ cond ∷ after) ≡ some cond
unfolding maintenance_condition
maintenance_condition-last kind found [] after cond h k =
    rw (h, maintenance_condition) (maintenance_condition-unwatched kind (some cond) after k)
maintenance_condition-last kind found (c ∷ before) after cond h k =
    maintenance_condition-last kind (if is_watched kind c then some c else found) before after cond
      h k

-- The last condition of the node of either watched type decides alone: whatever the ones before
-- it say, its status False undrains and any other status drains.
pub process_maintenance_last :
    {S : Type 0} (kind : String) (node : Node) (before after : List NodeCondition)
    (cond : NodeCondition) (drain undrain : Exec S (Unit {0}))
    → node.conditions ≡ before ++ cond ∷ after
    → is_watched kind cond ≡ true
    → All (λ c. is_watched kind c ≡ false) after
    → process_maintenance kind node drain undrain
      ≡ (if cond.status == condition_false then undrain else drain)
unfolding process_maintenance
process_maintenance_last kind node before after cond drain undrain e h k =
    rw (e, maintenance_condition-last kind none before after cond h k) refl
