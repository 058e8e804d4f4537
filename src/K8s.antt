-- ===== src/K8s.antt =====
-- The Kubernetes objects that the controllers share: nodes with their conditions and taints. Times are numbers of the API server's clock.
pub mod Upsert
mod Tests
use soperator.Prelude.{
  ℕ, Bool, ◌&&◌, Option, none, some, List, [], ◌∷◌, String, ◌==◌, comparable_string, if◌then◌else◌,
}

-- `corev1.NodeCondition`; `kind` is its field `Type`.
pub record NodeCondition : Type 0 where
  pub kind : String
  pub status : String
  pub reason : String
  pub message : String
  pub last_transition : ℕ
  pub last_heartbeat : ℕ

pub record Taint : Type 0 where
  pub key : String
  pub value : String
  pub effect : String

pub record Node : Type 0 where
  pub name : String
  pub created : ℕ
  pub unschedulable : Bool
  pub taints : List Taint
  pub conditions : List NodeCondition

abbrev pub condition_true : String
condition_true = "True"

abbrev pub condition_false : String
condition_false = "False"

-- The first condition of a type.
unfoldable pub find_condition : String → List NodeCondition → Option NodeCondition
find_condition kind [] = none
find_condition kind (cond ∷ conds) =
    if cond.kind == kind then some cond else find_condition kind conds

-- The loop of `SetNodeConditionIfNotExists` over the conditions of the node.
unfoldable pub upsert_condition : NodeCondition → List NodeCondition → List NodeCondition
upsert_condition new [] = new ∷ []
upsert_condition new (cond ∷ conds) =
    if cond.kind == new.kind
    then (if cond.status == new.status && cond.reason == new.reason
        then record new { last_transition = cond.last_transition }
        else new)
      ∷ conds
    else cond ∷ upsert_condition new conds
