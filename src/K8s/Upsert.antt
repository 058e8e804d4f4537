-- ===== src/K8s/Upsert.antt =====
-- Setting a condition: the one of its type is renewed, the others stay.
use soperator.Prelude.{
  ◌≡◌, refl, ◌&&◌, Option, none, some, List, [], ◌∷◌, String, ◌==◌, comparable_string,
  if◌then◌else◌, arith,
}
use soperator.K8s.{NodeCondition, find_condition, upsert_condition}

-- The condition that replaces an old one keeps its transition time, if neither the status nor the
-- reason has changed.
abbrev pub renewed : Option NodeCondition → NodeCondition → NodeCondition
renewed none new = new
renewed (some old) new =
    if old.status == new.status && old.reason == new.reason
    then record new { last_transition = old.last_transition }
    else new

-- After a condition is set, the first one of its type is the new one, with the old transition time
-- exactly if it replaces one with the same status and reason; the first one of any other type
-- is as before.
pub find_condition-upsert_condition :
    (new : NodeCondition) (conds : List NodeCondition) (kind : String)
    → find_condition kind (upsert_condition new conds) ≡ (
        if new.kind == kind
        then some (renewed (find_condition kind conds) new)
        else find_condition kind conds)
unfolding find_condition upsert_condition
find_condition-upsert_condition new [] kind = refl
find_condition-upsert_condition new (cond ∷ conds) kind = ground (
  arith,
  find_condition-upsert_condition new conds kind,
  comparable_string.equal_iff cond.kind new.kind,
  comparable_string.equal_iff cond.kind kind,
  comparable_string.equal_iff new.kind kind,
)
