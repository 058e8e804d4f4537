-- ===== src/K8s/Tests.antt =====
-- Conditions at concrete inputs.
use soperator.Prelude.{◌≡◌, refl, [], ◌∷◌, comparable_string}
use soperator.K8s.{NodeCondition, condition_true, upsert_condition}

abbrev old : NodeCondition
old = record {
  kind = "SlurmNodeDrain";
  status = condition_true;
  reason = "NodeDraining";
  message = "";
  last_transition = 3;
  last_heartbeat = 3;
}

abbrev new : NodeCondition
new = record old { last_transition = 9; last_heartbeat = 9 }

keeps_transition : upsert_condition new (old ∷ []) ≡ record new { last_transition = 3 } ∷ []
unfolding upsert_condition
keeps_transition = refl
