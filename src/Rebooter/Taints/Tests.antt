-- ===== src/Rebooter/Taints/Tests.antt =====
-- The taint functions at a concrete node.
use soperator.Prelude.{◌≡◌, refl, true, false, [], ◌∷◌, comparable_string}
use soperator.K8s.{Node}
use soperator.Rebooter.{mutate_taints}
use soperator.Rebooter.Taints.{changed_node}

abbrev node : Node
node = record {
  name = "n";
  created = 0;
  unschedulable = false;
  taints = record { key = "gpu"; value = ""; effect = "NoSchedule" } ∷ [];
  conditions = [];
}

untainted_again :
    changed_node
      (changed_node node (mutate_taints true node))
      (mutate_taints false (changed_node node (mutate_taints true node)))
    ≡ node
unfolding mutate_taints
untainted_again = refl
