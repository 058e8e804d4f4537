-- ===== src/SoperatorChecks/Conditions/Heartbeat.antt =====
-- What a second write of a condition does.
use soperator.Prelude.{◌≡◌, ◌&&◌, ◌==◌, comparable_string, true, some, String}
use soperator.Exec.{ok}
use soperator.K8s.{Node, NodeCondition, find_condition}
use soperator.SoperatorChecks.{Client}
use soperator.SoperatorChecks.Conditions.{set_k8s_node_condition}

-- If the API changes nothing for an object without a difference, then setting a condition that
-- the node has with the same status and reason changes nothing at all: the state after the node
-- was read is the last one, and no heartbeat reaches the API.
pub set_k8s_node_condition_same :
    {S : Type 0} (client : Client S) (name : String) (condition cond : NodeCondition) (node : Node)
    (s t : S)
    → ((n : Node) (u : S) → client.patch_status n n u ≡ (ok (tt {0}), u))
    → client.get_node name s ≡ (ok node, t)
    → find_condition condition.kind node.conditions ≡ some cond
    → (cond.status == condition.status && cond.reason == condition.reason) ≡ true
    → set_k8s_node_condition client name condition s ≡ (ok tt, t)
unfolding set_k8s_node_condition
set_k8s_node_condition_same client name condition cond node s t empty got found same =
    rw (got, found, same) (empty _ t)
