-- ===== src/Rebooter/Reconcile/Tests.antt =====
-- A node, its pods and a reboot counter as a world of their own, and a reconcile in it.
use soperator.Prelude.{ℕ, suc, ◌≡◌, refl, inr, false, List, [], ◌∷◌, comparable_string}
use soperator.Exec.{Result, ok}
use soperator.K8s.{Node, NodeCondition, condition_true}
use soperator.Rebooter.{Pod, evict, Params, Client}
use soperator.Rebooter.Reconcile.{reconcile}
use soperator.Rebooter.Reconcile.Api.{merged_spec, merged_status, View, IsApi}
use soperator.Rebooter.Reconcile.Safety.{Final, reconcile_safe}

record World : Type 0 where
  node : Node
  reboots : ℕ
  pods : List Pod

abbrev local : Client World
local = record {
  cached_node = λ n w. (ok w.node, w);
  latest_node = λ n w. (ok w.node, w);
  patch_spec = λ base n w. (ok (merged_spec base n), record w { node = merged_spec base n });
  patch_status = λ base n w. (ok (merged_status base n), record w { node = merged_status base n });
  pods_on_node = λ n w. (ok w.pods, w);
  reboot_command = λ w. (ok tt, record w { reboots = suc w.reboots });
  start_time = λ w. (ok 5, w);
  now = λ w. 20;
  retry_on_conflict = λ m. m;
}

abbrev world_view : View World
world_view = record { stored = λ w. w.node; reboots = λ w. w.reboots; running = λ w. w.pods }

pub ok_injective : {A : Type 0} (a b : A) → ◌≡◌ {A = Result A} (ok a) (ok b) → a ≡ b
ok_injective a b e = cc

abbrev local_api : IsApi local world_view
local_api = record {
  cached_law = λ n w. (refl, refl, λ h. h);
  latest_law = λ n w. ((refl, refl, λ h. h), λ x e. ok_injective w.node x e);
  pods_law = λ n w. ((refl, refl, λ h. h), λ pods e. ok_injective w.pods pods e);
  start_law = λ w. (refl, refl, λ h. h);
  spec_law = λ base n w h. (refl, refl, refl, λ c. c);
  status_law = λ base n w h. (refl, refl, refl, λ c. c);
  reboot_law = λ w. (refl, inr refl, λ c. c);
  retry_law = λ P Q m h. h;
}

abbrev params : Params
params = record { reconcile_timeout = 60; node_name = "n"; eviction_method = evict }

abbrev asked : NodeCondition
asked = record {
  kind = "SlurmNodeReboot";
  status = condition_true;
  reason = "NodeNeedReboot";
  message = "";
  last_transition = 10;
  last_heartbeat = 10;
}

abbrev with_pods : List Pod → World
with_pods pods = record {
  node = record {
    name = "n";
    created = 0;
    unschedulable = false;
    taints = [];
    conditions = asked ∷ [];
  };
  reboots = 0;
  pods = pods;
}

abbrev daemon : Pod
daemon = record { name = "cni"; owner_kinds = "DaemonSet" ∷ []; tolerations = [] }

abbrev worker : Pod
worker = record { name = "worker-0"; owner_kinds = "StatefulSet" ∷ []; tolerations = [] }

reboots_when_calm : (reconcile local params (with_pods (daemon ∷ []))).1.reboots ≡ 1
unfolding reconcile
reboots_when_calm = refl

waits_for_worker : (reconcile local params (with_pods (worker ∷ []))).1.reboots ≡ 0
unfolding reconcile
waits_for_worker = refl

requeues_for_worker : (reconcile local params (with_pods (worker ∷ []))).0 ≡ ok 60
unfolding reconcile
requeues_for_worker = refl

reconcile_safe_example :
    Final world_view evict 0 (reconcile local params (with_pods (daemon ∷ []))).1
reconcile_safe_example = reconcile_safe params local_api (with_pods (daemon ∷ []))
