-- ===== src/SoperatorChecks/Tests.antt =====
-- A small cluster, runs of the controller on it, and the properties at concrete inputs.
use soperator.Prelude.{
  some, codes, ◌≡◌, refl, ◌⊎◌, Bool, true, false, ◌&&◌, ◌==◌, comparable_string, comparable_nat,
  equal_refl, List, [], ◌∷◌, ◌++◌, String, if◌then◌else◌, arith,
}
use soperator.Exec.{not_found, err, ok}
use soperator.Exec.Runs.{Runs}
use soperator.K8s.{Node, NodeCondition, find_condition}
use soperator.SoperatorChecks.{SlurmNode, Client, ClusterName, WorkerPod}
use soperator.SoperatorChecks.Conditions.{set_k8s_node_condition}
use soperator.SoperatorChecks.Conditions.Heartbeat.{set_k8s_node_condition_same}
use soperator.SoperatorChecks.Drain.{drain_pods, drain_slurm_nodes_with_condition_update}
use soperator.SoperatorChecks.Drain.Safety.{
  AllDrained, drain_slurm_nodes_with_condition_update_safe,
}
use soperator.SoperatorChecks.Drain.Attempts.{target, drain_pods_all}
use soperator.SoperatorChecks.Degraded.{degraded_node, relabelled}
use soperator.SoperatorChecks.Degraded.Exact.{Classified, degraded_node-Classified}
use soperator.SoperatorChecks.Unhealthy.{process_set_unhealthy}
use soperator.SoperatorChecks.Unhealthy.Safety.{process_set_unhealthy_safe}
use soperator.SoperatorChecks.NodeReconcile.{reconcile_k8s_node}
use soperator.SoperatorChecks.NodeReconcile.Deletion.{ReadForDeletion, reconcile_k8s_node_safe}
use soperator.SoperatorChecks.Maintenance.{process_maintenance, new_node_condition}
use soperator.SoperatorChecks.Maintenance.Decisions.{process_maintenance_last}

record World : Type 0 where
  conditions : List NodeCondition
  posts : List (ClusterName × String)

abbrev conditions_beq : List NodeCondition → List NodeCondition → Bool
conditions_beq [] [] = true
conditions_beq [] (d ∷ ds) = false
conditions_beq (c ∷ cs) [] = false
conditions_beq (c ∷ cs) (d ∷ ds) =
    c.status == d.status
    && c.reason == d.reason
    && c.last_heartbeat == d.last_heartbeat
    && conditions_beq cs ds

conditions_beq_refl : (cs : List NodeCondition) → conditions_beq cs cs ≡ true
conditions_beq_refl [] = refl
conditions_beq_refl (c ∷ cs) = ground (
  arith,
  equal_refl c.status,
  equal_refl c.reason,
  equal_refl c.last_heartbeat,
  conditions_beq_refl cs,
)

abbrev node_of : List NodeCondition → Node
node_of conditions = record {
  name = "node-1";
  created = 1;
  unschedulable = false;
  taints = [];
  conditions = conditions;
}

abbrev pod_0 : WorkerPod
pod_0 = record { namespace = "soperator"; name = "worker-0"; instance = "slurm1" }

abbrev pod_1 : WorkerPod
pod_1 = record { namespace = "soperator"; name = "worker-1"; instance = "slurm1" }

abbrev busy : String → SlurmNode
busy name = record {
  name = name;
  instance_id = "node-1";
  states = "IDLE" ∷ "COMPLETING" ∷ "DRAIN" ∷ [];
  reason =
      some
        (record { reason = codes "fan: [hardware_problem]"; original_reason = []; changed_at = 7 });
  comment = "";
}

-- An epilog runs on every Slurm node, and every post fails.
abbrev client : Client World
client = record {
  get_node = λ n w. (ok (node_of w.conditions), w);
  patch_status = λ base obj w. (
    ok tt,
    if conditions_beq base.conditions obj.conditions
        then w
        else record w { conditions = obj.conditions },
  );
  update_status = λ obj w. (ok tt, record w { conditions = obj.conditions });
  now = λ w. 100;
  list_worker_pods = λ n w. (ok (pod_0 ∷ pod_1 ∷ []), w);
  has_cluster = λ c w. true;
  post_node =
      λ c n r st w. (ok (some ("refused" ∷ [])), record w { posts = w.posts ++ (c, n) ∷ [] });
  get_slurm_node = λ c n w. (ok (busy n), w);
  list_slurm_nodes = λ c w. (ok (busy "worker-0" ∷ busy "worker-1" ∷ []), w);
  get_pod_conditions = λ ns n w. (ok [], w);
  delete_node = λ n w. (err not_found, w);
}

abbrev draining : NodeCondition
draining = new_node_condition "SoperatorChecksNodeDegraded" "True" "NodeNeedReboot" "" 5

abbrev again : NodeCondition
again = new_node_condition "SoperatorChecksNodeDegraded" "True" "NodeNeedReboot" "" 90

abbrev marked : World
marked = record { conditions = draining ∷ []; posts = [] }

abbrev fresh : World
fresh = record { conditions = []; posts = [] }

condition_added : set_k8s_node_condition client "node-1" draining fresh ≡ (ok tt, marked)
unfolding set_k8s_node_condition
condition_added = refl

set_k8s_node_condition_same_example :
    set_k8s_node_condition client "node-1" again marked ≡ (ok tt, marked)
unfolding find_condition
set_k8s_node_condition_same_example =
    set_k8s_node_condition_same client "node-1" again draining (node_of (draining ∷ [])) marked
      marked (λ n u. ground (arith, conditions_beq_refl n.conditions)) refl refl refl

drain_slurm_nodes_with_condition_update_safe_example :
    Runs
      (λ w. w.conditions ≡ [])
      (drain_slurm_nodes_with_condition_update client "node-1" "maintenance" draining)
      (λ a w. (w.conditions ≡ []) ⊎ AllDrained client "node-1")
      (λ w. (w.conditions ≡ []) ⊎ AllDrained client "node-1")
drain_slurm_nodes_with_condition_update_safe_example =
    drain_slurm_nodes_with_condition_update_safe client (λ w. w.conditions ≡ [])
      (λ n. record { at = λ v h. h }) (λ c n r st. record { at = λ v h. h })
      (λ c n. record { at = λ v h. h }) "node-1" "maintenance" draining

drain_pods_all_example :
    (drain_pods client "maintenance" (pod_0 ∷ pod_1 ∷ []) fresh).1.posts
    ≡ target pod_0 ∷ target pod_1 ∷ []
drain_pods_all_example =
    drain_pods_all client (λ w. w.posts) (λ c w. refl) (λ c n r st w. refl)
      (λ c n r st w e. ground (arith, e)) "maintenance" (pod_0 ∷ pod_1 ∷ []) fresh

-- A maintenance is announced, and a later condition says that the hardware is fine.
abbrev announced : List NodeCondition
announced =
    new_node_condition "NebiusMaintenanceScheduled" "True" "" "" 1
    ∷ new_node_condition "HardwareIssuesSuspected" "False" "" "" 1
    ∷ []

process_maintenance_last_example :
    process_maintenance {S = World} "NebiusMaintenanceScheduled"
      (node_of announced)
      (λ w. (ok tt, w))
      (λ w. (ok tt, marked))
    ≡ λ w. (ok tt, marked)
process_maintenance_last_example =
    process_maintenance_last "NebiusMaintenanceScheduled" (node_of announced)
      (new_node_condition "NebiusMaintenanceScheduled" "True" "" "" 1 ∷ []) []
      (new_node_condition "HardwareIssuesSuspected" "False" "" "" 1) (λ w. (ok tt, w))
      (λ w. (ok tt, marked)) refl refl tt

hardware_found :
    degraded_node (busy "worker-0")
    ≡ some (
        relabelled
          (busy "worker-0")
          (record {
            reason = codes "fan: [hardware_problem]";
            original_reason = [];
            changed_at = 7;
          })
          (codes "[hardware_problem]"))
unfolding degraded_node
hardware_found = refl

degraded_node-Classified_example : Classified (busy "worker-0") (degraded_node (busy "worker-0"))
degraded_node-Classified_example = degraded_node-Classified (busy "worker-0")

abbrev slurm1 : ClusterName
slurm1 = record { namespace = "soperator"; name = "slurm1" }

process_set_unhealthy_safe_example :
    Runs
      (λ w. w.conditions ≡ [])
      (process_set_unhealthy client true (node_of []) slurm1 (busy "worker-0") 7)
      (λ a w. (w.conditions ≡ []) ⊎ AllDrained client "node-1")
      (λ w. (w.conditions ≡ []) ⊎ AllDrained client "node-1")
process_set_unhealthy_safe_example =
    process_set_unhealthy_safe client (λ w. w.conditions ≡ []) (λ n. record { at = λ v h. h })
      (λ c n r st. record { at = λ v h. h }) (λ c n. record { at = λ v h. h })
      (λ ns n. record { at = λ v h. h }) true (node_of []) slurm1 (busy "worker-0") 7

reconcile_k8s_node_safe_example :
    Runs
      (λ w. w.posts ≡ [])
      (reconcile_k8s_node client (λ node. false) true 600 "node-1")
      (λ a w. (w.posts ≡ []) ⊎ ReadForDeletion client (λ node. false) true 600 "node-1")
      (λ w. (w.posts ≡ []) ⊎ ReadForDeletion client (λ node. false) true 600 "node-1")
reconcile_k8s_node_safe_example =
    reconcile_k8s_node_safe client (λ w. w.posts ≡ []) (λ n. record { at = λ v h. h })
      (λ base obj. record { at = λ v h. ground (arith, h) }) (λ obj. record { at = λ v h. h })
      (λ node. false) true 600 "node-1"
