-- ===== src/RollingUpdate/Tests.antt =====
-- A set of three workers, two of them outdated, and the properties at concrete inputs.
use mathlib.Core.Path.{subst}
use soperator.Prelude.{
  arith, sym, ◌≡◌, refl, ◌≤◌, pos, true, none, some, List, [], ◌∷◌, String, codes,
  comparable_string, comparable_bytes, All,
}
use soperator.Exec.{ok, err, not_found}
use soperator.Exec.Keeps.{Keeps}
use soperator.RollingUpdate.{Pod, WorkerNode, StatefulSet, Client, RebootRequest, ContainerStatus}
use soperator.RollingUpdate.IntOrString.{number, text}
use soperator.RollingUpdate.Decision.{
  reboot_budget, replicas_of, revision_label, worker_operation_phase, container_crash_loop_back_off,
  decide_worker_update_action,
}
use soperator.RollingUpdate.Budget.{reboot_budget_bounds}
use soperator.RollingUpdate.Guards.{IsOutdated}
use soperator.RollingUpdate.Reconcile.{reconcile_rolling_update}
use soperator.RollingUpdate.Reconcile.Safety.{reconcile_rolling_update_safe}

record World : Type 0 where
  deleted : List Pod
  marked : List Pod
  requests : List RebootRequest

abbrev set : StatefulSet
set = record {
  namespace = "soperator";
  name = "worker";
  labels =
      ("app.kubernetes.io/instance", "slurm1")
      ∷ ("slurm.nebius.ai/rolling-update-enabled", "true")
      ∷ [];
  strategy = "OnDelete";
  selector = "worker";
  replicas = some 3;
  max_unavailable = some (number (pos 2));
  updated_replicas = 1;
  ready_replicas = 3;
  update_revision = "v2";
}

abbrev pod : String → String → List ContainerStatus → Pod
pod name revision statuses = record {
  namespace = "soperator";
  name = codes name;
  labels = (revision_label, revision) ∷ [];
  conditions = ("Ready", "True") ∷ [];
  init_statuses = [];
  statuses = statuses;
}

abbrev crashing : List ContainerStatus
crashing = (record { name = "slurmd"; waiting = some "CrashLoopBackOff" }) ∷ []

abbrev node : String → List String → WorkerNode
node name states = record {
  name = codes name;
  states = states;
  reason = none;
  alloc_cpus = some (pos 0);
  alloc_memory = some (pos 0);
}

abbrev client : Client World
client = record {
  get_stateful_set = λ ns n w. (ok set, w);
  as_selector = λ sel. ok sel;
  list_pods = λ ns sel w.
      (ok (pod "worker-2" "v1" [] ∷ pod "worker-1" "v1" crashing ∷ pod "worker-0" "v2" [] ∷ []), w);
  delete_pod = λ p w. (ok tt, record w { deleted = p ∷ w.deleted });
  patch_pod = λ base p w. (ok tt, record w { marked = p ∷ w.marked });
  has_cluster = λ c w. true;
  list_nodes = λ c w. (
    ok (
        node "worker-0" ("IDLE" ∷ [])
        ∷ node "worker-1" ("DOWN" ∷ [])
        ∷ node "worker-2" ("MIXED" ∷ [])
        ∷ []),
    w,
  );
  undrain_node = λ c n w. (ok tt, w);
  reboot_nodes = λ c r w. (ok tt, record w { requests = r ∷ w.requests });
  scaled = λ v total. elim v [ number n ↦ ok n | text t ↦ err not_found ];
}

abbrev start : World
start = record { deleted = []; marked = []; requests = [] }

-- The offline pod is deleted and uses one place of the budget, so that one node is rebooted.
runs : reconcile_rolling_update client "soperator" "worker" start ≡ (
  ok 60,
  record {
    deleted = pod "worker-1" "v1" crashing ∷ [];
    marked =
        (record {
          namespace = "soperator";
          name = codes "worker-2";
          labels =
              (revision_label, "v1")
              ∷ ("slurm.nebius.ai/worker-operation-id", "v2")
              ∷ ("slurm.nebius.ai/worker-operation-phase", "stopping")
              ∷ [];
          conditions = ("Ready", "True") ∷ [];
          init_statuses = [];
          statuses = [];
        })
        ∷ [];
    requests =
        (record {
          node_list = codes "worker-2";
          asap = true;
          reason = codes "soperator rolling update";
          power_action = "soperator-worker-handoff";
        })
        ∷ [];
  },
)
unfolding reconcile_rolling_update worker_operation_phase container_crash_loop_back_off
    decide_worker_update_action
runs = refl

-- Only outdated pods were deleted.
abbrev OnlyOutdated : World → Type 0
OnlyOutdated w = All (IsOutdated set) w.deleted

reconcile_rolling_update_safe_example :
    Keeps OnlyOutdated (reconcile_rolling_update client "soperator" "worker")
reconcile_rolling_update_safe_example =
    reconcile_rolling_update_safe client "soperator" "worker" OnlyOutdated
      (record { at = λ w h. h })
      (λ sts cluster_name read enabled named. record {
        list_pods_keeps = λ ns sel. record { at = λ w h. h };
        list_nodes_keeps = record { at = λ w h. h };
        delete_keeps = λ p may. record {
          at = λ w h. (subst (λ t. IsOutdated t p) (sym (the_set sts read)) may.0, h);
        };
        undrain_keeps = λ n may. record { at = λ w h. h };
        patch_keeps = λ p n may. record { at = λ w h. h };
        reboot_keeps = λ r may. record { at = λ w h. h };
      })
  where
    the_set :
        (sts : StatefulSet)
        → ((s : World) × ((client.get_stateful_set "soperator" "worker" s).0 ≡ ok sts))
        → set ≡ sts
    the_set sts (s, e) = ground (arith, e)

reboot_budget_bounds_example :
    (reboot_budget client set ≤ replicas_of set)
    × (1 ≤ replicas_of set → 1 ≤ reboot_budget client set)
reboot_budget_bounds_example = reboot_budget_bounds client set
