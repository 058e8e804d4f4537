-- ===== src/ActiveChecks/Tests.antt =====
-- A run with a failed job, a running one and one that the accounting does not know, and the
-- properties at concrete inputs.
use soperator.Prelude.{
  ℕ, suc, ◌≡◌, refl, true, false, Option, none, some, List, [], ◌∷◌, String, Bytes, codes,
  comparable_bytes, ◌==◌, if◌then◌else◌, All, contains, add,
}
use soperator.Exec.{not_found, err, ok}
use soperator.SoperatorChecks.{ClusterName}
use soperator.ActiveChecks.NodeNames.{get_node_list}
use soperator.ActiveChecks.{SlurmJob, Reactions, ActiveCheck, K8sJob, Client, is_terminal_state}
use soperator.ActiveChecks.React.{execute_reactions, failure_message, id_text}
use soperator.ActiveChecks.React.Posted.{Updated, execute_reactions-All}
use soperator.ActiveChecks.Rounds.{Round, handle_ids, handling}
use soperator.ActiveChecks.Rounds.Answered.{IsRoundOf, handle_ids-IsRoundOf}
use soperator.ActiveChecks.Annotations.{unhandled_ids}
use soperator.Text.{join_commas}
use soperator.ActiveChecks.Annotations.Ids.{unhandled_ids-join_commas}

-- The state counts the posts.
abbrev World : Type 0
World = ℕ

abbrev job : ℕ → String → Option ℕ → SlurmJob
job id state end_time = record {
  id = id;
  name = codes "all-reduce";
  state = state;
  state_reason = codes "NonZeroExitCode";
  submit_time = some 1;
  end_time = end_time;
  nodes = codes "worker-0";
}

abbrev reactions : Reactions
reactions = record { drain_reason_prefix = some (codes "[node_problem]"); comment_prefix = none }

abbrev check : ActiveCheck
check = record {
  name = codes "all-reduce";
  check_type = "slurmJob";
  slurm_cluster_ref_name = "slurm1";
  failure_reactions = some reactions;
  success_reactions = none;
  slurm_jobs_status = record {
    last_run_id = [];
    last_run_name = [];
    last_run_status = "";
    last_run_fail_jobs_and_reasons = [];
    last_run_error_jobs_and_reasons = [];
    last_run_cancelled_jobs = [];
    last_run_submit_time = none;
  };
  k8s_jobs_status = record {
    last_job_schedule_time = none;
    last_job_successful_time = none;
    last_job_name = [];
    last_job_status = "";
  };
}

abbrev k8s_job : K8sJob
k8s_job = record {
  name = codes "all-reduce-1";
  active = 1;
  conditions = [];
  skipped_reason = none;
  final_state_time = none;
  slurm_job_id = some (codes "7,8,9");
  unhandled_slurm_job_id = none;
}

abbrev answer_for : Bytes → List SlurmJob
answer_for id =
    if id == codes "7"
    then job 7 "FAILED" (some 5) ∷ []
    else if id == codes "8"
    then job 8 "RUNNING" none ∷ []
    else []

abbrev client : Client World
client = record {
  get_job = λ ns n w. (ok k8s_job, w);
  get_active_check_name = λ ns n w. (ok (some (codes "all-reduce")), w);
  get_active_check = λ ns n w. (ok check, w);
  get_cron_job = λ ns n w. (err not_found, w);
  update_status = λ c w. (ok tt, w);
  patch_job = λ base obj w. (ok tt, w);
  now = λ w. w;
  has_cluster = λ c w. true;
  get_jobs_by_id_from_accounting = λ c id w. (ok (answer_for id), w);
  post_node = λ c n reason st comment w. (ok (some []), suc w);
}

abbrev cluster : ClusterName
cluster = record { namespace = "soperator"; name = "slurm1" }

abbrev ids : List Bytes
ids = codes "7" ∷ codes "8" ∷ codes "9" ∷ []

abbrev empty_round : ℕ → Round
empty_round last = record {
  fails = [];
  errors = [];
  cancelled = [];
  job_name = [];
  submit_time = none;
  requeue = false;
  unhandled = [];
  latest = last;
}

-- The failed job drains its node, and the other two are left.
abbrev result : Round
result = record {
  fails = (record { job_id = codes "7"; reason = codes "NonZeroExitCode" }) ∷ [];
  errors = [];
  cancelled = [];
  job_name = codes "all-reduce";
  submit_time = some 1;
  requeue = true;
  unhandled = codes "8" ∷ codes "9" ∷ [];
  latest = 5;
}

round_lem : handle_ids client cluster check (codes "7") 0 ids (empty_round 0) 0 ≡ (ok result, 1)
unfolding handle_ids handling is_terminal_state id_text add contains get_node_list
round_lem = refl

handle_ids-IsRoundOf_example :
    IsRoundOf client cluster check (codes "7") 0 ids (empty_round 0) result
unfolding handle_ids handling is_terminal_state id_text add contains get_node_list
handle_ids-IsRoundOf_example =
    handle_ids-IsRoundOf client cluster check (codes "7") 0 ids (empty_round 0) result 0 refl

execute_reactions-All_example :
    (nodes : List Bytes) × (get_node_list (codes "worker-0") ≡ ok nodes)
    × All (Updated client cluster reactions (failure_message (codes "all-reduce") 7)) nodes
unfolding execute_reactions get_node_list
execute_reactions-All_example =
    execute_reactions-All client cluster (job 7 "FAILED" (some 5)) (codes "all-reduce") reactions 0
      refl refl

-- A failed job that ended before one that was handled earlier is passed over: no node is drained.
passed_over :
    handle_ids client cluster check (codes "7") 6 (codes "7" ∷ []) (empty_round 6) 0
    ≡ (ok (record (empty_round 6) { job_name = codes "all-reduce"; submit_time = some 1 }), 0)
unfolding handle_ids handling is_terminal_state id_text contains
passed_over = refl

unhandled_ids-join_commas_example : unhandled_ids (join_commas ids) ≡ ids
unhandled_ids-join_commas_example =
    unhandled_ids-join_commas ids ((refl, tt), ((refl, tt), ((refl, tt), tt)))

node_names :
    get_node_list (codes "worker-[0-2,010],gpu-3")
    ≡ ok (
        codes "worker-0"
        ∷ codes "worker-1"
        ∷ codes "worker-2"
        ∷ codes "worker-010"
        ∷ codes "gpu-3"
        ∷ [])
unfolding get_node_list
node_names = refl
