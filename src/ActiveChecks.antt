-- ===== src/ActiveChecks.antt =====
-- The jobs of active checks and what is done about their results
-- (internal/controller/soperatorchecks/activecheck_jobs_controller.go, internal/slurmapi/job.go).
-- The clients are parameters.
pub mod Annotations
pub mod NodeNames
pub mod React
pub mod Rounds
pub mod Reconcile
mod Tests
use soperator.Prelude.{
  ℕ, Bool, true, false, ◌||◌, comparable_string, ◌==◌, Option, List, String, Bytes, contains, [],
  ◌∷◌, none, some, ltb, if◌then◌else◌,
}
use soperator.Exec.{Exec, Result}
use soperator.SoperatorChecks.{ClusterName}

-- The fields of `slurmapi.Job` that the controller reads; a time is in seconds.
pub record SlurmJob : Type 0 where
  pub id : ℕ
  pub name : Bytes
  pub state : String
  pub state_reason : Bytes
  pub submit_time : Option ℕ
  pub end_time : Option ℕ
  pub nodes : Bytes

-- `Reactions`: the prefixes, where a reaction is set.
pub record Reactions : Type 0 where
  pub drain_reason_prefix : Option Bytes
  pub comment_prefix : Option Bytes

pub record JobAndReason : Type 0 where
  pub job_id : Bytes
  pub reason : Bytes

-- `ActiveCheckSlurmJobsStatus`, and `ActiveCheckK8sJobsStatus` below, without their times of
-- transition.
pub record SlurmJobsStatus : Type 0 where
  pub last_run_id : Bytes
  pub last_run_name : Bytes
  pub last_run_status : String
  pub last_run_fail_jobs_and_reasons : List JobAndReason
  pub last_run_error_jobs_and_reasons : List JobAndReason
  pub last_run_cancelled_jobs : List Bytes
  pub last_run_submit_time : Option ℕ

pub record K8sJobsStatus : Type 0 where
  pub last_job_schedule_time : Option ℕ
  pub last_job_successful_time : Option ℕ
  pub last_job_name : Bytes
  pub last_job_status : String

pub record ActiveCheck : Type 0 where
  pub name : Bytes
  pub check_type : String
  pub slurm_cluster_ref_name : String
  pub failure_reactions : Option Reactions
  pub success_reactions : Option Reactions
  pub slurm_jobs_status : SlurmJobsStatus
  pub k8s_jobs_status : K8sJobsStatus

-- A Kubernetes Job: its status and the annotations that the controller reads and writes.
pub record K8sJob : Type 0 where
  pub name : Bytes
  pub active : ℕ
  pub conditions : List (String × String)
  pub skipped_reason : Option Bytes
  pub final_state_time : Option Bytes
  pub slurm_job_id : Option Bytes
  pub unhandled_slurm_job_id : Option Bytes

pub record CronJob : Type 0 where
  pub last_schedule_time : Option ℕ
  pub last_successful_time : Option ℕ

-- The clients. `get_active_check_name` is the annotation of the first pod of the Job, if there is
-- one; `post_node` answers the errors in the body of the response, or nothing without a body.
pub record Client (S : Type 0) : Type 0 where
  pub get_job : String → Bytes → Exec S K8sJob
  pub get_active_check_name : String → Bytes → Exec S (Option Bytes)
  pub get_active_check : String → Bytes → Exec S ActiveCheck
  pub get_cron_job : String → Bytes → Exec S CronJob
  pub update_status : ActiveCheck → Exec S (Unit {0})
  pub patch_job : K8sJob → K8sJob → Exec S (Unit {0})
  pub now : S → ℕ
  pub has_cluster : ClusterName → S → Bool
  pub get_jobs_by_id_from_accounting : ClusterName → Bytes → Exec S (List SlurmJob)
  pub post_node :
      ClusterName
      → Bytes
      → Option Bytes
      → Option String
      → Option Bytes
      → Exec S (Option (List String))

abbrev pub is_failed_state : SlurmJob → Bool
is_failed_state job = job.state == "FAILED"

abbrev pub is_completed_state : SlurmJob → Bool
is_completed_state job = job.state == "COMPLETED"

abbrev pub is_cancelled_state : SlurmJob → Bool
is_cancelled_state job = job.state == "CANCELLED"

abbrev pub terminal_states : List String
terminal_states =
    "FAILED" ∷ "CANCELLED" ∷ "TIMEOUT" ∷ "OUT_OF_MEMORY" ∷ "BOOT_FAIL" ∷ "DEADLINE"
    ∷ "LAUNCH_FAILED" ∷ "NODE_FAIL" ∷ "PREEMPTED" ∷ "RECONFIG_FAIL" ∷ "REVOKED" ∷ "SPECIAL_EXIT"
    ∷ "COMPLETED" ∷ "STOPPED" ∷ []

unfoldable pub is_terminal_state : SlurmJob → Bool
unfolding contains
is_terminal_state job = contains terminal_states job.state

-- `getK8sJobStatus`
abbrev pub status_of_kind : String → Option String
status_of_kind kind =
    if kind == "Complete" || kind == "SuccessCriteriaMet"
    then some "Complete"
    else if kind == "Failed" || kind == "FailureTarget"
    then some "Failed"
    else if kind == "Suspended"
    then some "Suspended"
    else none

abbrev pub first_status : Option String → String → String
first_status (some status) later = status
first_status none later = later

unfoldable pub status_of_conditions : List (String × String) → String
status_of_conditions [] = "Unknown"
status_of_conditions ((kind, status) ∷ conditions) =
    first_status (if status == "True" then status_of_kind kind else none)
      (status_of_conditions conditions)

abbrev pub status_or_pending : List (String × String) → String
status_or_pending [] = "Pending"
status_or_pending (cond ∷ conditions) = status_of_conditions (cond ∷ conditions)

unfoldable pub get_k8s_job_status : K8sJob → String
unfolding status_of_conditions
get_k8s_job_status job = if ltb 0 job.active then "Active" else status_or_pending job.conditions

-- `deriveSlurmRunStatus`
abbrev pub derive_slurm_run_status :
    Bool → List JobAndReason → List JobAndReason → List Bytes → String
derive_slurm_run_status true fails errors cancelled = "InProgress"
derive_slurm_run_status false (f ∷ fails) errors cancelled = "Failed"
derive_slurm_run_status false [] (e ∷ errors) cancelled = "Error"
derive_slurm_run_status false [] [] (c ∷ cancelled) = "Cancelled"
derive_slurm_run_status false [] [] [] = "Complete"
