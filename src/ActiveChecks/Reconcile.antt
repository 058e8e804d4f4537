-- ===== src/ActiveChecks/Reconcile.antt =====
-- The reconcile of a Kubernetes Job of an active check
-- (internal/controller/soperatorchecks/activecheck_jobs_controller.go). The value tells whether the
-- reconcile is to be repeated after a while.
use soperator.Prelude.{
  ℕ, Bool, true, false, not, ◌&&◌, comparable_string, comparable_bytes, ◌==◌, ltb, Option, none,
  some, [], String, Bytes, codes, if◌then◌else◌,
}
use soperator.Exec.{
  Err, message, wrap, Result, ok, err, Exec, pure, raise, attempt, wrapped, lifted, ◌>>=◌, ◌>>◌,
  is_not_found,
}
use soperator.ActiveChecks.Annotations.{
  split_at, unhandled_ids, first_id, or_all, last_final_state_time, is_final,
}
use soperator.Text.{join_commas}
use soperator.SoperatorChecks.{ClusterName}
use soperator.ActiveChecks.{
  SlurmJobsStatus, K8sJobsStatus, ActiveCheck, K8sJob, CronJob, Client, get_k8s_job_status,
  derive_slurm_run_status,
}
use soperator.ActiveChecks.React.{id_text}
use soperator.ActiveChecks.Rounds.{Round, handle_ids}

-- The lists go on where the last reconcile of the same run stopped.
unfoldable pub first_round : SlurmJobsStatus → Bytes → ℕ → Round
first_round status first last =
    let same = status.last_run_id == first in
    record {
      fails = if same then status.last_run_fail_jobs_and_reasons else [];
      errors = if same then status.last_run_error_jobs_and_reasons else [];
      cancelled = if same then status.last_run_cancelled_jobs else [];
      job_name = [];
      submit_time = none;
      requeue = false;
      unhandled = [];
      latest = last;
    }

unfoldable pub patched_job : K8sJob → ℕ → Round → K8sJob
unfolding join_commas id_text
patched_job job last round = record job {
  unhandled_slurm_job_id = some (join_commas round.unhandled);
  final_state_time =
      if ltb last round.latest then some (id_text round.latest) else job.final_state_time;
}

unfoldable pub status_of : Bytes → Round → SlurmJobsStatus
status_of first round = record {
  last_run_id = first;
  last_run_name = round.job_name;
  last_run_status = derive_slurm_run_status round.requeue round.fails round.errors round.cancelled;
  last_run_fail_jobs_and_reasons = round.fails;
  last_run_error_jobs_and_reasons = round.errors;
  last_run_cancelled_jobs = round.cancelled;
  last_run_submit_time = round.submit_time;
}

-- The status of a run that has no Slurm job.
abbrev pub no_slurm_job : K8sJob → CronJob → String → SlurmJobsStatus
no_slurm_job job cron status = record {
  last_run_id = codes "No slurm job";
  last_run_name = job.name;
  last_run_status = status;
  last_run_fail_jobs_and_reasons = [];
  last_run_error_jobs_and_reasons = [];
  last_run_cancelled_jobs = [];
  last_run_submit_time = cron.last_schedule_time;
}

abbrev pub with_status : ActiveCheck → SlurmJobsStatus → ActiveCheck
with_status check status = record check { slurm_jobs_status = status }

-- Pointers to times: two that are not nil are never the same.
abbrev pub same_pointers : Option ℕ → Option ℕ → Bool
same_pointers none none = true
same_pointers none (some t) = false
same_pointers (some t) u = false

abbrev pub same_status : K8sJobsStatus → K8sJobsStatus → Bool
same_status new current =
    same_pointers new.last_job_schedule_time current.last_job_schedule_time
    && same_pointers new.last_job_successful_time current.last_job_successful_time
    && new.last_job_name == current.last_job_name
    && new.last_job_status == current.last_job_status

module _ {S : Type 0} (client : Client S) where
  unfoldable pub process_run : ClusterName → K8sJob → ActiveCheck → Bytes → Bytes → ℕ → Exec S Bool
  unfolding handle_ids first_round patched_job status_of unhandled_ids
  process_run cluster job check first old last = do
    round ←
        handle_ids client cluster check first last (unhandled_ids old)
          (first_round check.slurm_jobs_status first last)
    wrapped "failed to patch k8s Job" (client.patch_job job (patched_job job last round))
    wrapped "reconciling ActiveCheckJob"
        (client.update_status (with_status check (status_of first round)))
    pure round.requeue

  -- A Job without the annotation is left alone: the error that is returned is nil.
  unfoldable pub process_ids : ClusterName → K8sJob → ActiveCheck → Option Bytes → Exec S Bool
  unfolding process_run last_final_state_time split_at
  process_ids cluster job check none = pure false
  process_ids cluster job check (some all) = do
    last ← lifted (last_final_state_time job.final_state_time)
    process_run cluster job check (first_id (split_at b',' all))
        (or_all job.unhandled_slurm_job_id all) last

  unfoldable pub process_skipped : K8sJob → ActiveCheck → CronJob → Exec S Bool
  unfolding get_k8s_job_status id_text
  process_skipped job check cron s =
      if is_final job.final_state_time
      then pure false s
      else if not (get_k8s_job_status job == "Complete") && not (get_k8s_job_status job == "Failed")
      then pure true s
      else (do
        wrapped "updating ActiveCheck status to Skipped"
            (client.update_status (with_status check (no_slurm_job job cron "Skipped")))
        stamp_final_time job
        pure false)
          s
    where
      stamp_final_time : K8sJob → Exec S (Unit {0})
      stamp_final_time job t =
          wrapped "patching k8s Job final-state-time"
            (client.patch_job job (record job { final_state_time = some (id_text (client.now t)) }))
            t

  unfoldable pub process_slurm_job :
      String → K8sJob → ActiveCheck → CronJob → Option Bytes → Exec S Bool
  unfolding process_skipped process_ids
  process_slurm_job namespace job check cron (some reason) s = process_skipped job check cron s
  process_slurm_job namespace job check cron none s =
      let cluster : ClusterName = record {
        namespace = namespace;
        name = check.slurm_cluster_ref_name;
      } in
      if get_k8s_job_status job == "Failed"
      then (do
        wrapped "reconciling ActiveCheckJob"
            (client.update_status (with_status check (no_slurm_job job cron "Error")))
        pure false)
          s
      else if not (client.has_cluster cluster s)
      then raise (message "slurm cluster not found") s
      else process_ids cluster job check job.slurm_job_id s

  unfoldable pub process_k8s_job : K8sJob → ActiveCheck → CronJob → Exec S Bool
  unfolding get_k8s_job_status
  process_k8s_job job check cron =
      let status : K8sJobsStatus = record {
        last_job_schedule_time = cron.last_schedule_time;
        last_job_successful_time = cron.last_successful_time;
        last_job_name = job.name;
        last_job_status = get_k8s_job_status job;
      } in
      if same_status status check.k8s_jobs_status then pure false else (do
        wrapped "reconciling ActiveCheckJob"
            (client.update_status (record check { k8s_jobs_status = status }))
        pure false)

  unfoldable pub process_check : String → K8sJob → ActiveCheck → CronJob → Exec S Bool
  unfolding process_slurm_job process_k8s_job
  process_check namespace job check cron =
      if check.check_type == "slurmJob"
      then process_slurm_job namespace job check cron job.skipped_reason
      else if check.check_type == "k8sJob"
      then process_k8s_job job check cron
      else pure false

  -- An object that is not there ends the reconcile.
  abbrev pub if_found : {A : Type 0} → (Err → Err) → Result A → (A → Exec S Bool) → Exec S Bool
  if_found told (ok a) next = next a
  if_found told (err e) next = if is_not_found e then pure false else raise (told e)

  abbrev pub if_named : Option Bytes → (Bytes → Exec S Bool) → Exec S Bool
  if_named none next = pure false
  if_named (some name) next = next name

  unfoldable pub reconcile_job : String → Bytes → Exec S Bool
  unfolding process_check
  reconcile_job namespace name = do
    found_job ← attempt (client.get_job namespace name)
    if_found (wrap "get active check job") found_job (λ job. do
      check_name ← client.get_active_check_name namespace job.name
      if_named check_name (λ n. do
        found_check ← attempt (client.get_active_check namespace n)
        if_found (λ e. e) found_check
            (λ check. do
              found_cron ← attempt (client.get_cron_job namespace n)
              if_found (λ e. e) found_cron (process_check namespace job check))))
