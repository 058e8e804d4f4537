-- ===== src/ActiveChecks/Rounds.antt =====
-- One round over the jobs of a run of an active check
-- (internal/controller/soperatorchecks/activecheck_jobs_controller.go).
pub mod Summary
pub mod Due
pub mod Answered
use soperator.Prelude.{
  ℕ, Bool, true, false, not, ◌||◌, comparable_bytes, ◌==◌, ltb, leb, Option, none, some, List, [],
  ◌∷◌, ◌++◌, Bytes, add, if◌then◌else◌,
}
use soperator.Exec.{Result, ok, err, Exec, pure, raise, attempt, wrapped, ◌>>=◌, ◌>>◌}
use soperator.SoperatorChecks.{ClusterName}
use soperator.ActiveChecks.{
  SlurmJob, JobAndReason, ActiveCheck, Client, is_failed_state, is_completed_state,
  is_cancelled_state, is_terminal_state,
}
use soperator.ActiveChecks.React.{id_text, execute_reactions}

-- The variables of the loops.
pub record Round : Type 0 where
  pub fails : List JobAndReason
  pub errors : List JobAndReason
  pub cancelled : List Bytes
  pub job_name : Bytes
  pub submit_time : Option ℕ
  pub requeue : Bool
  pub unhandled : List Bytes
  pub latest : ℕ

-- What the loop does with a job.
pub data Handling : Type 0 where
  unfinished seen_before failed cancelled_job completed other : Handling

abbrev pub handling_of_state : SlurmJob → Handling
handling_of_state job =
    if is_failed_state job
    then failed
    else if is_cancelled_state job
    then cancelled_job
    else if is_completed_state job
    then completed
    else other

abbrev pub handling_at : ℕ → SlurmJob → Bool → Option ℕ → Handling
handling_at last job terminal none = unfinished
handling_at last job false (some end_time) = unfinished
handling_at last job true (some end_time) =
    if leb end_time last then seen_before else handling_of_state job

-- `last` is the time of the last final state that was handled in an earlier reconcile.
unfoldable pub handling : ℕ → SlurmJob → Handling
unfolding is_terminal_state
handling last job = handling_at last job (is_terminal_state job) job.end_time

abbrev pub left_unhandled : Bytes → Round → Round
left_unhandled id round = record round { unhandled = add id round.unhandled; requeue = true }

abbrev pub max_time : Option ℕ → ℕ → ℕ
max_time none latest = latest
max_time (some end_time) latest = if ltb latest end_time then end_time else latest

abbrev pub job_and_reason : SlurmJob → JobAndReason
job_and_reason job = record { job_id = id_text job.id; reason = job.state_reason }

abbrev pub noted : Handling → Bytes → SlurmJob → Round → Round
noted unfinished id job round = left_unhandled id round
noted seen_before id job round = round
noted failed id job round = record round {
  fails = round.fails ++ job_and_reason job ∷ [];
  latest = max_time job.end_time round.latest;
}
noted cancelled_job id job round = record round {
  cancelled = round.cancelled ++ id_text job.id ∷ [];
  latest = max_time job.end_time round.latest;
}
noted completed id job round = record round { latest = max_time job.end_time round.latest }
noted other id job round = record round {
  errors = round.errors ++ job_and_reason job ∷ [];
  latest = max_time job.end_time round.latest;
}

-- The name and the time of the run are those of its first job.
abbrev pub named : Bytes → SlurmJob → Round → Round
named first job round =
    let is_first = id_text job.id == first in
    record round {
      job_name = if is_first then job.name else round.job_name;
      submit_time = if is_first then job.submit_time else round.submit_time;
    }

module _ {S : Type 0} (client : Client S) (cluster : ClusterName) (check : ActiveCheck)
    (first : Bytes) (last : ℕ) where
  abbrev pub reaction : Handling → SlurmJob → Exec S (Unit {0})
  reaction failed job =
      wrapped "executing failure reactions"
        (execute_reactions client cluster job check.name check.failure_reactions)
  reaction completed job =
      wrapped "executing success reactions"
        (execute_reactions client cluster job check.name check.success_reactions)
  reaction unfinished job = pure tt
  reaction seen_before job = pure tt
  reaction cancelled_job job = pure tt
  reaction other job = pure tt

  -- The loop over the jobs of one ID.
  unfoldable pub handle_jobs : Bytes → List SlurmJob → Round → Exec S Round
  unfolding handling execute_reactions id_text
  handle_jobs id [] round = pure round
  handle_jobs id (job ∷ jobs) round = do
    reaction (handling last job) job
    handle_jobs id jobs (noted (handling last job) id job (named first job round))

  abbrev pub handle_answer : Bytes → Result (List SlurmJob) → Round → Exec S Round
  handle_answer id (err e) round = pure (left_unhandled id round)
  handle_answer id (ok []) round = pure (left_unhandled id round)
  handle_answer id (ok (job ∷ jobs)) round = handle_jobs id (job ∷ jobs) round

  -- The loop over the IDs that are not handled yet.
  unfoldable pub handle_ids : List Bytes → Round → Exec S Round
  unfolding handle_jobs
  handle_ids [] round = pure round
  handle_ids (id ∷ ids) round = do
    r ← attempt (client.get_jobs_by_id_from_accounting cluster id)
    round' ← handle_answer id r round
    handle_ids ids round'
