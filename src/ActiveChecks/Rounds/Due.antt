-- ===== src/ActiveChecks/Rounds/Due.antt =====
-- What a round does with a job, by its state and its end time.
use mathlib.Core.Path.{ap₂}
use soperator.Prelude.{
  ◌≡◌, refl, ℕ, Bool, true, false, not, ◌&&◌, ◌||◌, ltb, leb, Option, none, some, List, [], ◌∷◌,
  ◌++◌, Bytes, comparable_bytes, comparable_string, ◌==◌, Bool-cases, inl, inr, arith,
  if◌then◌else◌,
}
use soperator.Exec.{Result, ok, err}
use soperator.Exec.Runs.{wrapped_ok}
use soperator.SoperatorChecks.{ClusterName}
use soperator.ActiveChecks.{SlurmJob, JobAndReason, ActiveCheck, Client, is_terminal_state}
use soperator.ActiveChecks.React.{execute_reactions}
use soperator.ActiveChecks.Rounds.{
  failed, completed, handling_at, handling, job_and_reason, reaction,
}
use soperator.ActiveChecks.Rounds.Summary.{
  Answer, is_unfinished, if_failed, any_unfinished, is_open, any_open, has_open, jobs_of, from_jobs,
  from_answers,
}

-- A job in a terminal state, with an end time after the last one that was handled.
abbrev pub is_due_at : ℕ → Bool → Option ℕ → Bool
is_due_at last terminal none = false
is_due_at last terminal (some end_time) = terminal && ltb last end_time

abbrev pub is_due : ℕ → SlurmJob → Bool
is_due last job = is_due_at last (is_terminal_state job) job.end_time

-- A job without an end time, or in a state that is not terminal.
abbrev pub is_running_at : Bool → Option ℕ → Bool
is_running_at terminal none = true
is_running_at terminal (some end_time) = not terminal

abbrev pub is_running : SlurmJob → Bool
is_running job = is_running_at (is_terminal_state job) job.end_time

if_failed-handling_at :
    (last : ℕ) (job : SlurmJob) (terminal : Bool) (end_time : Option ℕ)
    → if_failed (handling_at last job terminal end_time) job ≡ (
        if is_due_at last terminal end_time && job.state == "FAILED"
        then job_and_reason job ∷ []
        else [])
if_failed-handling_at last job terminal none = refl
if_failed-handling_at last job false (some t) = refl
if_failed-handling_at last job true (some t) = elim (Bool-cases (leb t last)) [
  | inl old ↦ let past : ltb last t ≡ false = ground (arith, old) in rw (old, past) refl
  | inr new ↦
      let after : ltb last t ≡ true = ground (arith, new) in
      elim (Bool-cases (job.state == "FAILED")) [
        | inl bad ↦ rw (new, after, bad) refl
        | inr other ↦ elim (Bool-cases (job.state == "CANCELLED")) [
          | inl gone ↦ rw (new, after, other, gone) refl
          | inr more ↦ elim (Bool-cases (job.state == "COMPLETED")) [
            | inl done ↦ rw (new, after, other, more, done) refl
            | inr rest ↦ rw (new, after, other, more, rest) refl
          ]
        ]
      ]
]

is_unfinished-handling_at :
    (last : ℕ) (job : SlurmJob) (terminal : Bool) (end_time : Option ℕ)
    → is_unfinished (handling_at last job terminal end_time) ≡ is_running_at terminal end_time
is_unfinished-handling_at last job terminal none = refl
is_unfinished-handling_at last job false (some t) = refl
is_unfinished-handling_at last job true (some t) = elim (Bool-cases (leb t last)) [
  | inl old ↦ rw old refl
  | inr new ↦ elim (Bool-cases (job.state == "FAILED")) [
    | inl bad ↦ rw (new, bad) refl
    | inr other ↦ elim (Bool-cases (job.state == "CANCELLED")) [
      | inl gone ↦ rw (new, other, gone) refl
      | inr more ↦ elim (Bool-cases (job.state == "COMPLETED")) [
        | inl done ↦ rw (new, other, more, done) refl
        | inr rest ↦ rw (new, other, more, rest) refl
      ]
    ]
  ]
]

handling_at-failed :
    (last : ℕ) (job : SlurmJob) (terminal : Bool) (end_time : Option ℕ)
    → is_due_at last terminal end_time ≡ true
    → job.state ≡ "FAILED"
    → handling_at last job terminal end_time ≡ failed
handling_at-failed last job terminal none h e = absurd (ground (arith, h))
handling_at-failed last job false (some t) h e = absurd (ground (arith, h))
handling_at-failed last job true (some t) h e =
    let new : leb t last ≡ false = ground (arith, h) in rw (new, e) refl

handling_at-completed :
    (last : ℕ) (job : SlurmJob) (terminal : Bool) (end_time : Option ℕ)
    → is_due_at last terminal end_time ≡ true
    → job.state ≡ "COMPLETED"
    → handling_at last job terminal end_time ≡ completed
handling_at-completed last job terminal none h e = absurd (ground (arith, h))
handling_at-completed last job false (some t) h e = absurd (ground (arith, h))
handling_at-completed last job true (some t) h e =
    let new : leb t last ≡ false = ground (arith, h) in rw (new, e) refl

-- The failures among the jobs that are due, in order.
abbrev pub failures_of : ℕ → List SlurmJob → List JobAndReason
failures_of last [] = []
failures_of last (job ∷ jobs) =
    (if is_due last job && job.state == "FAILED" then job_and_reason job ∷ [] else [])
    ++ failures_of last jobs

abbrev pub failures_in : ℕ → List Answer → List JobAndReason
failures_in last [] = []
failures_in last ((id, r) ∷ answers) = failures_of last (jobs_of r) ++ failures_in last answers

abbrev pub any_running : List SlurmJob → Bool
any_running [] = false
any_running (job ∷ jobs) = is_running job || any_running jobs

-- The accounting gave an error, no job, or one that still runs.
abbrev pub is_awaited : Result (List SlurmJob) → Bool
is_awaited (err e) = true
is_awaited (ok []) = true
is_awaited (ok (job ∷ jobs)) = any_running (job ∷ jobs)

abbrev pub any_awaited : List Answer → Bool
any_awaited [] = false
any_awaited ((id, r) ∷ answers) = is_awaited r || any_awaited answers

abbrev pub has_awaited : List Answer → Bytes → Bool
has_awaited [] j = false
has_awaited ((id, r) ∷ answers) j = (id == j && is_awaited r) || has_awaited answers j

from_jobs-failures :
    (last : ℕ) (jobs : List SlurmJob) → from_jobs if_failed last jobs ≡ failures_of last jobs
unfolding handling
from_jobs-failures last [] = refl
from_jobs-failures last (job ∷ jobs) =
    ap₂ (λ a b. a ++ b) (if_failed-handling_at last job (is_terminal_state job) job.end_time)
      (from_jobs-failures last jobs)

pub from_answers-failures :
    (last : ℕ) (answers : List Answer)
    → from_answers if_failed last answers ≡ failures_in last answers
from_answers-failures last [] = refl
from_answers-failures last ((id, r) ∷ answers) =
    ap₂ (λ a b. a ++ b) (from_jobs-failures last (jobs_of r)) (from_answers-failures last answers)

any_unfinished-running :
    (last : ℕ) (jobs : List SlurmJob) → any_unfinished last jobs ≡ any_running jobs
unfolding handling
any_unfinished-running last [] = refl
any_unfinished-running last (job ∷ jobs) =
    ap₂ (λ a b. a || b) (is_unfinished-handling_at last job (is_terminal_state job) job.end_time)
      (any_unfinished-running last jobs)

is_open-awaited : (last : ℕ) (r : Result (List SlurmJob)) → is_open last r ≡ is_awaited r
is_open-awaited last (err e) = refl
is_open-awaited last (ok []) = refl
is_open-awaited last (ok (job ∷ jobs)) = any_unfinished-running last (job ∷ jobs)

pub any_open-awaited :
    (last : ℕ) (answers : List Answer) → any_open last answers ≡ any_awaited answers
any_open-awaited last [] = refl
any_open-awaited last ((id, r) ∷ answers) =
    ap₂ (λ a b. a || b) (is_open-awaited last r) (any_open-awaited last answers)

pub has_open-awaited :
    (last : ℕ) (answers : List Answer) (j : Bytes) → has_open last answers j ≡ has_awaited answers j
has_open-awaited last [] j = refl
has_open-awaited last ((id, r) ∷ answers) j =
    ap₂ (λ a b. (id == j && a) || b) (is_open-awaited last r) (has_open-awaited last answers j)

module _ {S : Type 0} (client : Client S) (cluster : ClusterName) (check : ActiveCheck)
    (first : Bytes) (last : ℕ) where
  -- The reactions to a failure were carried out for a failed job that was due, and those to a
  -- success for a completed one.
  abbrev pub Reacted : SlurmJob → Type 0
  Reacted job =
      (is_due last job ≡ true
        → job.state ≡ "FAILED"
        → (s : S) × ((execute_reactions client cluster job check.name check.failure_reactions s).0
            ≡ ok tt))
      × (is_due last job ≡ true
          → job.state ≡ "COMPLETED"
          → (s : S) × ((execute_reactions client cluster job check.name check.success_reactions s).0
              ≡ ok tt))

  pub Reacted-of_reaction :
      (job : SlurmJob) (s : S)
      → (reaction client cluster check first last (handling last job) job s).0 ≡ ok tt
      → Reacted job
  unfolding handling
  Reacted-of_reaction job s h = (
    λ due e.
        let same = handling_at-failed last job (is_terminal_state job) job.end_time due e in
        (
          s,
          wrapped_ok "executing failure reactions"
              (execute_reactions client cluster job check.name check.failure_reactions) s tt
              (rw same at h),
        ),
    λ due e.
        let same = handling_at-completed last job (is_terminal_state job) job.end_time due e in
        (
          s,
          wrapped_ok "executing success reactions"
              (execute_reactions client cluster job check.name check.success_reactions) s tt
              (rw same at h),
        ),
  )
