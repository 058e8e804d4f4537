-- ===== src/ActiveChecks/Rounds/Summary.antt =====
-- What the loops of a round add up to, without their effects.
use mathlib.Core.List.{append-nil, append_assoc}
use soperator.Prelude.{
  ap, ◌≡◌, refl, sym, ◌∙◌, ℕ, Bool, true, false, ◌||◌, ◌&&◌, comparable_bytes, ◌==◌, List, [], ◌∷◌,
  ◌++◌, Bytes, contains, contains-add, arith,
}
use soperator.Exec.{Result, ok, err}
use soperator.ActiveChecks.{SlurmJob, JobAndReason}
use soperator.ActiveChecks.Rounds.{
  Round, Handling, unfinished, seen_before, failed, cancelled_job, completed, other, handling,
  left_unhandled, noted, named, job_and_reason,
}

-- An answer of the accounting for an ID.
abbrev pub Answer : Type 0
Answer = Bytes × Result (List SlurmJob)

abbrev pub is_unfinished : Handling → Bool
is_unfinished unfinished = true
is_unfinished seen_before = false
is_unfinished failed = false
is_unfinished cancelled_job = false
is_unfinished completed = false
is_unfinished other = false

abbrev pub any_unfinished : ℕ → List SlurmJob → Bool
any_unfinished last [] = false
any_unfinished last (job ∷ jobs) = is_unfinished (handling last job) || any_unfinished last jobs

-- The ID has to be asked for again.
abbrev pub is_open : ℕ → Result (List SlurmJob) → Bool
is_open last (err e) = true
is_open last (ok []) = true
is_open last (ok (job ∷ jobs)) = any_unfinished last (job ∷ jobs)

abbrev pub any_open : ℕ → List Answer → Bool
any_open last [] = false
any_open last ((id, r) ∷ answers) = is_open last r || any_open last answers

abbrev pub has_open : ℕ → List Answer → Bytes → Bool
has_open last [] j = false
has_open last ((id, r) ∷ answers) j = (id == j && is_open last r) || has_open last answers j

abbrev pub jobs_of : Result (List SlurmJob) → List SlurmJob
jobs_of (err e) = []
jobs_of (ok jobs) = jobs

-- What the jobs of the answers add to a list, in order.
abbrev pub from_jobs : {A : Type 0} → (Handling → SlurmJob → List A) → ℕ → List SlurmJob → List A
from_jobs g last [] = []
from_jobs g last (job ∷ jobs) = g (handling last job) job ++ from_jobs g last jobs

abbrev pub from_answers : {A : Type 0} → (Handling → SlurmJob → List A) → ℕ → List Answer → List A
from_answers g last [] = []
from_answers g last ((id, r) ∷ answers) =
    from_jobs g last (jobs_of r) ++ from_answers g last answers

abbrev pub if_failed : Handling → SlurmJob → List JobAndReason
if_failed failed job = job_and_reason job ∷ []
if_failed unfinished job = []
if_failed seen_before job = []
if_failed cancelled_job job = []
if_failed completed job = []
if_failed other job = []

-- The loops without their effects.
abbrev pub summed_jobs : ℕ → Bytes → Bytes → List SlurmJob → Round → Round
summed_jobs last first id [] round = round
summed_jobs last first id (job ∷ jobs) round =
    summed_jobs last first id jobs (noted (handling last job) id job (named first job round))

abbrev pub summed_answer : ℕ → Bytes → Bytes → Result (List SlurmJob) → Round → Round
summed_answer last first id (err e) round = left_unhandled id round
summed_answer last first id (ok []) round = left_unhandled id round
summed_answer last first id (ok (job ∷ jobs)) round = summed_jobs last first id (job ∷ jobs) round

abbrev pub summed : ℕ → Bytes → List Answer → Round → Round
summed last first [] round = round
summed last first ((id, r) ∷ answers) round =
    summed last first answers (summed_answer last first id r round)

fails-noted :
    (h : Handling) (id : Bytes) (job : SlurmJob) (round : Round)
    → (noted h id job round).fails ≡ round.fails ++ if_failed h job
fails-noted failed id job round = refl
fails-noted unfinished id job round = sym (append-nil round.fails)
fails-noted seen_before id job round = sym (append-nil round.fails)
fails-noted cancelled_job id job round = sym (append-nil round.fails)
fails-noted completed id job round = sym (append-nil round.fails)
fails-noted other id job round = sym (append-nil round.fails)

requeue-noted :
    (h : Handling) (id : Bytes) (job : SlurmJob) (round : Round)
    → (noted h id job round).requeue ≡ (round.requeue || is_unfinished h)
requeue-noted unfinished id job round = ground arith
requeue-noted failed id job round = ground arith
requeue-noted seen_before id job round = ground arith
requeue-noted cancelled_job id job round = ground arith
requeue-noted completed id job round = ground arith
requeue-noted other id job round = ground arith

unhandled-noted :
    (h : Handling) (id : Bytes) (job : SlurmJob) (round : Round) (j : Bytes)
    → contains (noted h id job round).unhandled j
      ≡ (contains round.unhandled j || (id == j && is_unfinished h))
unhandled-noted unfinished id job round j = ground (arith, contains-add id round.unhandled j)
unhandled-noted failed id job round j = ground arith
unhandled-noted seen_before id job round j = ground arith
unhandled-noted cancelled_job id job round j = ground arith
unhandled-noted completed id job round j = ground arith
unhandled-noted other id job round j = ground arith

module _ (last : ℕ) (first : Bytes) where
  fails-summed_jobs :
      (id : Bytes) (jobs : List SlurmJob) (round : Round)
      → (summed_jobs last first id jobs round).fails ≡ round.fails ++ from_jobs if_failed last jobs
  fails-summed_jobs id [] round = sym (append-nil round.fails)
  fails-summed_jobs id (job ∷ jobs) round =
      let h = handling last job in
      fails-summed_jobs id jobs (noted h id job (named first job round))
      ∙ ap (λ l. l ++ from_jobs if_failed last jobs) (fails-noted h id job (named first job round))
      ∙ append_assoc round.fails (if_failed h job) (from_jobs if_failed last jobs)

  pub fails-summed :
      (answers : List Answer) (round : Round)
      → (summed last first answers round).fails ≡ round.fails ++ from_answers if_failed last answers
  fails-summed [] round = sym (append-nil round.fails)
  fails-summed ((id, err e) ∷ answers) round = fails-summed answers (left_unhandled id round)
  fails-summed ((id, ok []) ∷ answers) round = fails-summed answers (left_unhandled id round)
  fails-summed ((id, ok (job ∷ jobs)) ∷ answers) round =
      let all = job ∷ jobs in
      fails-summed answers (summed_jobs last first id all round)
      ∙ ap (λ l. l ++ from_answers if_failed last answers) (fails-summed_jobs id all round)
      ∙ append_assoc round.fails (from_jobs if_failed last all)
          (from_answers if_failed last answers)

  open-summed_jobs :
      (id : Bytes) (jobs : List SlurmJob) (round : Round)
      → ((summed_jobs last first id jobs round).requeue
          ≡ (round.requeue || any_unfinished last jobs))
        × ((j : Bytes)
            → contains (summed_jobs last first id jobs round).unhandled j
              ≡ (contains round.unhandled j || (id == j && any_unfinished last jobs)))
  open-summed_jobs id [] round = (ground arith, λ j. ground arith)
  open-summed_jobs id (job ∷ jobs) round =
      let h = handling last job in
      let (q, u) = open-summed_jobs id jobs (noted h id job (named first job round)) in
      let q1 = requeue-noted h id job (named first job round) in
      (
        ground (arith, q, q1),
        λ j. ground (arith, u j, unhandled-noted h id job (named first job round) j),
      )

  left_open :
      (id : Bytes) (answers : List Answer) (round : Round)
      → ((summed last first answers (left_unhandled id round)).requeue
          ≡ ((left_unhandled id round).requeue || any_open last answers))
        × ((j : Bytes)
            → contains (summed last first answers (left_unhandled id round)).unhandled j
              ≡ (contains (left_unhandled id round).unhandled j || has_open last answers j))
      → ((summed last first answers (left_unhandled id round)).requeue
          ≡ (round.requeue || (true || any_open last answers)))
        × ((j : Bytes)
            → contains (summed last first answers (left_unhandled id round)).unhandled j
              ≡ (contains round.unhandled j || ((id == j && true) || has_open last answers j)))
  left_open id answers round (q, u) =
      (ground (arith, q), λ j. ground (arith, u j, contains-add id round.unhandled j))

  pub open-summed :
      (answers : List Answer) (round : Round)
      → ((summed last first answers round).requeue ≡ (round.requeue || any_open last answers))
        × ((j : Bytes)
            → contains (summed last first answers round).unhandled j
              ≡ (contains round.unhandled j || has_open last answers j))
  open-summed [] round = (ground arith, λ j. ground arith)
  open-summed ((id, err e) ∷ answers) round =
      left_open id answers round (open-summed answers (left_unhandled id round))
  open-summed ((id, ok []) ∷ answers) round =
      left_open id answers round (open-summed answers (left_unhandled id round))
  open-summed ((id, ok (job ∷ jobs)) ∷ answers) round =
      let (q1, u1) = open-summed_jobs id (job ∷ jobs) round in
      let (q, u) = open-summed answers (summed_jobs last first id (job ∷ jobs) round) in
      (ground (arith, q, q1), λ j. ground (arith, u j, u1 j))
