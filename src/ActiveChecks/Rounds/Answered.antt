-- ===== src/ActiveChecks/Rounds/Answered.antt =====
-- What a round leaves, by the answers of the accounting.
use soperator.Prelude.{
  ap, ◌≡◌, refl, ◌∙◌, ℕ, ◌||◌, comparable_bytes, List, [], ◌∷◌, ◌++◌, map, Bytes, contains, All,
  arith,
}
use soperator.Exec.{Result, ok, err}
use soperator.Exec.Runs.{bind_ok}
use soperator.SoperatorChecks.{ClusterName}
use soperator.ActiveChecks.{SlurmJob, ActiveCheck, Client}
use soperator.ActiveChecks.Rounds.{
  Round, handling, noted, named, reaction, handle_jobs, handle_answer, handle_ids,
}
use soperator.ActiveChecks.Rounds.Summary.{
  Answer, jobs_of, summed_jobs, summed_answer, summed, fails-summed, open-summed,
}
use soperator.ActiveChecks.Rounds.Due.{
  Reacted, Reacted-of_reaction, failures_in, any_awaited, has_awaited, from_answers-failures,
  any_open-awaited, has_open-awaited,
}

module _ {S : Type 0} (client : Client S) (cluster : ClusterName) (check : ActiveCheck)
    (first : Bytes) (last : ℕ) where
  -- The accounting gave this answer at some moment.
  abbrev pub Answered : Answer → Type 0
  Answered (id, r) = (s : S) × ((client.get_jobs_by_id_from_accounting cluster id s).0 ≡ r)

  abbrev pub AllReacted : List Answer → Type 0
  AllReacted = All (λ a. All (Reacted client cluster check first last) (jobs_of a.1))

  jobs_summed :
      (id : Bytes) (jobs : List SlurmJob) (round result : Round) (s : S)
      → (handle_jobs client cluster check first last id jobs round s).0 ≡ ok result
      → All (Reacted client cluster check first last) jobs
        × (result ≡ summed_jobs last first id jobs round)
  unfolding handle_jobs
  jobs_summed id [] round result s e = (tt, ground (arith, e))
  jobs_summed id (job ∷ jobs) round result s e =
      let react = reaction client cluster check first last (handling last job) job in
      let next = noted (handling last job) id job (named first job round) in
      let (u, done, rest) =
        bind_ok react (λ v. handle_jobs client cluster check first last id jobs next) s result e in
      let (all, same) = jobs_summed id jobs next result (react s).1 rest in
      ((Reacted-of_reaction client cluster check first last job s done, all), same)

  answer_summed :
      (id : Bytes) (r : Result (List SlurmJob)) (round result : Round) (s : S)
      → (handle_answer client cluster check first last id r round s).0 ≡ ok result
      → All (Reacted client cluster check first last) (jobs_of r)
        × (result ≡ summed_answer last first id r round)
  answer_summed id (err x) round result s e = (tt, ground (arith, e))
  answer_summed id (ok []) round result s e = (tt, ground (arith, e))
  answer_summed id (ok (job ∷ jobs)) round result s e = jobs_summed id (job ∷ jobs) round result s e

  ids_summed :
      (ids : List Bytes) (round result : Round) (s : S)
      → (handle_ids client cluster check first last ids round s).0 ≡ ok result
      → (answers : List Answer) × (map (λ a. a.0) answers ≡ ids)
        × All Answered answers
        × AllReacted answers
        × (result ≡ summed last first answers round)
  unfolding handle_ids
  ids_summed [] round result s e = ([], refl, tt, tt, ground (arith, e))
  ids_summed (id ∷ ids) round result s e =
      let ask = client.get_jobs_by_id_from_accounting cluster id in
      let r = (ask s).0 in
      let answer = handle_answer client cluster check first last id r round in
      let (next, done, rest) =
        bind_ok answer (handle_ids client cluster check first last ids) (ask s).1 result e in
      let (reacted, same) = answer_summed id r round next (ask s).1 done in
      let (answers, names, asked, all, total) =
        ids_summed ids next result (answer (ask s).1).1 rest in
      (
        (id, r) ∷ answers,
        ap (λ l. id ∷ l) names,
        ((s, refl), asked),
        (reacted, all),
        total ∙ ap (summed last first answers) same,
      )

  -- What a round leaves of the one before, by the answers to its IDs.
  abbrev pub IsRoundOf : List Bytes → Round → Round → Type 0
  IsRoundOf ids round result =
      (answers : List Answer) × (map (λ a. a.0) answers ≡ ids)
      × All Answered answers
      × AllReacted answers
      × (result.fails ≡ round.fails ++ failures_in last answers)
      × (result.requeue ≡ (round.requeue || any_awaited answers))
      × ((j : Bytes)
          → contains result.unhandled j ≡ (contains round.unhandled j || has_awaited answers j))

  -- A round that ends without an error: every ID has an answer of the accounting, in order; for a
  -- failed job of the answers that ended after the last one handled the failure reactions were
  -- carried out, and for such a completed one the success reactions; exactly these failed jobs are
  -- added to the failures, in order; and an ID is left for the next round, and the round repeated,
  -- exactly if its answer is an error, has no job, or has one without an end time or in a state
  -- that is not terminal.
  pub handle_ids-IsRoundOf :
      (ids : List Bytes) (round result : Round) (s : S)
      → (handle_ids client cluster check first last ids round s).0 ≡ ok result
      → IsRoundOf ids round result
  handle_ids-IsRoundOf ids round result s e =
      let (answers, names, asked, all, total) = ids_summed ids round result s e in
      let (requeued, left) = open-summed last first answers round in
      (
        answers,
        names,
        asked,
        all,
        ap (λ r. r.fails) total
            ∙ fails-summed last first answers round
            ∙ ap (λ l. round.fails ++ l) (from_answers-failures last answers),
        ap (λ r. r.requeue) total
            ∙ requeued
            ∙ ap (λ b. round.requeue || b) (any_open-awaited last answers),
        λ j.
            ap (λ r. contains r.unhandled j) total
            ∙ left j
            ∙ ap (λ b. contains round.unhandled j || b) (has_open-awaited last answers j),
      )
