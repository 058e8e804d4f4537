-- ===== src/Exporter/Newest.antt =====
-- Refreshes overlap: whatever order they finish in, the data that stays is the newest.
pub mod Views
use mathlib.Core.Path.{subst}
use soperator.Prelude.{
  ℕ, zero, suc, ◌≤◌, ◌<◌, ◌≡◌, ◌≢◌, refl, sym, ◌⊎◌, inl, inr, Bool, true, false, Option, none, some,
  List, [], ◌∷◌, ◌++◌, String, All, IsAmong, leb, nat_beq, leb→le, Bool-cases, if◌then◌else◌, arith,
}
use soperator.Exec.{Result, ok, err}
use soperator.Exporter.{MetricNode}
use soperator.Exporter.Collector.{
  Collector, Event, nodes_done, jobs_done, diag_done, topology_done, is_late, stored_sequence,
  apply_nodes, refresh_nodes, refresh_jobs, refresh_diag, refresh_node_topologies, handle, run,
}

-- The one of two numbered values with the larger number; the first one only if it is larger.
abbrev pub newer : {A : Type 0} → ℕ × A → ℕ × A → ℕ × A
newer a b = if leb a.0 b.0 then b else a

-- The value is among those at hand, and none of them has a larger number.
abbrev pub IsNewest : {A : Type 0} → List (ℕ × A) → ℕ × A → Type 0
IsNewest values value = All (λ a. a.0 ≤ value.0) values × IsAmong value values

IsNewest-newer :
    {A : Type 0} (a b final : ℕ × A) (values : List (ℕ × A))
    → IsNewest (newer a b ∷ values) final
    → IsNewest (b ∷ a ∷ values) final
IsNewest-newer a b final values ((below, all), among) = elim (Bool-cases (leb a.0 b.0)) [
  | inl e ↦ (
    (
      rw e at below,
      let le : b.0 ≤ final.0 = rw e at below in (omega (arith, leb→le a.0 b.0 e, le), all),
    ),
    elim among [ inl q ↦ inl (rw e at q) | inr q ↦ inr (inr q) ],
  )
  | inr e ↦
      let le : a.0 ≤ final.0 = rw e at below in
      (
        (ground (arith, e, le), (le, all)),
        elim among [ inl q ↦ inr (inl (rw e at q)) | inr q ↦ inr (inr q) ],
      )
]

-- An answer that was stored, or not because a newer one is there.
abbrev pub stored_or : {A : Type 0} → Option (ℕ × A) → ℕ × A → ℕ × A
stored_or none current = current
stored_or (some a) current = newer a current

abbrev pub answered : {A : Type 0} → ℕ → Result A → Option (ℕ × A)
answered sequence (err e) = none
answered sequence (ok a) = some (sequence, a)

abbrev pub with_answer : {A : Type 0} → Option (ℕ × A) → List (ℕ × A) → List (ℕ × A)
with_answer none answers = answers
with_answer (some a) answers = a ∷ answers

-- For a sequence number that is not 0, the guard of a refresh takes the newer value.
is_late-newer : (sequence stored : ℕ) → sequence ≢ 0 → is_late sequence stored ≡ leb sequence stored
is_late-newer sequence stored h = ground (arith, h)

ne_false : (sequence : ℕ) → sequence ≢ 0 → nat_beq sequence 0 ≡ false
ne_false sequence h = ground (arith, h)

module _ {Job Diag Topology : Type 0} where
  -- The sequence numbers of the exporter begin with 1.
  abbrev pub HasSequence : Event Job Diag Topology → Type 0
  HasSequence (nodes_done sequence answer now later) = sequence ≢ 0
  HasSequence (jobs_done sequence answer) = sequence ≢ 0
  HasSequence (diag_done sequence answer) = sequence ≢ 0
  HasSequence (topology_done sequence answer) = sequence ≢ 0

  abbrev pub jobs_answer : Event Job Diag Topology → Option (ℕ × List Job)
  jobs_answer (nodes_done sequence answer now later) = none
  jobs_answer (jobs_done sequence answer) = answered sequence answer
  jobs_answer (diag_done sequence answer) = none
  jobs_answer (topology_done sequence answer) = none

  abbrev pub nodes_answer : Event Job Diag Topology → Option (ℕ × List MetricNode)
  nodes_answer (nodes_done sequence answer now later) = answered sequence answer
  nodes_answer (jobs_done sequence answer) = none
  nodes_answer (diag_done sequence answer) = none
  nodes_answer (topology_done sequence answer) = none

  abbrev pub diag_answer : Event Job Diag Topology → Option (ℕ × Option Diag)
  diag_answer (nodes_done sequence answer now later) = none
  diag_answer (jobs_done sequence answer) = none
  diag_answer (diag_done sequence (err e)) = none
  diag_answer (diag_done sequence (ok diag)) = some (sequence, some diag)
  diag_answer (topology_done sequence answer) = none

  abbrev pub topology_answer : Event Job Diag Topology → Option (ℕ × List (String × Topology))
  topology_answer (nodes_done sequence answer now later) = none
  topology_answer (jobs_done sequence answer) = none
  topology_answer (diag_done sequence answer) = none
  topology_answer (topology_done sequence answer) = answered sequence answer

  -- The answers of the refreshes of one kind that did not fail, with their sequence numbers.
  abbrev pub answers :
      {A : Type 0}
      → (Event Job Diag Topology → Option (ℕ × A))
      → List (Event Job Diag Topology)
      → List (ℕ × A)
  answers answer [] = []
  answers answer (e ∷ events) = with_answer (answer e) (answers answer events)

with_answer-IsNewest :
    {A : Type 0} (o : Option (ℕ × A)) (b final : ℕ × A) (values : List (ℕ × A))
    → IsNewest (stored_or o b ∷ values) final
    → IsNewest (b ∷ with_answer o values) final
with_answer-IsNewest none b final values h = h
with_answer-IsNewest (some a) b final values h = IsNewest-newer a b final values h

module _ {Job Diag Topology : Type 0} where
  -- One value of the state with its number, and the answers that are meant for it.
  module _ {A : Type 0} (view : Collector Job Diag Topology → ℕ × A)
      (answer : Event Job Diag Topology → Option (ℕ × A))
      (step : (e : Event Job Diag Topology) (c : Collector Job Diag Topology)
        → HasSequence e
        → view (handle e c) ≡ stored_or (answer e) (view c)) where
    pub view-IsNewest :
        (events : List (Event Job Diag Topology)) (c : Collector Job Diag Topology)
        → All HasSequence events
        → IsNewest (view c ∷ answers answer events) (view (run events c))
    unfolding run
    view-IsNewest [] c h = ((omega arith, tt), inl refl)
    view-IsNewest (e ∷ events) c (h, hs) =
        with_answer-IsNewest (answer e) (view c) (view (run events (handle e c)))
          (answers answer events)
          (subst (λ v. IsNewest (v ∷ answers answer events) (view (run events (handle e c))))
            (step e c h) (view-IsNewest events (handle e c) hs))

  abbrev pub nodes_view : Collector Job Diag Topology → ℕ × List MetricNode
  nodes_view c = (c.nodes_sequence, c.nodes)

  abbrev pub jobs_view : Collector Job Diag Topology → ℕ × List Job
  jobs_view c = (c.jobs_sequence, c.jobs)

  abbrev pub diag_view : Collector Job Diag Topology → ℕ × Option Diag
  diag_view c = (c.diag_sequence, c.diag)

  abbrev pub topology_view : Collector Job Diag Topology → ℕ × List (String × Topology)
  topology_view c = (c.topology_sequence, c.topologies)

  -- A refresh that may be late, by the test that it makes.
  pub by_lateness :
      {A : Type 0} (sequence stored : ℕ) (a b : A) (view : Collector Job Diag Topology → ℕ × A)
      (c c' : Collector Job Diag Topology)
      → sequence ≢ 0
      → view c ≡ (stored, b)
      → view c' ≡ (stored_sequence sequence stored, a)
      → view (if is_late sequence stored then c else c')
        ≡ (if leb sequence stored then (stored, b) else (sequence, a))
  by_lateness sequence stored a b view c c' h e e' = elim (Bool-cases (leb sequence stored)) [
    | inl late ↦ rw (is_late-newer sequence stored h, late) e
    | inr fresh ↦ rw (is_late-newer sequence stored h, fresh) (rw (ne_false sequence h) at e')
  ]

  -- A refresh of another kind leaves the value.
  pub unless_late :
      {A : Type 0} (late : Bool) (view : Collector Job Diag Topology → A)
      (c c' : Collector Job Diag Topology)
      → view c' ≡ view c
      → view (if late then c else c') ≡ view c
  unless_late true view c c' e = refl
  unless_late false view c c' e = e
