-- ===== src/Exporter/Starts.antt =====
-- The start time of an event that goes on is that of the nodes in which it began.
use soperator.Prelude.{
  ℕ, ◌≡◌, refl, ◌∙◌, Bool, true, false, some, List, [], ◌∷◌, String, comparable_string, equal_refl,
  lookup, lookup-put, All, IsUnique, if◌then◌else◌, arith,
}
use soperator.Exporter.{MetricNode, Tracker}
use soperator.Exporter.Nodes.{process_transition, checked_before, update_transitions}
use soperator.Exporter.Tracked.{names, update_transitions-other}
use soperator.Exporter.Durations.{same_starts}

module _ (checker : MetricNode → Bool) (previous : List (String × MetricNode)) (now : ℕ) where
  -- An event that went on before keeps its start, and one that begins starts now.
  abbrev pub IsStarted : List (String × ℕ) → List (String × ℕ) → MetricNode → Type 0
  IsStarted starts starts' node =
      checker node ≡ true
      → lookup starts' node.name ≡ (
          if checked_before checker (lookup previous node.name)
          then lookup starts node.name
          else some now)

  transition-starts :
      (current before : Bool) (name : String) (tracker : Tracker)
      → current ≡ true
      → lookup (process_transition current before name now tracker).starts name
        ≡ (if before then lookup tracker.starts name else some now)
  unfolding process_transition
  transition-starts true true name tracker e = refl
  transition-starts true false name tracker e =
      lookup-put name now tracker.starts name ∙ rw (equal_refl name) refl
  transition-starts false before name tracker e = absurd (ground (arith, e))

  IsStarted-same :
      (nodes : List MetricNode) (starts starts' final : List (String × ℕ))
      → All (λ node. lookup starts' node.name ≡ lookup starts node.name) nodes
      → All (IsStarted starts' final) nodes
      → All (IsStarted starts final) nodes
  IsStarted-same [] starts starts' final same h = tt
  IsStarted-same (node ∷ nodes) starts starts' final (e, same) (h, hs) =
      (λ open_now. h open_now ∙ rw e refl, IsStarted-same nodes starts starts' final same hs)

  pub update_transitions-IsStarted :
      (nodes : List MetricNode) (tracker : Tracker)
      → IsUnique (names nodes)
      → All
          (IsStarted tracker.starts (update_transitions checker previous now nodes tracker).starts)
          nodes
  unfolding update_transitions
  update_transitions-IsStarted [] tracker u = tt
  update_transitions-IsStarted (node ∷ nodes) tracker (new, u) =
      let before = checked_before checker (lookup previous node.name) in
      let next = process_transition (checker node) before node.name now tracker in
      let final = update_transitions checker previous now nodes next in
      (
        λ open_now.
            update_transitions-other checker previous now nodes next node.name new
            ∙ transition-starts (checker node) before node.name tracker open_now,
        IsStarted-same nodes tracker.starts next.starts final.starts
            (same_starts checker previous now (checker node) before node.name tracker nodes new)
            (update_transitions-IsStarted nodes next u),
      )
