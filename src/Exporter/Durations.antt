-- ===== src/Exporter/Durations.antt =====
-- Every event that ends is observed once, with its duration.
use mathlib.Core.List.{append-nil, append_assoc}
use soperator.Prelude.{
  ℕ, ◌-◌, ◌≡◌, refl, sym, ap, ◌∙◌, ◌⊎◌, inl, inr, Bool, true, false, not, ◌&&◌, some, List, [], ◌∷◌,
  ◌++◌, String, comparable_string, apart, contains, lookup, All, IsUnique, Bool-cases, arith,
}
use soperator.Exporter.{MetricNode, Tracker}
use soperator.Exporter.Nodes.{process_transition, checked_before, update_transitions}
use soperator.Exporter.Tracked.{names, IsKnown, process_transition-other, still-IsKnown}

module _ (checker : MetricNode → Bool) (previous : List (String × MetricNode)) (now : ℕ) where
  abbrev pub has_ended : MetricNode → Bool
  has_ended node = not (checker node) && checked_before checker (lookup previous node.name)

  -- The name of each node whose event has ended, in order, with the time since its start.
  abbrev pub IsCompleted : List (String × ℕ) → List MetricNode → List (String × ℕ) → Type 0
  IsCompleted starts [] durations = durations ≡ []
  IsCompleted starts (node ∷ nodes) durations =
      ((has_ended node ≡ false) × IsCompleted starts nodes durations)
      ⊎ ((has_ended node ≡ true)
          × ((start : ℕ) × (rest : List (String × ℕ)) × (lookup starts node.name ≡ some start)
              × (durations ≡ (node.name, now - start) ∷ rest)
              × IsCompleted starts nodes rest))

  -- The completed events depend on the start times of the nodes alone.
  IsCompleted-same :
      (nodes : List MetricNode) (starts starts' : List (String × ℕ)) (durations : List (String × ℕ))
      → All (λ node. lookup starts node.name ≡ lookup starts' node.name) nodes
      → IsCompleted starts nodes durations
      → IsCompleted starts' nodes durations
  IsCompleted-same [] starts starts' durations same h = h
  IsCompleted-same (node ∷ nodes) starts starts' durations (e, same) (inl (no_end, h)) =
      inl (no_end, IsCompleted-same nodes starts starts' durations same h)
  IsCompleted-same (node ∷ nodes) starts starts' durations (e, same)
        (inr (ended, (start, rest, found, d, h))) =
      inr
        (ended, (start, rest, sym e ∙ found, d, IsCompleted-same nodes starts starts' rest same h))

  pub same_starts :
      (current before : Bool) (name : String) (tracker : Tracker) (nodes : List MetricNode)
      → contains (names nodes) name ≡ false
      → All
          (λ node.
            lookup (process_transition current before name now tracker).starts node.name
            ≡ lookup tracker.starts node.name)
          nodes
  unfolding contains
  same_starts current before name tracker [] h = tt
  same_starts current before name tracker (node ∷ nodes) h = (
    process_transition-other current before name now tracker node.name
        (apart node.name name (ground (arith, h))),
    same_starts current before name tracker nodes (ground (arith, h)),
  )

  stays_silent :
      (current before : Bool) (name : String) (tracker : Tracker)
      → (not current && before) ≡ false
      → (process_transition current before name now tracker).observed ≡ tracker.observed
  unfolding process_transition
  stays_silent true true name tracker h = refl
  stays_silent true false name tracker h = refl
  stays_silent false false name tracker h = refl
  stays_silent false true name tracker h = absurd (ground (arith, h))

  observes :
      (current before : Bool) (name : String) (tracker : Tracker) (start : ℕ)
      → (not current && before) ≡ true
      → lookup tracker.starts name ≡ some start
      → (process_transition current before name now tracker).observed
        ≡ tracker.observed ++ (name, now - start) ∷ []
  unfolding process_transition
  observes false true name tracker start h e = rw e refl
  observes false false name tracker start h e = absurd (ground (arith, h))
  observes true before name tracker start h e = absurd (ground (arith, h))

  pub update_transitions-IsCompleted :
      (nodes : List MetricNode) (tracker : Tracker)
      → IsUnique (names nodes)
      → All (IsKnown checker previous now tracker.starts) nodes
      → (more : List (String × ℕ)) × ((update_transitions checker previous now nodes
            tracker).observed
          ≡ tracker.observed ++ more)
        × IsCompleted tracker.starts nodes more
  unfolding update_transitions
  update_transitions-IsCompleted [] tracker u known = ([], sym (append-nil tracker.observed), refl)
  update_transitions-IsCompleted (node ∷ nodes) tracker (new, u) (k, known) =
      let before = checked_before checker (lookup previous node.name) in
      let next = process_transition (checker node) before node.name now tracker in
      let (more, e, done) =
        update_transitions-IsCompleted nodes next u
          (still-IsKnown checker previous now node tracker nodes new known) in
      let done' =
        IsCompleted-same nodes next.starts tracker.starts more
          (same_starts (checker node) before node.name tracker nodes new) done in
      elim (Bool-cases (has_ended node)) [
        | inr open_still ↦ (
          more,
          e ∙ ap (λ l. l ++ more) (stays_silent (checker node) before node.name tracker open_still),
          inl (open_still, done'),
        )
        | inl ended ↦
            let (start, s) = k (ground (arith, ended)) in
            (
              (node.name, now - start) ∷ more,
              e
                  ∙ ap (λ l. l ++ more)
                      (observes (checker node) before node.name tracker start ended s)
                  ∙ append_assoc tracker.observed ((node.name, now - start) ∷ []) more,
              inr (ended, (start, more, s, refl, done')),
            )
      ]
