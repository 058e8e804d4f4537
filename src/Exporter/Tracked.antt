-- ===== src/Exporter/Tracked.antt =====
-- The start times of the events that go on, and the durations of those that end.
use soperator.Prelude.{
  ℕ, ◌≡◌, refl, ◌∙◌, inl, inr, Bool, true, false, Option, none, some, List, [], ◌∷◌, String,
  comparable_string, equal_refl, ◌==◌, contains, lookup, put, lookup-put, map, All, IsUnique, apart,
  Bool-cases, Option-cases, arith,
}
use mathlib.Core.Path.{subst}
use text.Mathlib.TextEquality.{eq_iff}
use soperator.Exporter.{MetricNode, Tracker}
use soperator.Exporter.Nodes.{
  drop_start, process_transition, nodes_from, nodes_by_name, checked_before, update_transitions,
}

abbrev pub names : List MetricNode → List String
names nodes = map (λ node. node.name) nodes

-- If the event of the node goes on, its start is known.
abbrev pub IsOpen : (MetricNode → Bool) → List (String × ℕ) → MetricNode → Type 0
IsOpen checker starts node =
    checker node ≡ true → (start : ℕ) × (lookup starts node.name ≡ some start)

lookup-drop_start :
    (name other : String) (starts : List (String × ℕ))
    → (name == other) ≡ false
    → lookup (drop_start name starts) other ≡ lookup starts other
unfolding lookup drop_start
lookup-drop_start name other [] h = refl
lookup-drop_start name other ((k, t) ∷ starts) h = elim (Bool-cases (k == name)) [
  | inl e ↦
      let q : k ≡ name = (eq_iff k name).0 e in
      let g : (k == other) ≡ false = rw q h in rw (e, g) (lookup-drop_start name other starts h)
  | inr e ↦ elim (Bool-cases (k == other)) [
    | inl f ↦ rw (e, f) refl
    | inr f ↦ rw (e, f) (lookup-drop_start name other starts h)
  ]
]

-- Only the start time of the node itself moves.
pub process_transition-other :
    (current previous : Bool) (name : String) (now : ℕ) (tracker : Tracker) (other : String)
    → (name == other) ≡ false
    → lookup (process_transition current previous name now tracker).starts other
      ≡ lookup tracker.starts other
unfolding process_transition
process_transition-other true true name now tracker other h = refl
process_transition-other true false name now tracker other h =
    lookup-put name now tracker.starts other ∙ rw h refl
process_transition-other false false name now tracker other h = refl
process_transition-other false true name now tracker other h =
    elim (Option-cases (lookup tracker.starts name)) [
      | inl e ↦ rw e refl
      | inr (start, e) ↦ rw e (lookup-drop_start name other tracker.starts h)
    ]

module _ (checker : MetricNode → Bool) (previous : List (String × MetricNode)) (now : ℕ) where
  pub update_transitions-other :
      (nodes : List MetricNode) (tracker : Tracker) (other : String)
      → contains (names nodes) other ≡ false
      → lookup (update_transitions checker previous now nodes tracker).starts other
        ≡ lookup tracker.starts other
  unfolding update_transitions contains
  update_transitions-other [] tracker other h = refl
  update_transitions-other (node ∷ nodes) tracker other h =
      let next =
        process_transition (checker node) (checked_before checker (lookup previous node.name))
          node.name now tracker in
      update_transitions-other nodes next other (ground (arith, h))
      ∙ process_transition-other (checker node) (checked_before checker (lookup previous node.name))
          node.name now tracker other (ground (arith, h))

  -- A node whose event went on before has a start time.
  abbrev pub IsKnown : List (String × ℕ) → MetricNode → Type 0
  IsKnown starts node =
      checked_before checker (lookup previous node.name) ≡ true
      → (start : ℕ) × (lookup starts node.name ≡ some start)

  -- The transition of a node leaves what is known of the others.
  pub still-IsKnown :
      (node : MetricNode) (tracker : Tracker) (rest : List MetricNode)
      → contains (names rest) node.name ≡ false
      → All (IsKnown tracker.starts) rest
      → All
          (IsKnown
            (process_transition
              (checker node)
              (checked_before checker (lookup previous node.name))
              node.name
              now
              tracker).starts)
          rest
  unfolding contains
  still-IsKnown node tracker [] n h = tt
  still-IsKnown node tracker (other ∷ rest) n (h, hs) = (
    λ e.
        let (start, q) = h e in
        (
          start,
          process_transition-other (checker node)
                (checked_before checker (lookup previous node.name)) node.name now tracker
                other.name (apart other.name node.name (ground (arith, n)))
              ∙ q,
        ),
    still-IsKnown node tracker rest (ground (arith, n)) hs,
  )

  process_transition-IsOpen :
      (current before : Bool) (name : String) (tracker : Tracker)
      → (before ≡ true → (start : ℕ) × (lookup tracker.starts name ≡ some start))
      → current ≡ true
      → (start : ℕ) × (lookup (process_transition current before name now tracker).starts name
          ≡ some start)
  unfolding process_transition
  process_transition-IsOpen true true name tracker known e = known refl
  process_transition-IsOpen true false name tracker known e =
      (now, lookup-put name now tracker.starts name ∙ rw (equal_refl name) refl)
  process_transition-IsOpen false before name tracker known e = absurd (ground (arith, e))

  pub update_transitions-IsOpen :
      (nodes : List MetricNode) (tracker : Tracker)
      → IsUnique (names nodes)
      → All (IsKnown tracker.starts) nodes
      → All (IsOpen checker (update_transitions checker previous now nodes tracker).starts) nodes
  unfolding update_transitions contains
  update_transitions-IsOpen [] tracker u known = tt
  update_transitions-IsOpen (node ∷ nodes) tracker (new, u) (k, known) =
      let before = checked_before checker (lookup previous node.name) in
      let next = process_transition (checker node) before node.name now tracker in
      (
        λ e.
            let (start, q) =
              process_transition-IsOpen (checker node) before node.name tracker k e in
            (start, update_transitions-other nodes next node.name new ∙ q),
        update_transitions-IsOpen nodes next u (still-IsKnown node tracker nodes new known),
      )

-- The previous node of a name is one of the previous nodes.
lookup-nodes_from :
    (P : MetricNode → Type 0) (nodes : List MetricNode) (found : List (String × MetricNode))
    → ((name : String) (node : MetricNode)
        → lookup found name ≡ some node
        → P node × (node.name ≡ name))
    → All P nodes
    → (name : String) (node : MetricNode) → lookup (nodes_from found nodes) name ≡ some node
    → P node × (node.name ≡ name)
unfolding nodes_from
lookup-nodes_from P [] found h all name node e = h name node e
lookup-nodes_from P (n ∷ nodes) found h (p, all) name node e =
    lookup-nodes_from P nodes (put n.name n found)
      (λ k m q. elim (Bool-cases (n.name == k)) [
        | inl same ↦
            let eq : n ≡ m = ground (arith, lookup-put n.name n found k, q, same) in
            (subst P eq p, subst (λ (x : MetricNode). x.name ≡ k) eq ((eq_iff n.name k).0 same))
        | inr other ↦ h k m (ground (arith, lookup-put n.name n found k, q, other))
      ])
      all name node e

pub lookup-nodes_by_name :
    (P : MetricNode → Type 0) (nodes : List MetricNode)
    → All P nodes
    → (name : String) (node : MetricNode) → lookup (nodes_by_name nodes) name ≡ some node
    → P node × (node.name ≡ name)
unfolding nodes_by_name lookup
lookup-nodes_by_name P nodes all name node e =
    lookup-nodes_from P nodes [] (λ k m q. absurd (ground (arith, q))) all name node e

-- If every open event of the previous nodes has a start time, every event of a new node that was
-- open before has one.
pub IsKnown-of_IsOpen :
    (checker : MetricNode → Bool) (before nodes : List MetricNode) (starts : List (String × ℕ))
    (now : ℕ)
    → All (IsOpen checker starts) before
    → All (IsKnown checker (nodes_by_name before) now starts) nodes
IsKnown-of_IsOpen checker before [] starts now open_before = tt
IsKnown-of_IsOpen checker before (node ∷ nodes) starts now open_before = (
  λ e. known (lookup (nodes_by_name before) node.name) refl e,
  IsKnown-of_IsOpen checker before nodes starts now open_before,
)
  where
    known :
        (o : Option MetricNode)
        → lookup (nodes_by_name before) node.name ≡ o
        → checked_before checker o ≡ true
        → (start : ℕ) × (lookup starts node.name ≡ some start)
    known none q e = absurd (ground (arith, e))
    known (some old) q e =
        let (is_open, same) =
          lookup-nodes_by_name (IsOpen checker starts) before open_before node.name old q in
        let (start, s) = is_open e in (start, subst (λ n. lookup starts n ≡ some start) same s)
