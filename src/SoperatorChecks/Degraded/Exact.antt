-- ===== src/SoperatorChecks/Degraded/Exact.antt =====
-- A node is degraded exactly if it is drained for a well known reason.
use soperator.Prelude.{
  ap, ◌++◌, ◌≡◌, refl, ◌⊎◌, inl, inr, true, false, Option, none, some, List, [], ◌∷◌, Bytes,
  comparable_bytes, contains, comparable_string, All, Bool-cases,
}
use soperator.SoperatorChecks.{SlurmNode, NodeReason}
use soperator.SoperatorChecks.Degraded.{
  slurm_node_reasons_list, well_known_reason, relabelled, relabel, by_reason, degraded_node,
}
use soperator.Text.{contains_text}

-- What the search of the list answers: nothing, or the first text that the reason contains.
abbrev pub Searched : List Bytes → Bytes → Option Bytes → Type 0
Searched list reason none = All (λ known. contains_text reason known ≡ false) list
Searched list reason (some known) =
    (before : List Bytes) × (after : List Bytes) × (list ≡ before ++ known ∷ after)
    × All (λ other. contains_text reason other ≡ false) before
    × (contains_text reason known ≡ true)

Searched-weaken :
    (k : Bytes) (list : List Bytes) (reason : Bytes) (o : Option Bytes)
    → contains_text reason k ≡ false
    → Searched list reason o
    → Searched (k ∷ list) reason o
Searched-weaken k list reason none absent h = (absent, h)
Searched-weaken k list reason (some known) absent (before, after, e, apart, found) =
    (k ∷ before, after, ap (λ l. k ∷ l) e, (absent, apart), found)

well_known_reason-Searched :
    (list : List Bytes) (reason : Bytes) → Searched list reason (well_known_reason list reason)
unfolding well_known_reason
well_known_reason-Searched [] reason = tt
well_known_reason-Searched (k ∷ list) reason = elim (Bool-cases (contains_text reason k)) [
  | inl found ↦ rw found ([], list, refl, tt, found)
  | inr other ↦ rw other (
      Searched-weaken k list reason (well_known_reason list reason) other
        (well_known_reason-Searched list reason))
]

-- The answer for a node: why it is left out, or what it is relabelled to.
abbrev pub Classified : SlurmNode → Option SlurmNode → Type 0
Classified node none =
    (contains node.states "DRAIN" ≡ false)
    ⊎ ((node.reason ≡ none)
        ⊎ ((reason : NodeReason) × (node.reason ≡ some reason)
            × Searched slurm_node_reasons_list reason.reason none))
Classified node (some node') =
    (contains node.states "DRAIN" ≡ true)
    × (reason : NodeReason) × (known : Bytes) × (node.reason ≡ some reason)
    × Searched slurm_node_reasons_list reason.reason (some known)
    × (node' ≡ relabelled node reason known)

by_reason-Classified :
    (node : SlurmNode) (o : Option NodeReason)
    → node.reason ≡ o
    → contains node.states "DRAIN" ≡ true
    → Classified node (by_reason node o)
unfolding by_reason
by_reason-Classified node none e drain = inr (inl e)
by_reason-Classified node (some reason) e drain =
    relabel-Classified (well_known_reason slurm_node_reasons_list reason.reason)
      (well_known_reason-Searched slurm_node_reasons_list reason.reason)
  where
    relabel-Classified :
        (o : Option Bytes)
        → Searched slurm_node_reasons_list reason.reason o
        → Classified node (relabel node reason o)
    relabel-Classified none h = inr (inr (reason, e, h))
    relabel-Classified (some known) h = (drain, reason, known, e, h, refl)

-- A node is left out only if it is not drained, has no reason, or none of the well known texts is
-- in its reason; any other node is relabelled to the first well known text that its reason contains,
-- with the time and the original text kept.
pub degraded_node-Classified : (node : SlurmNode) → Classified node (degraded_node node)
unfolding degraded_node
degraded_node-Classified node = elim (Bool-cases (contains node.states "DRAIN")) [
  | inl drain ↦ rw drain (by_reason-Classified node node.reason refl drain)
  | inr active ↦ rw active (inl active)
]
