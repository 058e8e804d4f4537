-- ===== src/PowerManager/Action/Tests.antt =====
-- A cluster as the list of its power states, and the theorems about it at concrete inputs.
use soperator.Prelude.{
  ◌≡◌, refl, pos, true, Option, none, some, List, [], ◌∷◌, Bytes, comparable_bytes, codes, All,
  bytes_beq_iff, ◌==◌, if◌then◌else◌, arith, Bool-cases, inl, inr,
}
use soperator.Exec.{Err, not_found, Result, ok, err}
use soperator.PowerManager.Action.{PowerState, Client, update_node_set_power_state, wait_loop}
use soperator.PowerManager.Action.Store.{IsStore, first}
use soperator.PowerManager.Action.Effects.{
  updated, ByOthers, update_node_set_power_state_recorded, wait_loop-Seen, Seen,
}

abbrev States : Type 0
States = List PowerState

abbrev find : States → Bytes → Option PowerState
find [] n = none
find (p ∷ s) n = if p.name == n then some p else find s n

abbrev found : Option PowerState → Result PowerState
found none = err not_found
found (some p) = ok p

abbrev local : Client States
local = record {
  connect = λ s. (ok tt, s);
  get_power_state = λ namespace n s. (found (find s n), s);
  create_power_state = λ p s. (ok tt, p ∷ s);
  update_power_state = λ p s. (ok tt, p ∷ s);
  list_node_sets = λ namespace s. (ok [], s);
  retry_on_conflict = λ m. m;
}

find_named : (s : States) (n : Bytes) (p : PowerState) → find s n ≡ some p → p.name ≡ n
find_named [] n p h = absurd (ground arith)
find_named (q ∷ s) n p h = elim (Bool-cases (q.name == n)) [
  | inl same ↦ ground (arith, bytes_beq_iff q.name n)
  | inr other ↦ find_named s n p (rw other at h)
]

found_ok : (o : Option PowerState) (p : PowerState) → found o ≡ ok p → o ≡ some p
found_ok o p h = ground arith

found_err : (o : Option PowerState) (e : Err) → found o ≡ err e → o ≡ none
found_err o e h = ground arith

-- Nobody else writes.
abbrev Nobody : States → States → Type 0
Nobody s t = ⊥

abbrev local_store : IsStore local (codes "ns") Nobody
local_store = record {
  stored = find;
  named = find_named;
  get_ok = λ s n p h. found_ok (find s n) p h;
  get_missing = λ s n e h missing. found_err (find s n) e h;
  get_same = λ s n j. refl;
  update_ok = λ s p h j. refl;
  create_ok = λ s p h j. refl;
  update_err = λ s p e h. absurd (ground (arith, h));
  create_err = λ s p e h. absurd (ground (arith, h));
  retry_ok = λ m s h. (s, first, refl);
}

abbrev gpu : PowerState
gpu = record {
  name = codes "gpu";
  namespace = codes "ns";
  node_set_ref = codes "gpu";
  active_nodes = pos 1 ∷ [];
}

update_node_set_power_state_recorded_example :
    (s0 : States) × ByOthers local (codes "ns") local_store (gpu ∷ []) s0
    × ((j : Bytes)
        → find
            (update_node_set_power_state local
              (codes "ns")
              (codes "gpu")
              (pos 3 ∷ [])
              true
              (gpu ∷ [])).1
            j
          ≡ (if codes "gpu" == j
              then some
                  (updated (codes "ns") (codes "gpu") (pos 3 ∷ []) true (find s0 (codes "gpu")))
              else find s0 j))
unfolding update_node_set_power_state
update_node_set_power_state_recorded_example =
    update_node_set_power_state_recorded local (codes "ns") local_store (codes "gpu") (pos 3 ∷ [])
      true (gpu ∷ []) refl

wait_loop-Seen_example :
    All (Seen local (codes "ns") local_store true) ((codes "gpu", pos 1 ∷ []) ∷ [])
unfolding wait_loop
wait_loop-Seen_example =
    wait_loop-Seen local (codes "ns") local_store true ((codes "gpu", pos 1 ∷ []) ∷ []) 2 (gpu ∷ [])
      refl
