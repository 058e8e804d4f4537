-- ===== src/PowerManager/Action/Effects.antt =====
-- What the commands of the power manager do to the NodeSetPowerStates of a cluster that behaves as
-- the Kubernetes API documents.
use soperator.Prelude.{
  String, ◌≡◌, refl, ◌∙◌, ap, ℕ, zero, suc, ℤ, Bool, true, false, inl, inr, Option, none, some,
  List, [], ◌∷◌, Bytes, comparable_bytes, ◌==◌, All, lookup, arith, if◌then◌else◌, Bool-cases,
}
use soperator.Exec.{Err, Result, Result-cases, ok, err, Exec, wrapped, is_not_found}
use soperator.PowerManager.ActiveNodes.{new_active_nodes, nodes_status}
use soperator.PowerManager.Action.{
  PowerState, NodeSet, Client, new_power_state, is_ephemeral, write_power_state, try_update,
  update_node_set_power_state, power_node_set, power_node_sets, check_nodes_status, poll_groups,
  wait_loop,
}
use soperator.PowerManager.Action.Store.{IsStore, Attempted, first, failed, meanwhile}

-- What a successful update makes of the stored state of its NodeSet: where there was none, the
-- ordinals of the call are forgotten.
abbrev pub updated : Bytes → Bytes → List ℤ → Bool → Option PowerState → PowerState
updated namespace n ordinals resume none = record {
  name = n;
  namespace = namespace;
  node_set_ref = n;
  active_nodes = [];
}
updated namespace n ordinals resume (some p) = record p {
  active_nodes = new_active_nodes resume ordinals p.active_nodes;
}

abbrev pub is_power_managed : Option NodeSet → Bool
is_power_managed none = false
is_power_managed (some ns) = is_ephemeral ns

module _ {S : Type 0} (client : Client S) (namespace : Bytes) where
  -- NodeSets that are unknown or not ephemeral are left alone: an action on such groups only
  -- succeeds and changes nothing.
  power_node_sets_skip :
      (resume : Bool) (sets : List (Bytes × NodeSet)) (groups : List (Bytes × List ℤ)) (s : S)
      → All (λ g. is_power_managed (lookup sets g.0) ≡ false) groups
      → power_node_sets client namespace resume sets groups s ≡ (ok tt, s)
  unfolding power_node_sets power_node_set
  power_node_sets_skip resume sets [] s h = refl
  power_node_sets_skip resume sets ((n, ordinals) ∷ groups) s h =
      ground (arith, power_node_sets_skip resume sets groups s h.1)

module _ {S : Type 0} (client : Client S) (namespace : Bytes) {others : S → S → Type 0}
    (store : IsStore client namespace others) where
  open store use {
    stored, named, get_ok, get_missing, get_same, update_ok, create_ok, update_err, create_err,
    retry_ok,
  }

  wrapped_ok :
      (msg : String) (m : Exec S (Unit {0})) (s : S) → (wrapped msg m s).0 ≡ ok tt → (m s).0 ≡ ok tt
  wrapped_ok msg m s h = ground arith

  write_power_state_stored :
      (n : Bytes) (ordinals : List ℤ) (resume : Bool) (r : Result PowerState) (t : S)
      (o : Option PowerState)
      → ((p : PowerState) → r ≡ ok p → (o ≡ some p) × (p.name ≡ n))
      → ((e : Err) → r ≡ err e → is_not_found e ≡ true → o ≡ none)
      → (write_power_state client namespace n ordinals resume r t).0 ≡ ok tt
      → (j : Bytes)
      → stored (write_power_state client namespace n ordinals resume r t).1 j
        ≡ (if n == j then some (updated namespace n ordinals resume o) else stored t j)
  unfolding write_power_state
  write_power_state_stored n ordinals resume (ok p) t o found absent h j =
      let (read, name) = found p refl in
      rw read (
        update_ok t (record p { active_nodes = new_active_nodes resume ordinals p.active_nodes }) h
          j
        ∙ ap
            (λ k.
              if k == j
              then some
                  (record p { active_nodes = new_active_nodes resume ordinals p.active_nodes })
              else stored t j)
            name)
  write_power_state_stored n ordinals resume (err e) t o found absent h j =
      elim (Bool-cases (is_not_found e)) [
        | inl missing ↦
            rw (absent e refl missing, missing)
              (create_ok t (new_power_state namespace n)
                (wrapped_ok _ (client.create_power_state (new_power_state namespace n)) t
                  (rw missing at h))
                j)
        | inr other ↦ absurd (ground arith)
      ]

  try_update_stored :
      (n : Bytes) (ordinals : List ℤ) (resume : Bool) (s : S)
      → (try_update client namespace n ordinals resume s).0 ≡ ok tt
      → (j : Bytes)
      → stored (try_update client namespace n ordinals resume s).1 j
        ≡ (if n == j then some (updated namespace n ordinals resume (stored s n)) else stored s j)
  unfolding try_update
  try_update_stored n ordinals resume s h j = rw (← get_same s n j) (
      write_power_state_stored n ordinals resume (client.get_power_state namespace n s).0
        (client.get_power_state namespace n s).1 (stored s n)
        (λ p e. (get_ok s n p e, named s n p (get_ok s n p e)))
        (λ x e missing. get_missing s n x e missing) h j)

  write_power_state_failed :
      (n : Bytes) (ordinals : List ℤ) (resume : Bool) (r : Result PowerState) (t : S) (x : Err)
      → (write_power_state client namespace n ordinals resume r t).0 ≡ err x
      → (j : Bytes)
      → stored (write_power_state client namespace n ordinals resume r t).1 j ≡ stored t j
  unfolding write_power_state
  write_power_state_failed n ordinals resume (ok p) t x h j =
      update_err t (record p { active_nodes = new_active_nodes resume ordinals p.active_nodes }) x h
        j
  write_power_state_failed n ordinals resume (err e) t x h j = elim (Bool-cases (is_not_found e)) [
    | inr other ↦ rw other refl
    | inl missing ↦
        let create = client.create_power_state (new_power_state namespace n) in
        elim (Result-cases (create t).0) [
          | inl (tt, made) ↦ absurd (ground (arith, made, rw missing at h))
          | inr (y, f) ↦ rw missing (create_err t (new_power_state namespace n) y f j)
        ]
  ]

  try_update_failed :
      (n : Bytes) (ordinals : List ℤ) (resume : Bool) (s : S) (x : Err)
      → (try_update client namespace n ordinals resume s).0 ≡ err x
      → (j : Bytes) → stored (try_update client namespace n ordinals resume s).1 j ≡ stored s j
  unfolding try_update
  try_update_failed n ordinals resume s x h j =
      write_power_state_failed n ordinals resume (client.get_power_state namespace n s).0
        (client.get_power_state namespace n s).1 x h j
      ∙ get_same s n j

  -- From `s` on, only other writers have changed what is stored.
  pub data ByOthers (s : S) : S → Type 0 where
    unchanged : ByOthers s s
    same_stored : {t u : S} → ByOthers s t → ((j : Bytes) → stored u j ≡ stored t j) → ByOthers s u
    written : {t u : S} → ByOthers s t → others t u → ByOthers s u

  ByOthers-of_Attempted :
      (n : Bytes) (ordinals : List ℤ) (resume : Bool) (s u : S)
      → Attempted others (try_update client namespace n ordinals resume) s u
      → ByOthers s u
  ByOthers-of_Attempted n ordinals resume s u first = unchanged
  ByOthers-of_Attempted n ordinals resume s u (failed {t} {e} before h) =
      same_stored (ByOthers-of_Attempted n ordinals resume s t before)
        (try_update_failed n ordinals resume t e h)
  ByOthers-of_Attempted n ordinals resume s u (meanwhile {t} before o) =
      written (ByOthers-of_Attempted n ordinals resume s t before) o

  -- An update that succeeds leaves the state that its NodeSet had in a state of the store to which
  -- only other writers have led from the start, changed as asked, or a new one without active nodes
  -- where there was none, and every other NodeSetPowerState as it was there: retries lose nothing.
  pub update_node_set_power_state_recorded :
      (n : Bytes) (ordinals : List ℤ) (resume : Bool) (s : S)
      → (update_node_set_power_state client namespace n ordinals resume s).0 ≡ ok tt
      → (s0 : S) × ByOthers s s0
        × ((j : Bytes)
            → stored (update_node_set_power_state client namespace n ordinals resume s).1 j ≡ (
                if n == j
                then some (updated namespace n ordinals resume (stored s0 n))
                else stored s0 j))
  unfolding update_node_set_power_state
  update_node_set_power_state_recorded n ordinals resume s h =
      let (s0, before, last) = retry_ok (try_update client namespace n ordinals resume) s h in
      (
        s0,
        ByOthers-of_Attempted n ordinals resume s s0 before,
        λ j. rw (← last) (try_update_stored n ordinals resume s0 (rw last h) j),
      )

  -- What a poll asks of one group: that its stored state showed the wanted status when it was read.
  abbrev pub Seen : Bool → Bytes × List ℤ → Type 0
  Seen added (n, ordinals) =
      (s1 : S) × (p : PowerState) × (stored s1 n ≡ some p)
      × (nodes_status added ordinals p.active_nodes ≡ true)

  check_nodes_status-Seen :
      (n : Bytes) (ordinals : List ℤ) (added : Bool) (s : S)
      → (check_nodes_status client namespace n ordinals added s).0 ≡ ok true
      → Seen added (n, ordinals)
  unfolding check_nodes_status
  check_nodes_status-Seen n ordinals added s h =
      elim (Result-cases (client.get_power_state namespace n s).0) [
        | inl (p, e) ↦ (s, p, get_ok s n p e, ground arith)
        | inr (x, e) ↦ absurd (ground arith)
      ]

  poll_groups-Seen :
      (added : Bool) (groups : List (Bytes × List ℤ)) (s : S)
      → (poll_groups client namespace added groups s).0 ≡ ok true
      → All (Seen added) groups
  unfolding poll_groups
  poll_groups-Seen added [] s h = tt
  poll_groups-Seen added ((n, ordinals) ∷ groups) s h =
      let c = check_nodes_status client namespace n ordinals added s in
      elim (Result-cases (poll_groups client namespace added groups c.1).0) [
        | inl (rest, e) ↦ (
          check_nodes_status-Seen n ordinals added s (ground arith),
          poll_groups-Seen added groups c.1 (ground arith),
        )
        | inr (x, e) ↦ absurd (ground arith)
      ]

  -- When the wait returns, the stored state of every NodeSet has shown the wanted status of its
  -- ordinals at a moment when it was read.
  pub wait_loop-Seen :
      (added : Bool) (groups : List (Bytes × List ℤ)) (ticks : ℕ) (s : S)
      → (wait_loop client namespace added groups ticks s).0 ≡ ok tt
      → All (Seen added) groups
  unfolding wait_loop
  wait_loop-Seen added groups zero s h = cc
  wait_loop-Seen added groups (suc ticks) s h =
      let poll = poll_groups client namespace added groups s in
      elim (Result-cases poll.0) [
        | inl (true, e) ↦ poll_groups-Seen added groups s e
        | inl (false, e) ↦ wait_loop-Seen added groups ticks poll.1 (ground arith)
        | inr (x, e) ↦ absurd (ground arith)
      ]
