-- ===== src/JailedConfig/Reconfigure/Returns.antt =====
-- The wait for the nodes returns once they have restarted.
use soperator.Prelude.{
  ◌≡◌, refl, ℕ, zero, suc, ◌≤◌, true, List, [], ◌∷◌, String, comparable_string, lookup, All,
  Bool-cases, inl, inr, arith,
}
use soperator.Exec.{ok, Exec}
use soperator.JailedConfig.Reconfigure.{
  SlurmApi, has_restarted, still_waiting, get_nodes_start_time, unless_none, poll,
}

-- Every node of the list has restarted or is gone.
abbrev pub AllRestarted : List (String × ℕ) → List (String × ℕ) → Type 0
AllRestarted after = All (λ node. has_restarted node.1 (lookup after node.0) ≡ true)

none_waiting :
    (after before : List (String × ℕ)) → AllRestarted after before → still_waiting after before ≡ []
unfolding still_waiting
none_waiting after [] h = refl
none_waiting after ((name, start) ∷ before) h = rw h.0 (none_waiting after before h.1)

-- A poll only takes nodes off the list.
still_waiting-AllRestarted :
    (seen after before : List (String × ℕ))
    → AllRestarted after before
    → AllRestarted after (still_waiting seen before)
unfolding still_waiting
still_waiting-AllRestarted seen after [] h = tt
still_waiting-AllRestarted seen after ((name, start) ∷ before) h =
    elim (Bool-cases (has_restarted start (lookup seen name))) [
      | inl gone ↦ rw gone (still_waiting-AllRestarted seen after before h.1)
      | inr waiting ↦ rw waiting (h.0, still_waiting-AllRestarted seen after before h.1)
    ]

module _ {S : Type 0} (api : SlurmApi S) where
  -- The state after so many polls.
  abbrev pub after_polls : ℕ → S → S
  after_polls zero s = s
  after_polls (suc k) s = after_polls k (get_nodes_start_time api s).1

  unless_none_returns :
      (after : List (String × ℕ)) (again : List (String × ℕ) → Exec S (Unit {0})) (t : S)
      → ((left : List (String × ℕ)) → AllRestarted after left → (again left t).0 ≡ ok tt)
      → (left : List (String × ℕ)) → AllRestarted after left
      → (unless_none api again left t).0 ≡ ok tt
  unless_none_returns after again t ih [] all = refl
  unless_none_returns after again t ih (node ∷ nodes) all = ih (node ∷ nodes) all

  -- If the start times can be read at every moment, and after `k` polls, with the deadline not
  -- before the next one, those that are read show every node restarted or gone, then the wait
  -- returns without an error.
  pub poll_returns :
      (readable : (s : S)
        → (after : List (String × ℕ)) × ((get_nodes_start_time api s).0 ≡ ok after))
      (k ticks : ℕ) (before after : List (String × ℕ)) (s : S)
      → k ≤ ticks
      → (get_nodes_start_time api (after_polls k s)).0 ≡ ok after
      → AllRestarted after before
      → (poll api ticks before s).0 ≡ ok tt
  unfolding poll
  poll_returns readable zero zero before after s h e all =
      rw (e, none_waiting after before all) refl
  poll_returns readable zero (suc ticks) before after s h e all =
      rw (e, none_waiting after before all) refl
  poll_returns readable (suc k) zero before after s h e all = absurd (omega arith)
  poll_returns readable (suc k) (suc ticks) before after s h e all =
      let (seen, r) = readable s in
      let t = (get_nodes_start_time api s).1 in
      rw r (
        unless_none_returns after (poll api ticks) t
          (λ left all'. poll_returns readable k ticks left after t (omega (arith, h)) e all')
          (still_waiting seen before) (still_waiting-AllRestarted seen after before all))
