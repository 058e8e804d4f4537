-- ===== src/JailedConfig/Reconfigure/Restarted.antt =====
-- When the wait for the nodes ends, and what is known then.
use soperator.Prelude.{
  refl, Option, none, some, false, nat_beq, ◌<◌, ◌≡◌, ◌⊎◌, ℕ, zero, suc, true, List, [], ◌∷◌,
  String, comparable_string, lookup, All, Bool-cases, inl, inr, arith,
}
use soperator.Exec.Runs.{bind_ok, wrapped_ok}
use soperator.Exec.{
  wrapped, raise, deadline_exceeded, Err, ok, err, Exec, Result-cases, is_deadline_exceeded,
}
use soperator.JailedConfig.Reconfigure.{
  SlurmApi, Response, has_restarted, still_waiting, unless_none, check_api_response,
  get_nodes_start_time, poll, after_poll, reconfigure_cluster,
}

-- The node is not among the start times, or has a later one than before.
abbrev pub IsRestarted : String × ℕ → List (String × ℕ) → Type 0
IsRestarted (name, start) after =
    (lookup after name ≡ none) ⊎ ((t : ℕ) × (lookup after name ≡ some t) × (start < t))

IsRestarted-of_has_restarted :
    (name : String) (start : ℕ) (after : List (String × ℕ)) (o : Option ℕ)
    → lookup after name ≡ o
    → has_restarted start o ≡ true
    → IsRestarted (name, start) after
IsRestarted-of_has_restarted name start after none e h = inl e
IsRestarted-of_has_restarted name start after (some t) e h = inr (t, e, ground (arith, h))

module _ {S : Type 0} (api : SlurmApi S) where
  -- The states at the readings of the start times that follow a state.
  pub data Polled (s : S) : S → Type 0 where
    first : Polled s s
    later : {t : S} → Polled s t → Polled s (get_nodes_start_time api t).1

  Polled-next : (s t : S) → Polled (get_nodes_start_time api s).1 t → Polled s t
  Polled-next s t first = later first
  Polled-next s t (later {t = u} h) = later (Polled-next s u h)

  -- At a reading of the start times after the state, the node had a later one or was not among
  -- them.
  abbrev pub SeenRestarted : S → String × ℕ → Type 0
  SeenRestarted s node =
      (t : S) × Polled s t
      × ((after : List (String × ℕ)) × ((get_nodes_start_time api t).0 ≡ ok after)
          × IsRestarted node after)

  seen_later :
      (s : S) (nodes : List (String × ℕ))
      → All (SeenRestarted (get_nodes_start_time api s).1) nodes
      → All (SeenRestarted s) nodes
  seen_later s [] h = tt
  seen_later s (node ∷ nodes) ((t, p, found), h) =
      ((t, Polled-next s t p, found), seen_later s nodes h)

  seen-of_next :
      (s : S) (after before : List (String × ℕ))
      → (get_nodes_start_time api s).0 ≡ ok after
      → All (SeenRestarted s) (still_waiting after before)
      → All (SeenRestarted s) before
  unfolding still_waiting
  seen-of_next s after [] e h = tt
  seen-of_next s after ((name, start) ∷ before) e h =
      elim (Bool-cases (has_restarted start (lookup after name))) [
        | inl gone ↦
            let seen =
              IsRestarted-of_has_restarted name start after (lookup after name) refl gone in
            ((s, first, (after, e, seen)), seen-of_next s after before e (rw gone at h))
        | inr waiting ↦
            let (one, rest) = (rw waiting at h) in (one, seen-of_next s after before e rest)
      ]

  seen-unless_none :
      (again : List (String × ℕ) → Exec S (Unit {0}))
      → ((left : List (String × ℕ)) (s : S) → (again left s).0 ≡ ok tt → All (SeenRestarted s) left)
      → (left : List (String × ℕ)) (s : S) → (unless_none api again left s).0 ≡ ok tt
      → All (SeenRestarted s) left
  seen-unless_none again ih [] s h = tt
  seen-unless_none again ih (node ∷ nodes) s h = ih (node ∷ nodes) s h

  poll-SeenRestarted :
      (ticks : ℕ) (before : List (String × ℕ)) (s : S)
      → (poll api ticks before s).0 ≡ ok tt
      → All (SeenRestarted s) before
  unfolding poll
  poll-SeenRestarted zero before s h = elim (Result-cases (get_nodes_start_time api s).0) [
    | inl (after, e) ↦ seen-of_next s after before e (
        seen_later s (still_waiting after before) (
          seen-unless_none (λ left. raise deadline_exceeded)
            (λ left t k. absurd (ground (arith, k))) (still_waiting after before)
            (get_nodes_start_time api s).1 (rw e at h)))
    | inr (x, e) ↦ absurd (ground arith)
  ]
  poll-SeenRestarted (suc ticks) before s h = elim (Result-cases (get_nodes_start_time api s).0) [
    | inl (after, e) ↦ seen-of_next s after before e (
        seen_later s (still_waiting after before) (
          seen-unless_none (poll api ticks) (poll-SeenRestarted ticks) (still_waiting after before)
            (get_nodes_start_time api s).1 (rw e at h)))
    | inr (x, e) ↦ absurd (ground arith)
  ]

  -- The Slurm API has taken the request to reconfigure that was sent in the state.
  abbrev pub Requested : S → Type 0
  Requested s =
      (response : Response) × ((api.get_reconfigure s).0 ≡ ok response)
      × (response.status ≡ 200)
      × (response.errors ≡ [])

  -- The start times were read, then the request was sent and taken, and then the wait ended.
  abbrev pub Awaited : ℕ → S → Type 0
  Awaited ticks s =
      let s1 = (get_nodes_start_time api s).1 in
      let s2 = (api.get_reconfigure s1).1 in
      (before : List (String × ℕ)) × ((get_nodes_start_time api s).0 ≡ ok before)
      × Requested s1
      × (All (SeenRestarted s2) before
          ⊎ ((e : Err) × ((poll api ticks before s2).0 ≡ err e) × (is_deadline_exceeded e ≡ false)))

  checked_ok :
      (response : Response) (s : S)
      → (check_api_response api response s).0 ≡ ok tt
      → (response.status ≡ 200)
        × (response.errors ≡ [])
        × ((check_api_response api response s).1 ≡ s)
  checked_ok response s h = elim (Bool-cases (nat_beq response.status 200)) [
    | inr other ↦ absurd (ground (arith, rw other at h))
    | inl same ↦ go response.errors same refl
  ]
    where
      go :
          (errors : List String)
          → nat_beq response.status 200 ≡ true
          → response.errors ≡ errors
          → (response.status ≡ 200)
            × (response.errors ≡ [])
            × ((check_api_response api response s).1 ≡ s)
      go [] same e = (ground (arith, same), e, rw (same, e) refl)
      go (x ∷ xs) same e = absurd (ground (arith, rw (same, e) at h))

  -- When a reconfigure returns without an error: the start times were read, then the request was
  -- sent and taken, and then either every node of that list was seen with a later start time, or
  -- gone, at a reading after the request, or the wait ended with an error other than the deadline.
  pub reconfigure_cluster-Awaited :
      (ticks : ℕ) (s : S) → (reconfigure_cluster api ticks s).0 ≡ ok tt → Awaited ticks s
  unfolding reconfigure_cluster
  reconfigure_cluster-Awaited ticks s h =
      let (before, e, h1) = bind_ok (get_nodes_start_time api) _ s tt h in
      let s1 = (get_nodes_start_time api s).1 in
      let request = wrapped "requesting Slurm API to reconfigure nodes" api.get_reconfigure in
      let (response, e1, h2) = bind_ok request _ s1 tt h1 in
      let s2 = (api.get_reconfigure s1).1 in
      let checked = wrapped "reconfigure via Slurm API" (check_api_response api response) in
      let (u, e2, h3) = bind_ok checked _ s2 tt h2 in
      let taken =
        checked_ok response s2
          (wrapped_ok "reconfigure via Slurm API" (check_api_response api response) s2 tt e2) in
      let k : (after_poll api (poll api ticks before s2).0 (poll api ticks before s2).1).0 ≡ ok tt =
        (rw taken.2 at h3) in
      (
        before,
        e,
        (
          response,
          wrapped_ok "requesting Slurm API to reconfigure nodes" api.get_reconfigure s1 response e1,
          taken.0,
          taken.1,
        ),
        elim (Result-cases (poll api ticks before s2).0) [
          | inl (done, p) ↦ inl (poll-SeenRestarted ticks before s2 (ground (arith, p)))
          | inr (x, p) ↦ inr (x, p, swallowed x _ (rw p at k))
        ],
      )
    where
      swallowed :
          (x : Err) (t : S) → (after_poll api (err x) t).0 ≡ ok tt → is_deadline_exceeded x ≡ false
      swallowed x t k = elim (Bool-cases (is_deadline_exceeded x)) [
        | inl deadline ↦ absurd (ground arith)
        | inr other ↦ other
      ]
