-- ===== src/JailedConfig/Reconfigure.antt =====
-- Making every Slurm node read its configuration again
-- (internal/controller/sconfigcontroller/jailedconfig_controller.go).
pub mod Restarted
pub mod Returns
use soperator.Prelude.{
  ℕ, zero, suc, Bool, true, false, not, ◌||◌, Option, none, some, List, [], ◌∷◌, String,
  comparable_string, ◌==◌, nat_beq, ltb, lookup, put, contains, if◌then◌else◌,
}
use soperator.Exec.{
  Err, message, wrap, deadline_exceeded, Result, ok, err, Exec, pure, raise, attempt, wrapped,
  lifted, ◌>>=◌, ◌>>◌, is_deadline_exceeded,
}

-- The fields of a node of the Slurm REST API; `start` is `SlurmdStartTime`.
pub record ApiNode : Type 0 where
  pub name : String
  pub states : List String
  pub start_infinite : Bool
  pub start_set : Bool
  pub start_number : ℕ

-- A response: its status, the errors of its body, and the nodes, if it lists nodes.
-- A body without a list of errors, on which the code panics, is left out.
pub record Response : Type 0 where
  pub status : ℕ
  pub errors : List String
  pub nodes : List ApiNode

-- The client of the Slurm REST API.
pub record SlurmApi (S : Type 0) : Type 0 where
  pub get_nodes : Exec S Response
  pub get_reconfigure : Exec S Response

-- The nodes whose start time does not change by a reconfigure.
unfoldable pub is_skipped : List String → Bool
is_skipped [] = false
is_skipped (state ∷ states) =
    state == "NOT_RESPONDING"
    || state == "POWERING_DOWN"
    || state == "POWERED_DOWN"
    || is_skipped states

-- One round of the loop of `getNodesStartTime`.
unfoldable pub add_start : ApiNode → Option ℕ → List (String × ℕ) → Result (List (String × ℕ))
unfolding is_skipped put
add_start node (some t) node_to_start = err (message "duplicated worker name in Slurm API")
add_start node none node_to_start =
    if is_skipped node.states
    then ok node_to_start
    else if node.start_infinite
    then err (message "unexpected infinite start time for worker in Slurm API")
    else if not node.start_set
    then err (message "unexpected unset start time for worker in Slurm API")
    else ok (put node.name node.start_number node_to_start)

unfoldable pub start_times : List ApiNode → List (String × ℕ) → Result (List (String × ℕ))
unfolding add_start lookup
start_times [] node_to_start = ok node_to_start
start_times (node ∷ nodes) node_to_start =
    elim (add_start node (lookup node_to_start node.name) node_to_start) [
      | ok more ↦ start_times nodes more
      | err e ↦ err e
    ]

-- The nodes that are still waited for after one poll: a node with a later start time has
-- restarted, and one that is not there cannot be followed.
abbrev pub has_restarted : ℕ → Option ℕ → Bool
has_restarted before none = true
has_restarted before (some after) = ltb before after

unfoldable pub still_waiting : List (String × ℕ) → List (String × ℕ) → List (String × ℕ)
unfolding lookup
still_waiting after [] = []
still_waiting after ((name, start) ∷ before) =
    let rest = still_waiting after before in
    if has_restarted start (lookup after name) then rest else (name, start) ∷ rest

module _ {S : Type 0} (api : SlurmApi S) where
  -- `checkStatus` and `checkApiErrors`
  abbrev pub check_api_response : Response → Exec S (Unit {0})
  check_api_response response =
      if not (nat_beq response.status 200)
      then raise (message "unexpected status code")
      else elim response.errors [ [] ↦ pure tt | e ∷ errors ↦ raise (message "API error") ]

  unfoldable pub get_nodes : Exec S (List ApiNode)
  get_nodes = do
    response ← wrapped "listing workers via Slurm API" api.get_nodes
    wrapped "listing workers via Slurm API" (check_api_response response)
    pure response.nodes

  unfoldable pub get_nodes_start_time : Exec S (List (String × ℕ))
  unfolding get_nodes start_times
  get_nodes_start_time = do nodes ← get_nodes; lifted (start_times nodes [])

  -- The loop ends when no node is left.
  abbrev pub unless_none :
      (List (String × ℕ) → Exec S (Unit {0})) → List (String × ℕ) → Exec S (Unit {0})
  unless_none again [] = pure tt
  unless_none again (node ∷ nodes) = again (node ∷ nodes)

  -- The loop of `pollSlurmNodesRestart`, with the number of intervals before the deadline.
  unfoldable pub poll : ℕ → List (String × ℕ) → Exec S (Unit {0})
  unfolding get_nodes_start_time still_waiting
  poll zero node_to_start_before = do
    after ← get_nodes_start_time
    unless_none (λ left. raise deadline_exceeded) (still_waiting after node_to_start_before)
  poll (suc ticks) node_to_start_before = do
    after ← get_nodes_start_time
    unless_none (poll ticks) (still_waiting after node_to_start_before)

  -- `reconfigureCluster` looks for one error only.
  abbrev pub after_poll : Result (Unit {0}) → Exec S (Unit {0})
  after_poll (ok u) = pure tt
  after_poll (err e) =
      if is_deadline_exceeded e then raise (wrap "nodes did not restart" e) else pure tt

  unfoldable pub reconfigure_cluster : ℕ → Exec S (Unit {0})
  unfolding get_nodes_start_time poll
  reconfigure_cluster ticks = do
    node_to_start_before ← get_nodes_start_time
    response ← wrapped "requesting Slurm API to reconfigure nodes" api.get_reconfigure
    wrapped "reconfigure via Slurm API" (check_api_response response)
    r ← attempt (poll ticks node_to_start_before)
    after_poll r
