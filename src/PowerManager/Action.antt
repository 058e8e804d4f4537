-- ===== src/PowerManager/Action.antt =====
-- The commands of the power manager: `resume` and `suspend` change the NodeSetPowerState of each
-- NodeSet, `wait-added` and `wait-removed` poll it (cmd/powermanager/main.go). The Kubernetes
-- client, `retry.RetryOnConflict` and the creation of the client are parameters.
pub mod Store
pub mod Effects
mod Tests
use soperator.Prelude.{
  ◌≡◌, ℕ, zero, suc, ℤ, Bool, true, false, not, ◌&&◌, Option, none, some, List, [], ◌∷◌, Bytes,
  comparable_bytes, codes, lookup, put, if◌then◌else◌,
}
use soperator.Exec.{
  Err, message, wrap, Result, ok, err, Exec, pure, raise, attempt, wrapped, ◌>>=◌, ◌>>◌,
  is_not_found,
}
use soperator.PowerManager.NodeList.{NodeRef, parse_node_list, group_nodes_by_node_set}
use soperator.PowerManager.ActiveNodes.{new_active_nodes, nodes_status}

-- The fields of a NodeSetPowerState that the program reads or writes.
pub record PowerState : Type 0 where
  pub name : Bytes
  pub namespace : Bytes
  pub node_set_ref : Bytes
  pub active_nodes : List ℤ

-- `ephemeral_nodes` is a `*bool`.
pub record NodeSet : Type 0 where
  pub name : Bytes
  pub ephemeral_nodes : Option Bool

-- The cluster as the program meets it.
pub record Client (S : Type 0) : Type 0 where
  pub connect : Exec S (Unit {0})
  pub get_power_state : Bytes → Bytes → Exec S PowerState
  pub create_power_state : PowerState → Exec S (Unit {0})
  pub update_power_state : PowerState → Exec S (Unit {0})
  pub list_node_sets : Bytes → Exec S (List NodeSet)
  pub retry_on_conflict : Exec S (Unit {0}) → Exec S (Unit {0})

abbrev pub new_power_state : Bytes → Bytes → PowerState
new_power_state namespace node_set_name = record {
  name = node_set_name;
  namespace = namespace;
  node_set_ref = node_set_name;
  active_nodes = [];
}

-- `nodeSetMap`: for a name that stands twice the last NodeSet stays.
pub node_set_map : List NodeSet → List (Bytes × NodeSet) → List (Bytes × NodeSet)
unfolding put
node_set_map [] m = m
node_set_map (ns ∷ items) m = node_set_map items (put ns.name ns m)

abbrev pub is_ephemeral : NodeSet → Bool
is_ephemeral ns = elim ns.ephemeral_nodes [ none ↦ false | some e ↦ e ]

module _ {S : Type 0} (client : Client S) (namespace : Bytes) where
  -- What one attempt does with the answer of `client.Get`.
  pub write_power_state : Bytes → List ℤ → Bool → Result PowerState → Exec S (Unit {0})
  write_power_state node_set_name ordinals resume (err e) =
      if is_not_found e
      then wrapped "failed to create NodeSetPowerState"
          (client.create_power_state (new_power_state namespace node_set_name))
      else raise (wrap "failed to get NodeSetPowerState" e)
  write_power_state node_set_name ordinals resume (ok power_state) =
      client.update_power_state (record power_state {
        active_nodes = new_active_nodes resume ordinals power_state.active_nodes;
      })

  pub try_update : Bytes → List ℤ → Bool → Exec S (Unit {0})
  unfolding write_power_state
  try_update node_set_name ordinals resume =
      attempt (client.get_power_state namespace node_set_name)
      >>= write_power_state node_set_name ordinals resume

  pub update_node_set_power_state : Bytes → List ℤ → Bool → Exec S (Unit {0})
  unfolding try_update
  update_node_set_power_state node_set_name ordinals resume =
      client.retry_on_conflict (try_update node_set_name ordinals resume)

  -- One round of the loop of `runPowerAction`.
  pub power_node_set : Bool → Bytes → List ℤ → Option NodeSet → Exec S (Unit {0})
  unfolding update_node_set_power_state
  power_node_set resume node_set_name ordinals none = pure tt
  power_node_set resume node_set_name ordinals (some node_set) =
      if not (is_ephemeral node_set)
      then pure tt
      else update_node_set_power_state node_set_name ordinals resume

  pub power_node_sets : Bool → List (Bytes × NodeSet) → List (Bytes × List ℤ) → Exec S (Unit {0})
  power_node_sets resume sets [] = pure tt
  power_node_sets resume sets ((node_set_name, ordinals) ∷ groups) = do
    power_node_set resume node_set_name ordinals (lookup sets node_set_name)
    power_node_sets resume sets groups

  abbrev pub parsed : Option (List NodeRef) → Exec S (List NodeRef)
  parsed none = raise (message "failed to parse node list")
  parsed (some refs) = pure refs

  pub run_power_action : Bytes → Bool → Exec S (Unit {0})
  run_power_action nodes resume = do
    wrapped "failed to create kubernetes client" client.connect
    node_refs ← parsed (parse_node_list nodes)
    node_sets ← wrapped "failed to list NodeSets" (client.list_node_sets namespace)
    power_node_sets resume (node_set_map node_sets []) (group_nodes_by_node_set node_refs)

  pub check_nodes_status : Bytes → List ℤ → Bool → Exec S Bool
  unfolding nodes_status
  check_nodes_status node_set_name ordinals check_added = do
    power_state ←
        wrapped "failed to get NodeSetPowerState" (client.get_power_state namespace node_set_name)
    pure (nodes_status check_added ordinals power_state.active_nodes)

  abbrev pub done : Result Bool → Bool
  done (ok b) = b
  done (err e) = false

  -- The poll of one tick: `allDone`, every group asked, an error counting as not done.
  pub poll_groups : Bool → List (Bytes × List ℤ) → Exec S Bool
  unfolding check_nodes_status
  poll_groups added [] = pure true
  poll_groups added ((node_set_name, ordinals) ∷ groups) = do
    r ← attempt (check_nodes_status node_set_name ordinals added)
    rest ← poll_groups added groups
    pure (done r && rest)

  -- The loop of `waitForNodes` over the ticks that come before the deadline.
  pub wait_loop : Bool → List (Bytes × List ℤ) → ℕ → Exec S (Unit {0})
  unfolding poll_groups
  wait_loop added groups zero = raise (message "timeout waiting for nodes")
  wait_loop added groups (suc ticks) =
      let again = wait_loop added groups ticks in
      (do all_done ← poll_groups added groups; if all_done then pure tt else again)

  pub wait_for_nodes : Bytes → Bool → ℕ → Exec S (Unit {0})
  wait_for_nodes nodes wait_for_added ticks = do
    wrapped "failed to create kubernetes client" client.connect
    node_refs ← parsed (parse_node_list nodes)
    wait_loop wait_for_added (group_nodes_by_node_set node_refs) ticks
