-- ===== src/JailedConfig/Reconcile/Keeps.antt =====
-- What the calls of the Kubernetes and Slurm APIs in a reconcile leave as it is.
use soperator.Prelude.{
  ℕ, zero, suc, Bool, true, false, none, some, List, [], ◌∷◌, String, not, comparable_string, ◌==◌,
  nat_beq,
}
use soperator.Exec.{
  Result, ok, err, Exec, pure, raise, wrapped, is_not_found, is_deadline_exceeded, wrap, message,
  deadline_exceeded,
}
use soperator.Exec.Runs.{Runs-if, Runs-wrapped}
use soperator.Exec.Keeps.{Keeps, Keeps-attempt, Keeps-pure, Keeps-raise, lifted-Keeps, Keeps-bind}
use soperator.JailedConfig.Batch.{Fs}
use soperator.JailedConfig.Payload.{ConfigMap}
use soperator.JailedConfig.Reconfigure.{
  SlurmApi, Response, check_api_response, get_nodes, start_times, get_nodes_start_time, unless_none,
  still_waiting, poll, after_poll, reconfigure_cluster,
}
use soperator.JailedConfig.Status.{
  Condition, Config, KubeClient, condition, initial_condition, set_conditions,
  initialize_conditions, initialized, should_initialize_conditions,
}
use soperator.JailedConfig.Reconcile.{
  find_config_map, found, on_action, run_actions, update_actions,
}

module _ {S : Type 0} (U : S → Type 0) (api : SlurmApi S) (nodes_keeps : Keeps U api.get_nodes)
    (reconfigure_keeps : Keeps U api.get_reconfigure) where
  check_api_response-Keeps : (response : Response) → Keeps U (check_api_response api response)
  check_api_response-Keeps response =
      Runs-if (not (nat_beq response.status 200)) _ _ (λ b. Keeps-raise U _)
        (λ b. body response.errors)
    where
      body :
          (errors : List String)
          → Keeps U (elim errors [ [] ↦ pure tt | e ∷ es ↦ raise (message "API error") ])
      body [] = Keeps-pure U tt
      body (e ∷ es) = Keeps-raise U (message "API error")

  get_nodes_start_time-Keeps : Keeps U (get_nodes_start_time api)
  unfolding get_nodes_start_time get_nodes
  get_nodes_start_time-Keeps =
      Keeps-bind U _ _
        (Keeps-bind U _ _ (Runs-wrapped _ _ nodes_keeps) (λ response.
          Keeps-bind U _ _ (Runs-wrapped _ _ (check_api_response-Keeps response))
            (λ u. Keeps-pure U response.nodes)))
        (λ nodes. lifted-Keeps U (start_times nodes []))

  unless_none-Keeps :
      (again : List (String × ℕ) → Exec S (Unit {0})) (left : List (String × ℕ))
      → ((l : List (String × ℕ)) → Keeps U (again l))
      → Keeps U (unless_none api again left)
  unless_none-Keeps again [] h = Keeps-pure U tt
  unless_none-Keeps again (node ∷ nodes) h = h (node ∷ nodes)

  poll-Keeps : (ticks : ℕ) (before : List (String × ℕ)) → Keeps U (poll api ticks before)
  unfolding poll
  poll-Keeps zero before = Keeps-bind U _ _ get_nodes_start_time-Keeps (λ after.
      unless_none-Keeps _ (still_waiting after before) (λ l. Keeps-raise U deadline_exceeded))
  poll-Keeps (suc ticks) before =
      Keeps-bind U _ _ get_nodes_start_time-Keeps
        (λ after. unless_none-Keeps _ (still_waiting after before) (poll-Keeps ticks))

  after_poll-Keeps : (r : Result (Unit {0})) → Keeps U (after_poll api r)
  after_poll-Keeps (ok u) = Keeps-pure U tt
  after_poll-Keeps (err e) =
      Runs-if (is_deadline_exceeded e) _ _ (λ b. Keeps-raise U _) (λ b. Keeps-pure U tt)

  pub reconfigure_cluster-Keeps : (ticks : ℕ) → Keeps U (reconfigure_cluster api ticks)
  unfolding reconfigure_cluster
  reconfigure_cluster-Keeps ticks = Keeps-bind U _ _ get_nodes_start_time-Keeps (λ before.
      Keeps-bind U _ _ (Runs-wrapped _ _ reconfigure_keeps) (λ response.
        Keeps-bind U _ _ (Runs-wrapped _ _ (check_api_response-Keeps response))
          (λ u. Keeps-bind U _ _ (Keeps-attempt U _ (poll-Keeps ticks before)) after_poll-Keeps)))

module _ {S : Type 0} (U : S → Type 0) (client : KubeClient S)
    (get_keeps : (n c : String) → Keeps U (client.get_config_map n c))
    (patch_keeps : (c c' : Config) → Keeps U (client.patch_status c c')) where
  pub set_conditions-Keeps :
      (config : Config) (conds : List Condition) → Keeps U (set_conditions client config conds)
  unfolding set_conditions
  set_conditions-Keeps config conds = Runs-wrapped _ _ (patch_keeps config _)

  pub conditions_set-Keeps :
      (text : String) (config : Config) (conds : List Condition)
      → Keeps U (wrapped text (set_conditions client config conds))
  conditions_set-Keeps text config conds =
      Runs-wrapped text (set_conditions client config conds) (set_conditions-Keeps config conds)

  initialized-Keeps :
      (conds : List Condition) (config : Config) → Keeps U (initialized client conds config)
  unfolding initialize_conditions
  initialized-Keeps [] config =
      conditions_set-Keeps "initializing conditions" config
        (initial_condition "FilesWritten" ∷ initial_condition "UpdateActionsCompleted" ∷ [])
  initialized-Keeps (cond ∷ conds) config = Keeps-pure U config

  pub should_initialize_conditions-Keeps :
      (config : Config) → Keeps U (should_initialize_conditions client config)
  unfolding should_initialize_conditions
  should_initialize_conditions-Keeps config =
      Keeps-bind U _ _ (initialized-Keeps config.conditions config) (λ c. Keeps-pure U _)

  found-Keeps : (text : String) (r : Result ConfigMap) → Keeps U (found text r)
  found-Keeps text (ok a) = Keeps-pure U (some a)
  found-Keeps text (err e) =
      Runs-if (is_not_found e) _ _ (λ b. Keeps-pure U none) (λ b. Keeps-raise U (wrap text e))

  pub find_config_map-Keeps : (config : Config) → Keeps U (find_config_map client config)
  unfolding find_config_map
  find_config_map-Keeps config =
      Keeps-bind U _ _ (Keeps-attempt U _ (get_keeps config.namespace config.config_map))
        (found-Keeps "getting ConfigMap")

  module _ (fs : Fs S) (api : SlurmApi S) (cluster : String) (ticks : ℕ)
      (nodes_keeps : Keeps U api.get_nodes) (reconfigure_keeps : Keeps U api.get_reconfigure) where
    on_action-Keeps :
        (it : Bool) (next : Config → Exec S (Unit {0})) (config : Config)
        → ((c : Config) → Keeps U (next c))
        → Keeps U (on_action fs api client cluster ticks it next config)
    on_action-Keeps false next config h = h config
    on_action-Keeps true next config h =
        Keeps-bind U _ _
          (Runs-wrapped _ _ (reconfigure_cluster-Keeps U api nodes_keeps reconfigure_keeps ticks))
          (λ u.
            Keeps-bind U _ _
              (conditions_set-Keeps "setting conditions" config (
                condition "UpdateActionsCompleted" "True" "Success"
                  "Update actions were called successfully"
                ∷ []))
              h)

    run_actions-Keeps :
        (actions : List String) (config : Config)
        → Keeps U (run_actions fs api client cluster ticks actions config)
    unfolding run_actions
    run_actions-Keeps [] config = Keeps-pure U tt
    run_actions-Keeps (action ∷ actions) config =
        on_action-Keeps (action == "Reconfigure") _ config (run_actions-Keeps actions)

    pub update_actions-Keeps :
        (actions : List String) (config : Config)
        → Keeps U (update_actions fs api client cluster ticks actions config)
    unfolding update_actions
    update_actions-Keeps [] config =
        Keeps-bind U _ _
          (conditions_set-Keeps "setting conditions" config (
            condition "UpdateActionsCompleted" "True" "MissingAction"
              "No update actions specified, skipping further processing"
            ∷ []))
          (λ c. Keeps-pure U tt)
    update_actions-Keeps (action ∷ actions) config = run_actions-Keeps (action ∷ actions) config
