-- ===== src/JailedConfig/Reconcile/Aggregated.antt =====
-- The reconcile of all the JailedConfigs of one aggregation key, and the choice between the two
-- (internal/controller/sconfigcontroller/jailedconfig_controller.go).
use soperator.Prelude.{
  ℕ, Bool, true, false, comparable_string, ◌==◌, ◌||◌, if◌then◌else◌, Option, none, some, List, [],
  ◌∷◌, String,
}
use soperator.Exec.{
  wrap, Result, ok, err, Exec, pure, raise, attempt, wrapped, lifted, when, ◌>>=◌, ◌>>◌,
  is_not_found,
}
use soperator.JailedConfig.Batch.{Fs}
use soperator.JailedConfig.Batched.{Batched, lift, batch_finish, replace_files, with_cleanup}
use soperator.JailedConfig.Payload.{ConfigMap}
use soperator.JailedConfig.Reconfigure.{SlurmApi, reconfigure_cluster}
use soperator.JailedConfig.Status.{
  Condition, Config, KubeClient, condition, refresh_conditions, set_conditions,
  should_initialize_conditions,
}
use soperator.JailedConfig.Reconcile.{payload_of, find_config_map, reconcile_individual}

-- The two loops that look for the action.
unfoldable pub has_action : List String → Bool
has_action [] = false
has_action (action ∷ actions) = action == "Reconfigure" || has_action actions

unfoldable pub needs_reconfigure : List Config → Bool
unfolding has_action
needs_reconfigure [] = false
needs_reconfigure (config ∷ configs) = has_action config.update_actions || needs_reconfigure configs

abbrev pub is_not_found_reason : Option Condition → Bool
is_not_found_reason none = false
is_not_found_reason (some cond) = cond.reason == "NotFound"

abbrev pub actions_condition : Bool → Bool → Condition
actions_condition true true =
    condition "UpdateActionsCompleted" "False" "NotWritten"
      "Update actions were not called because files were not written (aggregated)"
actions_condition true false =
    condition "UpdateActionsCompleted" "True" "Success"
      "Update actions were called successfully (aggregated)"
actions_condition false failed =
    condition "UpdateActionsCompleted" "True" "Success"
      "Update actions were not called because no reconfigure needed (aggregated)"

module _ {S : Type 0} (fs : Fs S) (api : SlurmApi S) (client : KubeClient S) (cluster : String)
    (ticks : ℕ) where
  unfoldable pub has_failed_files_written_condition : Config → Bool
  has_failed_files_written_condition config =
      is_not_found_reason (client.find_status_condition config.conditions "FilesWritten")

  unfoldable pub set_update_actions_completed_for_configs : Bool → List Config → Exec S (Unit {0})
  unfolding has_failed_files_written_condition set_conditions
  set_update_actions_completed_for_configs needed [] = pure tt
  set_update_actions_completed_for_configs needed (config ∷ configs) = do
    config' ← wrapped "setting update actions completed condition" (
        set_conditions client config
          (actions_condition needed (has_failed_files_written_condition config) ∷ []))
    set_update_actions_completed_for_configs needed configs

  -- The first loop over the configs of the key.
  unfoldable pub refresh_all : List Config → Exec S (List Config)
  unfolding should_initialize_conditions set_conditions
  refresh_all [] = pure []
  refresh_all (config ∷ configs) = do
    initialized ← wrapped "initializing conditions" (should_initialize_conditions client config)
    refreshed ← wrapped "setting conditions" (
        set_conditions client initialized
          (refresh_conditions "Refreshing files in jail FS (aggregated)"))
    rest ← refresh_all configs
    pure (refreshed ∷ rest)

  -- One round of the second loop, after the search for the ConfigMap.
  unfoldable pub write_config : Config → Option ConfigMap → Batched S Config
  unfolding payload_of set_conditions replace_files
  write_config config none = lift (
      wrapped "setting files written condition" (
        set_conditions client config (
          condition "FilesWritten" "False" "NotFound"
            "ConfigMap not found, files were not written (aggregated)"
          ∷ [])))
  write_config config (some config_map) = do
    payload ← lifted (payload_of config config_map)
    replace_files fs payload
    lift (
        wrapped "setting conditions" (
          set_conditions client config (
            condition "FilesWritten" "True" "Success" "Files were written to jail FS (aggregated)"
            ∷ [])))

  unfoldable pub write_all : List Config → Batched S (List Config)
  unfolding write_config find_config_map
  write_all [] = pure []
  write_all (config ∷ configs) = do
    config_map ← lift (find_config_map client config)
    written ← write_config config config_map
    rest ← write_all configs
    pure (written ∷ rest)

  -- The part with the batch.
  unfoldable pub write_aggregated : List Config → Batched S (Unit {0})
  unfolding write_all batch_finish needs_reconfigure reconfigure_cluster
      set_update_actions_completed_for_configs
  write_aggregated configs = do
    written ← write_all configs
    wrapped "finishing replacing files in FS" (batch_finish fs)
    lift (
        when (needs_reconfigure written) (
          wrapped "reconfiguring Slurm cluster for aggregated group"
            (reconfigure_cluster api ticks)))
    lift (set_update_actions_completed_for_configs (needs_reconfigure written) written)

  unfoldable pub reconcile_with_aggregation : Config → String → Exec S (Unit {0})
  unfolding refresh_all write_aggregated with_cleanup
  reconcile_with_aggregation config key = do
    configs ←
        wrapped "listing JailedConfigs with aggregation key"
          (client.list_configs config.namespace key cluster)
    refreshed ← refresh_all configs
    with_cleanup fs (write_aggregated refreshed)

  abbrev pub dispatch : Config → Option String → Exec S (Unit {0})
  dispatch config none = reconcile_individual fs api client cluster ticks config
  dispatch config (some key) = reconcile_with_aggregation config key

  abbrev pub reconcile_found : Result Config → Exec S (Unit {0})
  reconcile_found (ok config) = dispatch config config.aggregation_key
  reconcile_found (err e) =
      if is_not_found e then pure tt else raise (wrap "getting JailedConfig" e)

  -- `Reconcile`
  unfoldable pub reconcile_config : String → String → Exec S (Unit {0})
  unfolding reconcile_individual reconcile_with_aggregation
  reconcile_config namespace name = do
    r ← attempt (client.get_config namespace name)
    reconcile_found r
