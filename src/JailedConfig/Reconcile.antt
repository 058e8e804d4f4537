-- ===== src/JailedConfig/Reconcile.antt =====
-- The reconcile of a JailedConfig without an aggregation key
-- (internal/controller/sconfigcontroller/jailedconfig_controller.go).
pub mod Keeps
pub mod Atomic
pub mod Whole
pub mod Aggregated
pub mod Group
use soperator.Prelude.{
  ℕ, Bool, true, false, not, comparable_string, ◌==◌, Option, none, some, List, [], ◌∷◌, Bytes,
  String, if◌then◌else◌,
}
use soperator.Exec.{
  message, wrap, Result, ok, err, Exec, pure, raise, attempt, wrapped, lifted, ◌>>=◌, ◌>>◌,
  is_not_found,
}
use soperator.JailedConfig.Batch.{Fs, JailedFile}
use soperator.JailedConfig.Batched.{
  Batched, lift, batch_replace, batch_finish, replace_files, with_cleanup,
}
use soperator.JailedConfig.Payload.{ConfigMap, make_payload, all_paths_valid}
use soperator.JailedConfig.Reconfigure.{SlurmApi, reconfigure_cluster}
use soperator.JailedConfig.Status.{
  Condition, Config, KubeClient, condition, refresh_conditions, set_conditions,
  should_initialize_conditions,
}

abbrev pub mode_of : Option ℕ → ℕ
mode_of none = 420
mode_of (some mode) = mode

-- The payload with the checks of its paths, whose errors end the retries.
abbrev pub checked : Option (List (Bytes × JailedFile)) → Result (List (Bytes × JailedFile))
checked none = err (message "JailedConfig items references non-existent config key")
checked (some payload) =
    if all_paths_valid payload then ok payload else err (message "invalid config path")

unfoldable pub payload_of : Config → ConfigMap → Result (List (Bytes × JailedFile))
unfolding make_payload all_paths_valid
payload_of config config_map =
    checked (make_payload config.items config_map (mode_of config.default_mode))

-- The error that is not one, if the object is not there.
abbrev pub found : {S A : Type 0} → String → Result A → Exec S (Option A)
found text (ok a) = pure (some a)
found text (err e) = if is_not_found e then pure none else raise (wrap text e)

unfoldable pub find_config_map : {S : Type 0} → KubeClient S → Config → Exec S (Option ConfigMap)
find_config_map client config = do
  r ← attempt (client.get_config_map config.namespace config.config_map)
  found "getting ConfigMap" r

module _ {S : Type 0} (fs : Fs S) (api : SlurmApi S) (client : KubeClient S) (cluster : String)
    (ticks : ℕ) where
  -- The switch on an action, before the ones that follow.
  abbrev pub on_action : Bool → (Config → Exec S (Unit {0})) → Config → Exec S (Unit {0})
  on_action false next config = next config
  on_action true next config = do
    wrapped "reconfiguring Slurm cluster" (reconfigure_cluster api ticks)
    config' ← wrapped "setting conditions" (
        set_conditions client config (
          condition "UpdateActionsCompleted" "True" "Success"
            "Update actions were called successfully"
          ∷ []))
    next config'

  -- The loop over the actions of the config.
  unfoldable pub run_actions : List String → Config → Exec S (Unit {0})
  unfolding reconfigure_cluster set_conditions
  run_actions [] config = pure tt
  run_actions (action ∷ actions) config =
      on_action (action == "Reconfigure") (run_actions actions) config

  unfoldable pub update_actions : List String → Config → Exec S (Unit {0})
  unfolding run_actions
  update_actions [] config = do
    config' ← wrapped "setting conditions" (
        set_conditions client config (
          condition "UpdateActionsCompleted" "True" "MissingAction"
            "No update actions specified, skipping further processing"
          ∷ []))
    pure tt
  update_actions (action ∷ actions) config = run_actions (action ∷ actions) config

  -- The part with the batch.
  unfoldable pub write_individual : List (Bytes × JailedFile) → Config → Batched S (Unit {0})
  unfolding replace_files batch_finish set_conditions update_actions
  write_individual payload config = do
    replace_files fs payload
    config' ← lift (
        wrapped "setting conditions" (
          set_conditions client config
            (condition "FilesWritten" "True" "Success" "Files were written to jail FS" ∷ [])))
    wrapped "finishing replacing files in FS" (batch_finish fs)
    lift (update_actions config'.update_actions config')

  -- What follows the search for the ConfigMap.
  unfoldable pub process_config : Config → Option ConfigMap → Exec S (Unit {0})
  unfolding payload_of set_conditions with_cleanup write_individual
  process_config config none = pure tt
  process_config config (some config_map) = do
    config' ←
        wrapped "setting conditions"
          (set_conditions client config (refresh_conditions "Refreshing files in jail FS"))
    payload ← lifted (payload_of config' config_map)
    with_cleanup fs (write_individual payload config')

  unfoldable pub reconcile_individual : Config → Exec S (Unit {0})
  unfolding process_config should_initialize_conditions find_config_map
  reconcile_individual config = if not (config.instance_label == cluster) then pure tt else (do
    config' ← wrapped "initializing conditions" (should_initialize_conditions client config)
    config_map ← find_config_map client config'
    process_config config' config_map)
