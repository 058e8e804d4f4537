-- ===== src/JailedConfig/Status.antt =====
-- The conditions in the status of a JailedConfig
-- (internal/controller/sconfigcontroller/jailedconfig_controller.go, api/v1alpha1).
use soperator.Prelude.{ℕ, comparable_string, Option, none, some, List, [], ◌∷◌, String}
use soperator.Exec.{Exec, pure, wrapped, ◌>>=◌}
use soperator.JailedConfig.Payload.{ConfigMap, KeyToPath}

-- `metav1.Condition`
pub record Condition : Type 0 where
  pub kind : String
  pub status : String
  pub reason : String
  pub text : String

-- The fields of a JailedConfig that the controller reads or writes; `instance_label` is its label
-- with the name of the cluster.
pub record Config : Type 0 where
  pub namespace : String
  pub name : String
  pub instance_label : String
  pub aggregation_key : Option String
  pub config_map : String
  pub items : List KeyToPath
  pub default_mode : Option ℕ
  pub update_actions : List String
  pub conditions : List Condition

-- The Kubernetes client, and the two functions of the library on lists of conditions. The answer
-- of `patch_status` is the object as the API returns it.
pub record KubeClient (S : Type 0) : Type 0 where
  pub get_config : String → String → Exec S Config
  pub get_config_map : String → String → Exec S ConfigMap
  pub list_configs : String → String → String → Exec S (List Config)
  pub patch_status : Config → Config → Exec S Config
  pub find_status_condition : List Condition → String → Option Condition
  pub set_status_condition : List Condition → Condition → List Condition

abbrev pub condition : String → String → String → String → Condition
condition kind status reason text = record {
  kind = kind;
  status = status;
  reason = reason;
  text = text;
}

abbrev pub refresh_conditions : String → List Condition
refresh_conditions text =
    condition "FilesWritten" "False" "Refresh" text
    ∷ condition "UpdateActionsCompleted" "False" "Refresh" text
    ∷ []

abbrev pub initial_condition : String → Condition
initial_condition kind = condition kind "Unknown" "Init" "Conditions was just initialized"

module _ {S : Type 0} (client : KubeClient S) where
  abbrev pub set_all : List Condition → List Condition → List Condition
  set_all conditions [] = conditions
  set_all conditions (cond ∷ conds) = set_all (client.set_status_condition conditions cond) conds

  unfoldable pub set_conditions : Config → List Condition → Exec S Config
  set_conditions config conds =
      wrapped "patching JailedConfig status" (
        client.patch_status config (record config { conditions = set_all config.conditions conds }))

  unfoldable pub initialize_conditions : Config → Exec S Config
  unfolding set_conditions
  initialize_conditions config =
      set_conditions config
        (initial_condition "FilesWritten" ∷ initial_condition "UpdateActionsCompleted" ∷ [])

  -- A condition that the list from before the initialization lacks is set on the object alone.
  abbrev pub initialize_missing : Option Condition → String → Config → Config
  initialize_missing none kind config = record config {
    conditions = client.set_status_condition config.conditions (initial_condition kind);
  }
  initialize_missing (some cond) kind config = config

  abbrev pub initialized : List Condition → Config → Exec S Config
  initialized [] config = wrapped "initializing conditions" (initialize_conditions config)
  initialized (cond ∷ conds) config = pure config

  unfoldable pub should_initialize_conditions : Config → Exec S Config
  unfolding initialize_conditions
  should_initialize_conditions config = do
    config' ← initialized config.conditions config
    pure (
        initialize_missing (client.find_status_condition config.conditions "UpdateActionsCompleted")
          "UpdateActionsCompleted"
          (initialize_missing (client.find_status_condition config.conditions "FilesWritten")
            "FilesWritten" config'))
