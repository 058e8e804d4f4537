-- ===== src/RollingUpdate.antt =====
-- The controller that replaces the pods of a worker StatefulSet one batch at a time
-- (internal/controller/updatecontroller/statefulset_controller.go), with the node tests that it
-- makes (internal/slurmapi/node.go). The Kubernetes client, the Slurm REST client and the scaling
-- of a percentage are parameters.
pub mod Decision
pub mod Process
pub mod Guards
pub mod Steps
pub mod Gathering
pub mod Safety
pub mod Budget
mod Tests
pub mod Reconcile
use soperator.Prelude.{
  ℕ, ℤ, Bool, true, false, Option, none, some, List, [], ◌∷◌, Bytes, String, codes,
}
use soperator.Exec.{Exec, Result}

-- The parts of a `corev1.ContainerStatus`: the name, and the reason if it waits.
pub record ContainerStatus : Type 0 where
  pub name : String
  pub waiting : Option String

pub record Pod : Type 0 where
  pub namespace : String
  pub name : Bytes
  pub labels : List (String × String)
  pub conditions : List (String × String)
  pub init_statuses : List ContainerStatus
  pub statuses : List ContainerStatus

-- The fields of a `slurmapi.Node` that the controller reads. An absent number is not known.
pub record WorkerNode : Type 0 where
  pub name : Bytes
  pub states : List String
  pub reason : Option Bytes
  pub alloc_cpus : Option ℤ
  pub alloc_memory : Option ℤ

-- `intstr.IntOrString`
pub data IntOrString : Type 0 where
  number : ℤ → IntOrString
  text : String → IntOrString

-- The replica counts of the API are not negative. `max_unavailable` is that of the scale strategy.
pub record StatefulSet : Type 0 where
  pub namespace : String
  pub name : String
  pub labels : List (String × String)
  pub strategy : String
  pub selector : String
  pub replicas : Option ℕ
  pub max_unavailable : Option IntOrString
  pub updated_replicas : ℕ
  pub ready_replicas : ℕ
  pub update_revision : String

-- `slurmapi.RebootNodesRequest`
pub record RebootRequest : Type 0 where
  pub node_list : Bytes
  pub asap : Bool
  pub reason : Bytes
  pub power_action : String

-- `types.NamespacedName` of a Slurm cluster.
pub record Cluster : Type 0 where
  pub namespace : String
  pub name : String

-- `scaled value total` is `intstr.GetScaledValueFromIntOrPercent`, which rounds down.
pub record Client (S : Type 0) : Type 0 where
  pub get_stateful_set : String → String → Exec S StatefulSet
  pub as_selector : String → Result String
  pub list_pods : String → String → Exec S (List Pod)
  pub delete_pod : Pod → Exec S (Unit {0})
  pub patch_pod : Pod → Pod → Exec S (Unit {0})
  pub has_cluster : Cluster → S → Bool
  pub list_nodes : Cluster → Exec S (List WorkerNode)
  pub undrain_node : Cluster → Bytes → Exec S (Unit {0})
  pub reboot_nodes : Cluster → RebootRequest → Exec S (Unit {0})
  pub scaled : IntOrString → ℕ → Result ℤ
