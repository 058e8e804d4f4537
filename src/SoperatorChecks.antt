-- ===== src/SoperatorChecks.antt =====
-- The controller of soperatorchecks that keeps Slurm nodes and Kubernetes nodes in step
-- (internal/controller/soperatorchecks, internal/slurmapi/node.go). The clients are parameters.
pub mod Conditions
pub mod Drain
pub mod Maintenance
pub mod Degraded
pub mod Unhealthy
pub mod NodeDrain
pub mod NodeReconcile
mod Tests
use soperator.Prelude.{ℕ, Bool, Option, List, String, Bytes}
use soperator.Exec.{Exec}
use soperator.K8s.{Node}

-- `slurmapi.NodeReason`
pub record NodeReason : Type 0 where
  pub reason : Bytes
  pub original_reason : Bytes
  pub changed_at : ℕ

-- The fields of a `slurmapi.Node` that the controller reads.
pub record SlurmNode : Type 0 where
  pub name : String
  pub instance_id : String
  pub states : List String
  pub reason : Option NodeReason
  pub comment : String

-- `types.NamespacedName` of a Slurm cluster.
pub record ClusterName : Type 0 where
  pub namespace : String
  pub name : String

-- A worker pod; `instance` is its label with the name of the cluster.
pub record WorkerPod : Type 0 where
  pub namespace : String
  pub name : String
  pub instance : String

-- `corev1.PodCondition`; its time is 0 when it is zero.
pub record PodCondition : Type 0 where
  pub kind : String
  pub status : String
  pub last_transition : ℕ

-- The Kubernetes client, the Slurm REST clients and the clock. `patch_status base obj` sends the
-- difference of `obj` to `base`; `post_node` answers the errors in the body of the response, or
-- nothing when there is no body of a successful response.
pub record Client (S : Type 0) : Type 0 where
  pub get_node : String → Exec S Node
  pub patch_status : Node → Node → Exec S (Unit {0})
  pub update_status : Node → Exec S (Unit {0})
  pub now : S → ℕ
  pub list_worker_pods : String → Exec S (List WorkerPod)
  pub has_cluster : ClusterName → S → Bool
  pub post_node : ClusterName → String → Option String → String → Exec S (Option (List String))
  pub get_slurm_node : ClusterName → String → Exec S SlurmNode
  pub list_slurm_nodes : ClusterName → Exec S (List SlurmNode)
  pub get_pod_conditions : String → String → Exec S (List PodCondition)
  pub delete_node : Node → Exec S (Unit {0})
