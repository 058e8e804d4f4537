-- ===== src/SoperatorChecks/Drain.antt =====
-- Draining the Slurm nodes of a Kubernetes node
-- (internal/controller/soperatorchecks/slurm_nodes_controller.go, internal/slurmapi/node.go).
pub mod Safety
pub mod Attempts
use soperator.Prelude.{
  Bool, true, false, not, ◌&&◌, ◌||◌, comparable_string, Option, none, some, List, [], ◌∷◌, String,
  contains, if◌then◌else◌,
}
use soperator.Exec.{
  collected, join_errors, unless_panicked, panicked, Err, message, joined, Result, ok, err, Exec,
  pure, raise, attempt, wrapped, ◌>>=◌, ◌>>◌,
}
use soperator.K8s.{NodeCondition}
use soperator.SoperatorChecks.{Client, ClusterName, SlurmNode, WorkerPod}
use soperator.SoperatorChecks.Conditions.{set_k8s_node_condition}

unfoldable pub is_idle_drained : SlurmNode → Bool
unfolding contains
is_idle_drained node = contains node.states "DRAIN" && contains node.states "IDLE"

abbrev pub cluster_of : WorkerPod → ClusterName
cluster_of pod = record { namespace = pod.namespace; name = pod.instance }

-- `resp.JSON200.Errors`: without a body the code dereferences nil.
abbrev pub check_response : {S : Type 0} → String → Option (List String) → Exec S (Unit {0})
check_response what none = raise panicked
check_response what (some []) = pure tt
check_response what (some (e ∷ errors)) = raise (message what)

-- The node is idle and drained, and no epilog runs.
abbrev pub is_fully_drained : SlurmNode → Bool
is_fully_drained node = not (not (is_idle_drained node) || contains node.states "COMPLETING")

module _ {S : Type 0} (client : Client S) where
  unfoldable pub post_state :
      String → String → ClusterName → String → Option String → String → Exec S (Unit {0})
  post_state failed returned cluster name reason state s =
      if not (client.has_cluster cluster s)
      then raise (message "slurm cluster not found") s
      else (wrapped failed (client.post_node cluster name reason state) >>= check_response returned)
          s

  unfoldable pub drain_slurm_node : ClusterName → String → String → Exec S (Unit {0})
  unfolding post_state
  drain_slurm_node cluster name reason =
      post_state "post drain slurm node" "post drain returned errors" cluster name (some reason)
        "DRAIN"

  unfoldable pub undrain_slurm_node : ClusterName → String → Exec S (Unit {0})
  unfolding post_state
  undrain_slurm_node cluster name =
      post_state "post undrain slurm node" "post undrain returned errors" cluster name none
        "UNDRAIN"

  -- The loop over the pods: an error does not end it, a panic does.
  unfoldable pub drain_pods : String → List WorkerPod → Exec S (List Err)
  unfolding drain_slurm_node
  drain_pods reason [] = pure []
  drain_pods reason (pod ∷ pods) = do
    tried ← attempt (drain_slurm_node (cluster_of pod) pod.name reason)
    r ← unless_panicked tried
    rest ← drain_pods reason pods
    pure (collected r rest)

  unfoldable pub drain_slurm_nodes : String → String → Exec S (Unit {0})
  unfolding drain_pods
  drain_slurm_nodes node_name reason = do
    pods ← wrapped "list pods on node" (client.list_worker_pods node_name)
    errs ← drain_pods reason pods
    join_errors errs

  unfoldable pub get_slurm_node : ClusterName → String → Exec S SlurmNode
  get_slurm_node cluster name s =
      if not (client.has_cluster cluster s)
      then raise (message "slurm cluster not found") s
      else wrapped "get node" (client.get_slurm_node cluster name) s

  -- The loop over the pods: the first node that is not drained ends it.
  unfoldable pub pods_fully_drained : List WorkerPod → Exec S Bool
  unfolding get_slurm_node is_idle_drained
  pods_fully_drained [] = pure true
  pods_fully_drained (pod ∷ pods) =
      let rest = pods_fully_drained pods in
      (do
        node ← get_slurm_node (cluster_of pod) pod.name
        if not (is_fully_drained node) then pure false else rest)

  unfoldable pub slurm_nodes_fully_drained : String → Exec S Bool
  unfolding pods_fully_drained
  slurm_nodes_fully_drained node_name = do
    pods ← wrapped "list pods on node" (client.list_worker_pods node_name)
    pods_fully_drained pods

  -- What follows once it is known if all Slurm nodes are drained.
  abbrev pub update_if : Bool → String → NodeCondition → Exec S (Unit {0})
  update_if drained node_name condition =
      if not drained
      then pure tt
      else wrapped "set k8s node condition" (set_k8s_node_condition client node_name condition)

  unfoldable pub drain_slurm_nodes_with_condition_update :
      String → String → NodeCondition → Exec S (Unit {0})
  unfolding drain_slurm_nodes slurm_nodes_fully_drained set_k8s_node_condition
  drain_slurm_nodes_with_condition_update node_name reason condition = do
    wrapped "drain slurm nodes" (drain_slurm_nodes node_name reason)
    drained ← wrapped "check that nodes are fully drained" (slurm_nodes_fully_drained node_name)
    update_if drained node_name condition
