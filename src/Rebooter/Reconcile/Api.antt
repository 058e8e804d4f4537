-- ===== src/Rebooter/Reconcile/Api.antt =====
-- What the rebooter relies on of the Kubernetes API and of RetryOnConflict, and the assertions
-- about the state of the world between its calls.
use soperator.Prelude.{ℕ, suc, ◌≡◌, ◌⊎◌, Bool, true, false, none, List, String, comparable_string}
use soperator.Exec.{ok, Exec}
use soperator.Exec.Runs.{Outcome, Runs}
use soperator.K8s.{Node}
use soperator.Rebooter.{Pod, RebooterMethod, evict, drain, Client, has_no_execute, blocking_pod}

-- The stored node with the parts that a patch of the spec, or of the status, sends.
abbrev pub merged_spec : Node → Node → Node
merged_spec base n = record base { unschedulable = n.unschedulable; taints = n.taints }

abbrev pub merged_status : Node → Node → Node
merged_status base n = record base { conditions = n.conditions }

-- No pod on the node has to leave it.
abbrev pub IsCalm : List Pod → Type 0
IsCalm pods = blocking_pod pods ≡ none

-- What the theorems see of the world: the node that the API server stores, how often the reboot
-- command has run, and the pods on the node.
pub record View (S : Type 0) : Type 0 where
  pub stored : S → Node
  pub reboots : S → ℕ
  pub running : S → List Pod

module _ {S : Type 0} (view : View S) where
  -- Nothing that counts has changed, and no pod has come that would have to leave.
  abbrev pub Same : S → S → Type 0
  Same s t =
      (view.stored t ≡ view.stored s)
      × (view.reboots t ≡ view.reboots s)
      × (IsCalm (view.running s) → IsCalm (view.running t))

  -- What a patch does: the answer is the node that was read with the part that was sent.
  abbrev pub Patched : S → Node → Node → S → Type 0
  Patched s merged x t =
      (x ≡ merged)
      × (view.stored t ≡ x)
      × (view.reboots t ≡ view.reboots s)
      × (IsCalm (view.running s) → IsCalm (view.running t))

-- What the documentation of the Kubernetes API promises about the calls, while nobody else writes
-- the node: reads and failed calls change nothing, a patch changes its part of the object that was
-- read and returns the new object, and a retried action ends with the result of a last attempt.
-- A pod that has to leave does not come to the node meanwhile, and only the reboot command reboots.
-- The cached node may be out of date.
pub record IsApi {S : Type 0} (client : Client S) (view : View S) : Type 1 where
  pub cached_law : (n : String) (s : S) → Same view s (client.cached_node n s).1
  pub latest_law :
      (n : String) (s : S)
      → Same view s (client.latest_node n s).1
        × ((x : Node) → (client.latest_node n s).0 ≡ ok x → view.stored s ≡ x)
  pub pods_law :
      (n : String) (s : S)
      → Same view s (client.pods_on_node n s).1
        × ((pods : List Pod) → (client.pods_on_node n s).0 ≡ ok pods → view.running s ≡ pods)
  pub start_law : (s : S) → Same view s (client.start_time s).1
  pub spec_law :
      (base n : Node) (s : S)
      → view.stored s ≡ base
      → Outcome
          (Patched view s (merged_spec base n))
          (Same view s)
          (client.patch_spec base n s).0
          (client.patch_spec base n s).1
  pub status_law :
      (base n : Node) (s : S)
      → view.stored s ≡ base
      → Outcome
          (Patched view s (merged_status base n))
          (Same view s)
          (client.patch_status base n s).0
          (client.patch_status base n s).1
  pub reboot_law :
      (s : S)
      → (view.stored (client.reboot_command s).1 ≡ view.stored s)
        × ((view.reboots (client.reboot_command s).1 ≡ view.reboots s)
            ⊎ (view.reboots (client.reboot_command s).1 ≡ suc (view.reboots s)))
        × (IsCalm (view.running s) → IsCalm (view.running (client.reboot_command s).1))
  pub retry_law :
      (P : S → Type 0) (Q : Node → S → Type 0) (m : Exec S Node)
      → Runs P m Q P
      → Runs P (client.retry_on_conflict m) Q P

-- The state of the world between two calls: `F` holds of the stored node, the command has run `k`
-- times, and if `c` is true then no pod has to leave.
abbrev pub At : {S : Type 0} → View S → (Node → Type 0) → ℕ → Bool → S → Type 0
At view F k c s = (view.reboots s ≡ k) × F (view.stored s) × (c ≡ true → IsCalm (view.running s))

-- The same, and the code holds the stored node.
abbrev pub Holds : {S : Type 0} → View S → (Node → Type 0) → ℕ → Bool → Node → S → Type 0
Holds view F k c n s = (view.stored s ≡ n) × At view F k c s

-- What the node must be like for a reboot, by the eviction method.
abbrev pub IsDrained : RebooterMethod → Node → Type 0
IsDrained method n = (n.unschedulable ≡ true) × (method ≡ evict → has_no_execute n.taints ≡ true)

abbrev pub evicts : RebooterMethod → Bool
evicts evict = true
evicts drain = false
