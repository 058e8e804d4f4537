-- ===== src/Rebooter/Reconcile/Steps.antt =====
-- What the drain of the rebooter does to the stored node.
use mathlib.Core.Path.{subst}
use soperator.Rebooter.Taints.{mutate_taints_adds, mutate_taints-none}
use soperator.Prelude.{
  ℕ, ◌≡◌, sym, ◌∙◌, inl, inr, Bool, true, false, not, List, String, comparable_string, arith,
  Option-cases,
}
use soperator.Exec.{wrapped}
use soperator.Exec.Runs.{Runs, Runs-pure, Runs-raise, Runs-wrapped, Runs-if, Runs-bind, Runs-weaken}
use soperator.K8s.{Node, condition_true}
use soperator.Rebooter.{
  Pod, RebooterMethod, evict, drain, Params, Client, mutate_unschedulable, mutate_taints,
  blocking_pod,
}
use soperator.Rebooter.Reconcile.{
  set_node_unschedulable, taint_node_with_no_execute, check_pods, are_all_pods_evicted, cordon,
  evict_pods, drain_node_if_needed, handle_node_drain,
}
use soperator.Exec.Runs.{Outcome-by_cases}
use soperator.Rebooter.Reconcile.Api.{IsDrained, evicts, IsCalm, View, IsApi, At, Holds}
use soperator.Rebooter.Reconcile.Patches.{At-Same, patch_spec-Runs, set_node_condition-Runs}

module _ {S : Type 0} {client : Client S} (params : Params) {view : View S}
    (api : IsApi client view) where
  abbrev IsCordoned : Node → Type 0
  IsCordoned n = n.unschedulable ≡ true

  abbrev Anything : Node → Type 0
  Anything n = Unit {0}

  cordon-Runs :
      (k : ℕ) (c : Bool) (node : Node)
      → Runs
          (Holds view Anything k c node)
          (cordon client params node)
          (Holds view IsCordoned k c)
          (At view Anything k c)
  unfolding cordon set_node_unschedulable
  cordon-Runs k c node =
      Runs-if (not node.unschedulable) _ _
        (λ open_. Runs-wrapped "failed to mark node as unschedulable" _ (
          Runs-wrapped "failed to update node" _ (
            Runs-weaken _
              (patch_spec-Runs params api Anything IsCordoned k c (mutate_unschedulable true) node
                (λ base e f. ground arith) (λ base n e f. ground arith))
              (λ s h. h.1) (λ x s h. h) (λ s h. h))))
        (λ shut. Runs-pure node (λ s h. (h.0, (h.1.0, rw h.0 (ground arith), h.1.2))))

  taint-Runs :
      (k : ℕ) (c : Bool) (node : Node)
      → Runs
          (At view IsCordoned k c)
          (taint_node_with_no_execute client params node true)
          (Holds view (IsDrained evict) k c)
          (At view IsCordoned k c)
  unfolding taint_node_with_no_execute
  taint-Runs k c node =
      patch_spec-Runs params api IsCordoned (IsDrained evict) k c (mutate_taints true) node
        (λ base e f. (f, λ _. mutate_taints-none base e))
        (λ base n e f.
          let (same, tainted) = mutate_taints_adds base n e in (same ∙ f, λ _. tainted))

  -- The pods that were fetched decide whether the node is calm.
  Fetched : (Node → Type 0) → ℕ → Node → List Pod → S → Type 0
  Fetched F k node pods s = Holds view F k false node s × (IsCalm pods → IsCalm (view.running s))

  pods_on_node-Runs :
      (F : Node → Type 0) (k : ℕ) (node : Node) (n : String)
      → Runs
          (Holds view F k false node)
          (client.pods_on_node n)
          (Fetched F k node)
          (λ s. view.reboots s ≡ k)
  unfolding Fetched
  pods_on_node-Runs F k node n = record {
    at = λ s h.
        let (same, read) = api.pods_law n s in
        let h' = At-Same params api F k false s (client.pods_on_node n s).1 same h.1 in
        Outcome-by_cases (Fetched F k node) (λ t. view.reboots t ≡ k) (client.pods_on_node n s).0
          (client.pods_on_node n s).1
          (λ pods e. ((same.0 ∙ h.0, h'), λ calm. same.2 (rw (read pods e) calm))) (λ x e. h'.0);
  }

  check_pods-Runs :
      (F : Node → Type 0) (k : ℕ) (node : Node) (pods : List Pod)
      → Runs
          (Fetched F k node pods)
          (check_pods client params (blocking_pod pods))
          (λ _ s. Holds view F k true node s)
          (λ s. view.reboots s ≡ k)
  unfolding check_pods Fetched
  check_pods-Runs F k node pods = elim (Option-cases (blocking_pod pods)) [
    | inl calm ↦
        subst
          (λ o.
            Runs (Fetched F k node pods) (check_pods client params o)
              (λ _ s. Holds view F k true node s) (λ s. view.reboots s ≡ k))
          (sym calm) (Runs-pure tt (λ s h. (h.0.0, (h.0.1.0, h.0.1.1, λ _. h.1 calm))))
    | inr (pod, blocked) ↦
        subst
          (λ o.
            Runs (Fetched F k node pods) (check_pods client params o)
              (λ _ s. Holds view F k true node s) (λ s. view.reboots s ≡ k))
          (sym blocked) (Runs-raise _ (λ s h. h.0.1.0))
  ]

  are_all_pods_evicted-Runs :
      (F : Node → Type 0) (k : ℕ) (node : Node)
      → Runs
          (Holds view F k false node)
          (are_all_pods_evicted client params node)
          (λ _ s. Holds view F k true node s)
          (λ s. view.reboots s ≡ k)
  unfolding are_all_pods_evicted
  are_all_pods_evicted-Runs F k node =
      Runs-bind (wrapped "fetch pods on node" (client.pods_on_node node.name)) _
        (Runs-wrapped "fetch pods on node" (client.pods_on_node node.name)
          (pods_on_node-Runs F k node node.name))
        (check_pods-Runs F k node)

  evict_pods-Runs :
      (k : ℕ) (method : RebooterMethod) (node : Node)
      → Runs
          (Holds view IsCordoned k false node)
          (evict_pods client params method node)
          (Holds view (IsDrained method) k (evicts method))
          (λ s. view.reboots s ≡ k)
  unfolding evict_pods
  evict_pods-Runs k drain node =
      Runs-pure node (λ s h. (h.0, (h.1.0, (h.1.1, λ e. absurd (ground arith)), h.1.2)))
  evict_pods-Runs k evict node =
      Runs-bind
        (wrapped "failed to taint node" (taint_node_with_no_execute client params node true)) _
        (Runs-wrapped "failed to taint node" _
          (Runs-weaken _ (taint-Runs k false node) (λ s h. h.1) (λ x s h. h) (λ s h. h.0)))
        (λ n.
          Runs-bind (are_all_pods_evicted client params n) _
            (are_all_pods_evicted-Runs (IsDrained evict) k n) (λ _. Runs-pure n (λ s h. h)))

  drain_node_if_needed-Runs :
      (k : ℕ) (node : Node)
      → Runs
          (λ s. view.reboots s ≡ k)
          (drain_node_if_needed client params node)
          (Holds view (IsDrained params.eviction_method) k (evicts params.eviction_method))
          (λ s. view.reboots s ≡ k)
  unfolding drain_node_if_needed
  drain_node_if_needed-Runs k node =
      Runs-bind _ _
        (Runs-weaken _
          (set_node_condition-Runs params api Anything Anything k false node "SlurmNodeDrain"
            condition_true "NodeDraining" "Node is draining" (λ base cond e f g h. tt))
          (λ s h. (h, tt, λ e. absurd (ground arith))) (λ x s h. h) (λ s h. h.0))
        (λ marked.
          Runs-bind (cordon client params marked) _
            (Runs-weaken _ (cordon-Runs k false marked) (λ s h. h) (λ x s h. h) (λ s h. h.0))
            (evict_pods-Runs k params.eviction_method))

  -- After the drain step the code holds the stored node, which is drained if that was asked for.
  pub handle_node_drain-Runs :
      (k : ℕ) (node : Node) (reboot : Bool)
      → Runs
          (λ s. view.reboots s ≡ k)
          (handle_node_drain client params node (record { reboot = reboot; drain = true }))
          (Holds view (IsDrained params.eviction_method) k (evicts params.eviction_method))
          (λ s. view.reboots s ≡ k)
  unfolding handle_node_drain
  handle_node_drain-Runs k node reboot =
      Runs-bind _ _ (drain_node_if_needed-Runs k node) (λ drained.
        Runs-weaken _
          (set_node_condition-Runs params api (IsDrained params.eviction_method)
            (IsDrained params.eviction_method) k (evicts params.eviction_method) drained
            "SlurmNodeDrain" condition_true "NodeDrained" "Node has been drained"
            (λ base cond e f g h. h))
          (λ s h. h.1) (λ x s h. h) (λ s h. h.0))
