-- ===== src/Rebooter/Reconcile/Planning.antt =====
-- What the rebooter does before it drains: the actions it plans, and the end of an earlier reboot.
use soperator.Prelude.{
  ℕ, ◌≡◌, refl, ◌∙◌, Bool, true, false, not, Option, none, some, String, comparable_string, arith,
}
use soperator.Exec.{Exec, pure}
use soperator.Exec.Runs.{
  Runs, Runs-pure, Runs-wrapped, Runs-if, Runs-bind, Runs-weaken, Outcome-by_cases,
}
use soperator.K8s.{Node, NodeCondition, find_condition}
use soperator.Rebooter.{
  RebooterMethod, Params, Client, NodeActions, mutate_unschedulable, mutate_taints, needs_drain,
  needs_reboot,
}
use soperator.Rebooter.Reconcile.{
  patch_node_spec_with_retry, set_node_condition, set_node_unschedulable,
  taint_node_with_no_execute, uncordon, undrain_node_if_needed, handle_node_undrain,
  is_uptime_greater_than_last_transition, finish_reboot, get_reboot_action, get_actions,
}
use soperator.Rebooter.Reconcile.Api.{View, IsApi, At, Holds}
use soperator.Rebooter.Reconcile.Patches.{patch_spec-Runs, set_node_condition-Runs}

module _ {S : Type 0} {client : Client S} (params : Params) {view : View S}
    (api : IsApi client view) where
  abbrev pub Quiet : ℕ → S → Type 0
  Quiet k s = view.reboots s ≡ k

  abbrev method : RebooterMethod
  method = params.eviction_method

  abbrev Anything : Node → Type 0
  Anything n = Unit {0}

  patched-Quiet :
      {A : Type 0} (k : ℕ) (m : Exec S A) (Q : A → S → Type 0)
      → Runs (At view Anything k false) m Q (At view Anything k false)
      → ((a : A) (s : S) → Q a s → Quiet k s)
      → Runs (Quiet k) m (λ _ s. Quiet k s) (Quiet k)
  patched-Quiet k m Q h post =
      Runs-weaken m h (λ s q. (q, tt, λ e. absurd (ground arith))) post (λ s q. q.0)

  set_node_condition-Quiet :
      (k : ℕ) (node : Node) (kind status reason text : String)
      → Runs
          (Quiet k)
          (set_node_condition client params node kind status reason text)
          (λ _ s. Quiet k s)
          (Quiet k)
  set_node_condition-Quiet k node kind status reason text =
      patched-Quiet k _ (Holds view Anything k false)
        (set_node_condition-Runs params api Anything Anything k false node kind status reason text
          (λ base cond e f g h. tt))
        (λ x s h. h.1.0)

  patch_spec-Quiet :
      (k : ℕ) (mutate : Node → Option Node) (node : Node)
      → Runs
          (Quiet k)
          (patch_node_spec_with_retry client params mutate node)
          (λ _ s. Quiet k s)
          (Quiet k)
  patch_spec-Quiet k mutate node =
      patched-Quiet k _ (Holds view Anything k false)
        (patch_spec-Runs params api Anything Anything k false mutate node (λ base e f. tt)
          (λ base n e f. tt))
        (λ x s h. h.1.0)

  uncordon-Quiet :
      (k : ℕ) (node : Node)
      → Runs (Quiet k) (uncordon client params node) (λ _ s. Quiet k s) (Quiet k)
  unfolding uncordon set_node_unschedulable
  uncordon-Quiet k node =
      Runs-if node.unschedulable _ _
        (λ _. Runs-wrapped "failed to mark node as schedulable" _ (
          Runs-wrapped "failed to update node" _
            (patch_spec-Quiet k (mutate_unschedulable false) node)))
        (λ _. Runs-pure node (λ s h. h))

  handle_node_undrain-Quiet :
      (k : ℕ) (node : Node)
      → Runs (Quiet k) (handle_node_undrain client params node) (λ _ s. Quiet k s) (Quiet k)
  unfolding handle_node_undrain undrain_node_if_needed taint_node_with_no_execute
  handle_node_undrain-Quiet k node =
      Runs-bind _ _
        (Runs-bind (uncordon client params node) _ (uncordon-Quiet k node) (λ n.
          Runs-wrapped "failed to remove NoExecute taint" _
            (patch_spec-Quiet k (mutate_taints false) n)))
        (λ n. set_node_condition-Quiet k n _ _ _ _)

  -- The plan of `GetActions`: a reboot comes with a drain.
  abbrev pub Planned : ℕ → Node × NodeActions → S → Type 0
  Planned k p s = Quiet k s × (p.1.reboot ≡ true → p.1.drain ≡ true)

  finish_reboot-Runs :
      (k : ℕ) (node : Node) (cond : NodeCondition) (drained : Bool)
      → Runs
          (Quiet k)
          (finish_reboot client params node cond (record { reboot = false; drain = drained }))
          (Planned k)
          (Quiet k)
  unfolding finish_reboot
  finish_reboot-Runs k node cond drained =
      Runs-bind {Q = λ _ s. Quiet k s} _ _
        (Runs-if (needs_reboot cond) _ _ (λ _. handle_node_undrain-Quiet k node)
          (λ _. Runs-pure node (λ s h. h)))
        (λ undrained.
          Runs-bind {Q = λ _ s. Quiet k s} _ _
            (Runs-wrapped "set node condition" _ (set_node_condition-Quiet k undrained _ _ _ _))
            (λ rebooted. Runs-pure _ (λ s h. (h, λ e. absurd (ground arith)))))

  pub cached_node-Quiet :
      (k : ℕ) → Runs (Quiet k) (client.cached_node params.node_name) (λ _ s. Quiet k s) (Quiet k)
  cached_node-Quiet k = record {
    at = λ s h.
        let read = client.cached_node params.node_name s in
        let quiet : Quiet k read.1 = (api.cached_law params.node_name s).1 ∙ h in
        Outcome-by_cases (λ _ t. Quiet k t) (Quiet k) read.0 read.1 (λ a e. quiet) (λ x e. quiet);
  }

  start_time-Quiet : (k : ℕ) → Runs (Quiet k) client.start_time (λ _ s. Quiet k s) (Quiet k)
  start_time-Quiet k = record {
    at = λ s h.
        let quiet : Quiet k (client.start_time s).1 = (api.start_law s).1 ∙ h in
        Outcome-by_cases (λ _ t. Quiet k t) (Quiet k) (client.start_time s).0
          (client.start_time s).1 (λ a e. quiet) (λ x e. quiet);
  }

  get_reboot_action-Runs :
      (k : ℕ) (node : Node) (drained : Bool) (cond : Option NodeCondition)
      → Runs
          (Quiet k)
          (get_reboot_action client params node (record { reboot = false; drain = drained }) cond)
          (Planned k)
          (Quiet k)
  unfolding get_reboot_action is_uptime_greater_than_last_transition
  get_reboot_action-Runs k node drained none = Runs-pure _ (λ s h. (h, λ e. absurd (ground arith)))
  get_reboot_action-Runs k node drained (some cond) =
      Runs-bind {Q = λ _ s. Quiet k s} _ _
        (Runs-bind {Q = λ _ s. Quiet k s} client.start_time _ (start_time-Quiet k)
          (λ start. Runs-pure _ (λ s h. h)))
        (λ pending.
          Runs-if (not pending) _ _ (λ _. finish_reboot-Runs k node cond drained)
            (λ _.
              Runs-if (needs_reboot cond) (pure (node, record { reboot = true; drain = true }))
                (pure (node, record { reboot = false; drain = drained }))
                (λ _. Runs-pure _ (λ s h. (h, λ e. refl)))
                (λ _. Runs-pure _ (λ s h. (h, λ e. absurd (ground arith))))))

  pub get_actions-Runs :
      (k : ℕ) (node : Node) → Runs (Quiet k) (get_actions client params node) (Planned k) (Quiet k)
  unfolding get_actions
  get_actions-Runs k node =
      get_reboot_action-Runs k node (needs_drain (find_condition "SlurmNodeDrain" node.conditions))
        (find_condition "SlurmNodeReboot" node.conditions)
