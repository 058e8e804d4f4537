-- ===== src/Rebooter/Reconcile/Safety.antt =====
-- The state of the node whenever the rebooter runs the reboot command.
use mathlib.Core.Path.{subst}
use soperator.Prelude.{
  ℕ, suc, ◌≡◌, refl, sym, ◌∙◌, ap, ◌⊎◌, inl, inr, Bool, true, false, some, List, comparable_string,
  arith, if◌then◌else◌,
}
use soperator.Exec.{
  is_pod_not_evictable, raise, wrap, Err, Result, ok, err, pure, wrapped, attempt, ◌>>=◌,
}
use soperator.Exec.Runs.{
  Outcome, Runs, Runs-pure, Runs-raise, Runs-wrapped, Runs-if, Runs-bind, Runs-weaken, Runs-attempt,
  Outcome-by_cases,
}
use soperator.K8s.{Node, NodeCondition, condition_true, find_condition, upsert_condition}
use soperator.K8s.Upsert.{find_condition-upsert_condition, renewed}
use soperator.Rebooter.{RebooterMethod, Params, Client}
use soperator.Rebooter.Reconcile.{
  handle_node_drain, get_actions, handle_node_reboot, handle_drain_error, after_drain, reconcile,
}
use soperator.Rebooter.Reconcile.Api.{IsDrained, evicts, IsCalm, View, IsApi, At, Holds}
use soperator.Rebooter.Reconcile.Patches.{set_node_condition-Runs}
use soperator.Rebooter.Reconcile.Planning.{Planned, cached_node-Quiet, get_actions-Runs}
use soperator.Rebooter.Reconcile.Steps.{handle_node_drain-Runs}

-- The condition that announces the reboot.
abbrev pub IsMarked : Node → Type 0
IsMarked n =
    (cond : NodeCondition) × (find_condition "SlurmNodeReboot" n.conditions ≡ some cond)
    × (cond.status ≡ condition_true)
    × (cond.reason ≡ "NodeRebooting")

upsert-marks :
    (cond : NodeCondition) (conds : List NodeCondition)
    → cond.kind ≡ "SlurmNodeReboot"
    → cond.status ≡ condition_true
    → cond.reason ≡ "NodeRebooting"
    → (c : NodeCondition) × (find_condition "SlurmNodeReboot" (upsert_condition cond conds)
        ≡ some c)
      × (c.status ≡ condition_true)
      × (c.reason ≡ "NodeRebooting")
upsert-marks cond conds e f g = (
  renewed (find_condition "SlurmNodeReboot" conds) cond,
  find_condition-upsert_condition cond conds "SlurmNodeReboot"
      ∙ rw ((comparable_string.equal_iff cond.kind "SlurmNodeReboot").1 e) refl,
  ground arith,
  ground arith,
)

-- What a reconcile may leave behind: no reboot, or one of a node that was ready for it.
abbrev pub Final : {S : Type 0} → View S → RebooterMethod → ℕ → S → Type 0
Final view method k t =
    (view.reboots t ≡ k)
    ⊎ ((view.reboots t ≡ suc k)
        × IsDrained method (view.stored t)
        × IsMarked (view.stored t)
        × (evicts method ≡ true → IsCalm (view.running t)))

module _ {S : Type 0} {client : Client S} (params : Params) {view : View S}
    (api : IsApi client view) where
  abbrev Quiet : ℕ → S → Type 0
  Quiet k s = view.reboots s ≡ k

  abbrev method : RebooterMethod
  method = params.eviction_method

  reboot_command-Runs :
      (k : ℕ) (c : Bool)
      → c ≡ evicts method
      → Runs
          (At view (λ n. IsDrained method n × IsMarked n) k c)
          client.reboot_command
          (λ _ s. Final view method k s)
          (Final view method k)
  reboot_command-Runs k c same = record {
    at = λ s h.
        let (stored, count, calm) = api.reboot_law s in
        let after : Final view method k (client.reboot_command s).1 = elim count [
          | inl e ↦ inl (e ∙ h.0)
          | inr e ↦ inr (
            e ∙ ap suc h.0,
            subst (IsDrained method) (sym stored) h.1.0,
            subst IsMarked (sym stored) h.1.1,
            λ ev. calm (h.2 (same ∙ ev)),
          )
        ] in
        Outcome-by_cases (λ _ t. Final view method k t) (Final view method k)
          (client.reboot_command s).0 (client.reboot_command s).1 (λ a e. after) (λ x e. after);
  }

  handle_node_reboot-Runs :
      (k : ℕ) (node : Node) (drained : Bool)
      → Runs
          (Holds view (IsDrained method) k (evicts method) node)
          (handle_node_reboot client params node (record { reboot = true; drain = drained }))
          (λ _ s. Final view method k s)
          (Final view method k)
  unfolding handle_node_reboot
  handle_node_reboot-Runs k node drained =
      Runs-bind _ _
        (Runs-weaken _
          (set_node_condition-Runs params api (IsDrained method)
            (λ n. IsDrained method n × IsMarked n) k (evicts method) node "SlurmNodeReboot"
            condition_true "NodeRebooting" "Node is rebooting"
            (λ base cond e f g h. (h, upsert-marks cond base.conditions e f g)))
          (λ s h. h.1) (λ x s h. h) (λ s h. inl h.0))
        (λ marked. Runs-wrapped "failed to reboot node" client.reboot_command (
          Runs-weaken _ (reboot_command-Runs k (evicts method) refl) (λ s h. h.1) (λ a s h. h)
            (λ s h. h)))

  -- With the reboot flag off the drain step may do anything but reboot.
  handle_node_drain-Quiet :
      (k : ℕ) (node : Node) (drained : Bool)
      → Runs
          (Quiet k)
          (handle_node_drain client params node (record { reboot = false; drain = drained }))
          (λ _ s. Quiet k s)
          (Quiet k)
  handle_node_drain-Quiet k node true =
      Runs-weaken _ (handle_node_drain-Runs params api k node false) (λ s h. h) (λ x s h. h.1.0)
        (λ s h. h)
  handle_node_drain-Quiet k node false = unfold handle_node_drain in Runs-pure node (λ s h. h)

  handle_drain_error-Quiet :
      (k : ℕ) (e : Err)
      → Runs
          (Quiet k)
          (handle_drain_error client params e)
          (λ _ s. Final view method k s)
          (Final view method k)
  unfolding handle_drain_error
  handle_drain_error-Quiet k e =
      Runs-if (is_pod_not_evictable e) (pure params.reconcile_timeout)
        (raise (wrap "failed to drain node" e)) (λ _. Runs-pure _ (λ s h. inl h))
        (λ _. Runs-raise _ (λ s h. inl h))

  after_drain-Runs :
      (k : ℕ) (reboot drained : Bool) (r : Result Node)
      → (reboot ≡ true → drained ≡ true)
      → Runs
          (Outcome
            (if reboot then Holds view (IsDrained method) k (evicts method) else (λ _ s. Quiet k s))
            (Quiet k)
            r)
          (after_drain client params (record { reboot = reboot; drain = drained }) r)
          (λ _ s. Final view method k s)
          (Final view method k)
  unfolding after_drain
  after_drain-Runs k reboot drained (err e) h = handle_drain_error-Quiet k e
  after_drain-Runs k true drained (ok node) h =
      Runs-bind _ _ (handle_node_reboot-Runs k node drained)
        (λ _. Runs-pure params.reconcile_timeout (λ s f. f))
  after_drain-Runs k false drained (ok node) h =
      Runs-bind {Q = λ _ s. Quiet k s} _ _ (unfold handle_node_reboot in Runs-pure tt (λ s q. q))
        (λ _. Runs-pure params.reconcile_timeout (λ s q. inl q))

  act-Runs :
      (k : ℕ) (node : Node) (reboot drained : Bool)
      → (reboot ≡ true → drained ≡ true)
      → Runs
          (Quiet k)
          (attempt
              (handle_node_drain client params node (record { reboot = reboot; drain = drained }))
            >>= after_drain client params (record { reboot = reboot; drain = drained }))
          (λ _ s. Final view method k s)
          (Final view method k)
  act-Runs k node true true h =
      Runs-bind _ _ (Runs-attempt _ (handle_node_drain-Runs params api k node true))
        (λ r. after_drain-Runs k true true r h)
  act-Runs k node true false h = absurd (ground arith)
  act-Runs k node false drained h =
      Runs-bind _ _ (Runs-attempt _ (handle_node_drain-Quiet k node drained))
        (λ r. after_drain-Runs k false drained r h)

  reconcile-Runs :
      (k : ℕ)
      → Runs
          (Quiet k)
          (reconcile client params)
          (λ _ s. Final view method k s)
          (Final view method k)
  unfolding reconcile
  reconcile-Runs k =
      Runs-bind {Q = λ _ s. Quiet k s}
        (wrapped "failed to get node" (client.cached_node params.node_name)) _
        (Runs-weaken _
          (Runs-wrapped "failed to get node" (client.cached_node params.node_name)
            (cached_node-Quiet params api k))
          (λ s h. h) (λ x s h. h) (λ s h. inl h))
        (λ node.
          Runs-bind {Q = Planned params api k} (get_actions client params node) _
            (Runs-weaken _ (get_actions-Runs params api k node) (λ s h. h) (λ x s h. h)
              (λ s h. inl h))
            (λ planned. record {
              at = λ s p. (act-Runs k planned.0 planned.1.reboot planned.1.drain p.1).at s p.0;
            }))

  outcome_same : (F : S → Type 0) (r : Result ℕ) (s : S) → Outcome (λ _ t. F t) F r s → F s
  outcome_same F (ok a) s h = h
  outcome_same F (err e) s h = h

  -- However a reconcile ends, it has not rebooted the node, or it has rebooted it once, and then
  -- the stored node is unschedulable and announces the reboot in its condition; with the eviction
  -- method it also carries a taint whose key is that of the NoExecute taint, whatever the effect of
  -- this taint, and no pod is on it that has to leave.
  pub reconcile_safe : (s : S) → Final view method (view.reboots s) (reconcile client params s).1
  reconcile_safe s =
      outcome_same (Final view method (view.reboots s)) (reconcile client params s).0
        (reconcile client params s).1 ((reconcile-Runs (view.reboots s)).at s refl)
