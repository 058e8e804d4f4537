-- ===== src/SoperatorChecks/NodeReconcile/Deletion.antt =====
-- Why a reconcile can have deleted the node.
use soperator.Prelude.{
  ◌≡◌, ◌⊎◌, inl, inr, ℕ, Bool, true, false, not, Option, none, List, [], ◌∷◌, String, Bool-cases,
  ltb,
}
use soperator.Exec.{Result, ok, err, Exec, pure, raise, attempt, wrap, is_not_found}
use soperator.Exec.Runs.{
  Outcome, Outcome-weaken, Runs, Runs-pure, Runs-raise, Runs-wrapped, Runs-if, Runs-bind,
  Runs-attempt,
}
use soperator.Exec.Keeps.{
  Keeps, Keeps-pure, Keeps-bind, Outcome-always, OrReason, Keeps-OrReason, OrReason-of_Keeps,
}
use soperator.K8s.{Node, NodeCondition, find_condition}
use soperator.SoperatorChecks.{Client}
use soperator.SoperatorChecks.Conditions.{set_k8s_node_condition, set_k8s_node_conditions}
use soperator.SoperatorChecks.Drain.Safety.{Read, Runs-Read}
use soperator.SoperatorChecks.NodeDrain.{
  last_condition, is_condition_false_or_empty, has_reason, delete_k8s_node, process_drain_condition,
}
use soperator.SoperatorChecks.NodeDrain.Safety.{
  MayDelete, set_k8s_node_condition-Keeps, process_drain_condition_safe,
}
use soperator.SoperatorChecks.NodeReconcile.{
  transition_time, is_not_ready, is_recent, request_reboot, rebooted_conditions, finish_reboot,
  finish_if_rebooted, act_on_reboot, process_reboot_condition, process_not_ready_condition,
  delete_if_not_ready, process_node, reconcile_node_found, reconcile_k8s_node,
}

-- The node was not ready for at least the timeout, by the clock at some moment.
abbrev pub Overdue : {S : Type 0} → Client S → ℕ → Node → Type 0
Overdue {S} client timeout node =
    (is_not_ready (find_condition "Ready" node.conditions) ≡ true)
    × ((s : S) × (is_recent timeout (client.now s) (find_condition "Ready" node.conditions)
          ≡ false))

module _ {S : Type 0} (client : Client S) where
  -- Why the node can be deleted: it is not to be ignored and is drained for a maintenance, or it
  -- was not ready for the timeout and such nodes are to be deleted.
  abbrev pub MayDeleteNode : (Node → Bool) → Bool → ℕ → Node → Type 0
  MayDeleteNode should_ignore delete_not_ready timeout node =
      ((should_ignore node ≡ false)
        × MayDelete (last_condition "SlurmNodeDrain" none node.conditions)
            (last_condition "SoperatorChecksNodeMaintenance" none node.conditions))
      ⊎ ((delete_not_ready ≡ true) × Overdue client timeout node)

  -- A node was read for which there is a reason to delete it.
  abbrev pub ReadForDeletion : (Node → Bool) → Bool → ℕ → String → Type 0
  ReadForDeletion should_ignore delete_not_ready timeout name =
      (node : Node) × Read (client.get_node name) node
      × MayDeleteNode should_ignore delete_not_ready timeout node

module _ {S : Type 0} (client : Client S) (U : S → Type 0)
    (get_keeps : (n : String) → Keeps U (client.get_node n))
    (patch_keeps : (base obj : Node) → Keeps U (client.patch_status base obj))
    (update_keeps : (obj : Node) → Keeps U (client.update_status obj)) where
  set_conditions-Keeps :
      (name : String) (conds : List NodeCondition)
      → Keeps U (set_k8s_node_conditions client name conds)
  unfolding set_k8s_node_conditions
  set_conditions-Keeps name [] = Keeps-pure U tt
  set_conditions-Keeps name (cond ∷ conds) =
      Keeps-bind U _ _
        (Runs-wrapped "set k8s node condition" (set_k8s_node_condition client name cond)
          (set_k8s_node_condition-Keeps client U get_keeps patch_keeps update_keeps name cond))
        (λ u. set_conditions-Keeps name conds)

  finish_reboot-Keeps : (node : Node) → Keeps U (finish_reboot client node)
  unfolding finish_reboot
  finish_reboot-Keeps node = record {
    at = λ s u. (set_conditions-Keeps node.name (rebooted_conditions client (client.now s))).at s u;
  }

  request_reboot-Keeps : (node : Node) → Keeps U (request_reboot client node)
  unfolding request_reboot
  request_reboot-Keeps node = record {
    at = λ s u.
        (set_k8s_node_condition-Keeps client U get_keeps patch_keeps update_keeps node.name _).at s
          u;
  }

  finish_if_rebooted-Keeps :
      (node : Node) (reboot : Option NodeCondition)
      → Keeps U (finish_if_rebooted client node reboot)
  finish_if_rebooted-Keeps node reboot =
      Runs-if (not (has_reason "NodeRebooted" reboot)) (pure tt) (finish_reboot client node)
        (λ h. Keeps-pure U tt) (λ h. finish_reboot-Keeps node)

  act_on_reboot-Keeps :
      (node : Node) (reboot degraded : Option NodeCondition)
      → Keeps U (act_on_reboot client node reboot degraded)
  unfolding act_on_reboot
  act_on_reboot-Keeps node reboot degraded =
      Runs-if (is_condition_false_or_empty reboot) _ (finish_if_rebooted client node reboot)
        (λ idle.
          Runs-if (is_condition_false_or_empty degraded) (pure tt) _ (λ h. Keeps-pure U tt)
            (λ h.
              Runs-if (ltb (transition_time reboot) (transition_time degraded))
                (request_reboot client node) (finish_if_rebooted client node reboot)
                (λ later. request_reboot-Keeps node)
                (λ earlier. finish_if_rebooted-Keeps node reboot)))
        (λ active. finish_if_rebooted-Keeps node reboot)

  not_ready_outcome :
      (timeout : ℕ) (node : Node) (D : Type 0)
      → (Overdue client timeout node → D)
      → Runs U (process_not_ready_condition client timeout node) (λ a s. U s ⊎ D) (λ s. U s ⊎ D)
  unfolding process_not_ready_condition
  not_ready_outcome timeout node D reason = record {
    at = λ s u.
        let ready = find_condition "Ready" node.conditions in
        elim (Bool-cases (is_not_ready ready)) [
          | inr fine ↦ rw fine (inl u)
          | inl late ↦ elim (Bool-cases (is_recent timeout (client.now s) ready)) [
            | inl recent ↦ rw (late, recent) (inl u)
            | inr old ↦
                let d : D = reason (late, (s, old)) in
                rw (late, old)
                  (Outcome-weaken (λ a t. D) (λ a t. U t ⊎ D) (λ t. D) (λ t. U t ⊎ D)
                    (λ a t x. inr x) (λ t x. inr x) (delete_k8s_node client node s).0
                    (delete_k8s_node client node s).1
                    (Outcome-always D (delete_k8s_node client node s).0
                      (delete_k8s_node client node s).1 d))
          ]
        ];
  }

  process_node-Keeps :
      (should_ignore : Node → Bool) (delete_not_ready : Bool) (timeout : ℕ) (node : Node)
      (X : Type 0)
      → (MayDeleteNode client should_ignore delete_not_ready timeout node → X)
      → Keeps (OrReason U X) (process_node client should_ignore delete_not_ready timeout node)
  unfolding process_node process_reboot_condition delete_if_not_ready
  process_node-Keeps should_ignore delete_not_ready timeout node X f =
      Keeps-bind (OrReason U X) _ _
        (Runs-wrapped "process drain condition" _ (
          Keeps-OrReason U X (process_drain_condition client (should_ignore node) node)
            (process_drain_condition_safe client U get_keeps patch_keeps update_keeps
              (should_ignore node) node)
            (λ d. f (inl d))))
        (λ u.
          Keeps-bind (OrReason U X) _ _
            (Runs-wrapped "process reboot condition" _ (
              OrReason-of_Keeps U X (process_reboot_condition client node) (
                act_on_reboot-Keeps node (last_condition "SlurmNodeReboot" none node.conditions)
                  (last_condition "SoperatorChecksNodeDegraded" none node.conditions))))
            (λ v.
              Runs-if delete_not_ready (delete_if_not_ready client timeout node) (pure 0)
                (λ on.
                  Keeps-bind (OrReason U X) _ _
                    (Runs-wrapped "process NotReady condition" _ (
                      Keeps-OrReason U X (process_not_ready_condition client timeout node)
                        (not_ready_outcome timeout node (Overdue client timeout node) (λ d. d))
                        (λ d. f (inr (on, d)))))
                    (λ w. record { at = λ s h. h }))
                (λ off. Keeps-pure (OrReason U X) 0)))

  found_safe :
      (should_ignore : Node → Bool) (delete_not_ready : Bool) (timeout : ℕ) (get : Exec S Node)
      (X : Type 0)
      → ((node : Node)
          → Read get node
          → MayDeleteNode client should_ignore delete_not_ready timeout node
          → X)
      → (r : Result Node)
      → Runs
          (λ s. Outcome (λ node t. U t × Read get node) U r s)
          (reconcile_node_found client should_ignore delete_not_ready timeout r)
          (λ a. OrReason U X)
          (OrReason U X)
  found_safe should_ignore delete_not_ready timeout get X f (ok node) = record {
    at = λ s h.
        (process_node-Keeps should_ignore delete_not_ready timeout node X (f node h.1)).at s
          (inl h.0);
  }
  found_safe should_ignore delete_not_ready timeout get X f (err e) =
      Runs-if (is_not_found e) (pure 0) (raise (wrap "get k8s node" e))
        (λ h. Runs-pure 0 (λ s u. inl u)) (λ h. Runs-raise (wrap "get k8s node" e) (λ s u. inl u))

  -- What holds of the state and is left alone by reading a node and by writing its status still
  -- holds after a reconcile, however it ends, unless the node that was read is not to be ignored
  -- and is drained for a maintenance, or nodes that are not ready are to be deleted and this one
  -- was not ready for the timeout.
  pub reconcile_k8s_node_safe :
      (should_ignore : Node → Bool) (delete_not_ready : Bool) (timeout : ℕ) (name : String)
      → Runs U
          (reconcile_k8s_node client should_ignore delete_not_ready timeout name)
          (λ a s. U s ⊎ ReadForDeletion client should_ignore delete_not_ready timeout name)
          (λ s. U s ⊎ ReadForDeletion client should_ignore delete_not_ready timeout name)
  unfolding reconcile_k8s_node
  reconcile_k8s_node_safe should_ignore delete_not_ready timeout name =
      let X = ReadForDeletion client should_ignore delete_not_ready timeout name in
      let get = client.get_node name in
      Runs-bind (attempt get) (reconcile_node_found client should_ignore delete_not_ready timeout)
        (Runs-attempt get (Runs-Read U get (get_keeps name)))
        (λ r.
          found_safe should_ignore delete_not_ready timeout get X (λ node read d. (node, read, d))
            r)
