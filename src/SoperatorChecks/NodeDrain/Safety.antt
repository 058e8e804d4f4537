-- ===== src/SoperatorChecks/NodeDrain/Safety.antt =====
-- A Kubernetes node is deleted only when it is drained for a maintenance.
use soperator.Prelude.{
  ◌≡◌, refl, ◌⊎◌, inl, inr, Bool, true, false, not, ◌&&◌, ◌==◌, comparable_string, Option, none,
  some, String, arith,
}
use soperator.Exec.{Result, ok, err, Exec, pure, raise, attempt, is_not_found}
use soperator.Exec.Runs.{
  Runs, Runs-pure, Runs-raise, Runs-wrapped, Runs-if, Runs-weaken, Runs-bind, Outcome-weaken,
}
use soperator.K8s.{Node, NodeCondition, find_condition}
use soperator.SoperatorChecks.{Client}
use soperator.SoperatorChecks.Conditions.{
  patch_heartbeat, write_condition, set_on_node, set_k8s_node_condition,
}
use soperator.Exec.Keeps.{Keeps, Outcome-same, Outcome-always}
use soperator.SoperatorChecks.NodeDrain.{
  last_condition, is_condition_false_or_empty, is_condition_true, has_reason, delete_k8s_node,
  set_drain, act_on_drain, process_drain_condition,
}

-- The node says that it is drained and that a maintenance goes on.
abbrev pub MayDelete : Option NodeCondition → Option NodeCondition → Type 0
MayDelete drain maintenance =
    (is_condition_false_or_empty drain ≡ false)
    × (has_reason "NodeDrained" drain ≡ true)
    × (is_condition_true maintenance ≡ true)

module _ {S : Type 0} (client : Client S) (U : S → Type 0)
    (get_keeps : (n : String) → Keeps U (client.get_node n))
    (patch_keeps : (base obj : Node) → Keeps U (client.patch_status base obj))
    (update_keeps : (obj : Node) → Keeps U (client.update_status obj)) where
  write_condition-Keeps :
      (node : Node) (cond : NodeCondition) (o : Option NodeCondition)
      → Keeps U (write_condition client node cond o)
  unfolding write_condition patch_heartbeat
  write_condition-Keeps node cond none =
      Runs-wrapped "failed to update object status" (client.update_status _) (update_keeps _)
  write_condition-Keeps node cond (some old) =
      Runs-if (old.status == cond.status && old.reason == cond.reason)
        (patch_heartbeat client node cond.kind) (client.patch_status node _)
        (λ same. record { at = λ s u. (patch_keeps _ _).at s u }) (λ other. patch_keeps node _)

  set_on_node-Keeps : (cond : NodeCondition) (r : Result Node) → Keeps U (set_on_node client cond r)
  unfolding set_on_node
  set_on_node-Keeps cond (ok node) =
      write_condition-Keeps node cond (find_condition cond.kind node.conditions)
  set_on_node-Keeps cond (err e) =
      Runs-if (is_not_found e) (pure tt) (raise e) (λ h. Runs-pure tt (λ s u. u))
        (λ h. Runs-raise e (λ s u. u))

  pub set_k8s_node_condition-Keeps :
      (name : String) (cond : NodeCondition) → Keeps U (set_k8s_node_condition client name cond)
  unfolding set_k8s_node_condition
  set_k8s_node_condition-Keeps name cond =
      Runs-bind (attempt (client.get_node name)) (set_on_node client cond)
        (record {
          at = λ s u.
              Outcome-same U (client.get_node name s).0 (client.get_node name s).1
                ((get_keeps name).at s u);
        })
        (set_on_node-Keeps cond)

  set_drain-Keeps :
      (node : Node) (status reason message : String)
      → Keeps U (set_drain client node status reason message)
  unfolding set_drain
  set_drain-Keeps node status reason message = record {
    at = λ s u. (set_k8s_node_condition-Keeps node.name _).at s u;
  }

  IsSafe-of_Keeps :
      (drain maintenance : Option NodeCondition) (m : Exec S (Unit {0}))
      → Keeps U m
      → Runs U m (λ a s. U s ⊎ MayDelete drain maintenance) (λ s. U s ⊎ MayDelete drain maintenance)
  IsSafe-of_Keeps drain maintenance m h = Runs-weaken m h (λ s u. u) (λ a s u. inl u) (λ s u. inl u)

  act_on_drain-MayDelete :
      (node : Node) (drain maintenance hardware : Option NodeCondition)
      → Runs U
          (act_on_drain client node drain maintenance hardware)
          (λ a s. U s ⊎ MayDelete drain maintenance)
          (λ s. U s ⊎ MayDelete drain maintenance)
  unfolding act_on_drain
  act_on_drain-MayDelete node drain maintenance hardware =
      let kept = IsSafe-of_Keeps drain maintenance in
      Runs-if (is_condition_false_or_empty drain) _ _
        (λ idle.
          Runs-if (is_condition_true hardware) _ _ (λ h. kept _ (set_drain-Keeps node _ _ _))
            (λ h.
              Runs-if (is_condition_false_or_empty maintenance) (pure tt) _
                (λ e. Runs-pure tt (λ s u. inl u)) (λ e. kept _ (set_drain-Keeps node _ _ _))))
        (λ active.
          Runs-if (not (has_reason "NodeDrained" drain)) (pure tt) _
            (λ h. Runs-pure tt (λ s u. inl u))
            (λ drained.
              Runs-if (not (is_condition_true maintenance)) _ (delete_k8s_node client node)
                (λ h. kept _ (set_drain-Keeps node _ _ _))
                (λ going_on. record {
                  at = λ s u.
                      Outcome-weaken _ _ _ _ (λ a t d. inr d) (λ t d. inr d)
                        (delete_k8s_node client node s).0 (delete_k8s_node client node s).1
                        (Outcome-always (MayDelete drain maintenance)
                          (delete_k8s_node client node s).0 (delete_k8s_node client node s).1
                          (active, ground (arith, drained), ground (arith, going_on)));
                })))

  -- What holds of the state and is left alone by reading a node and by writing its status still
  -- holds after the drain condition was processed, however that ends, unless the last condition on
  -- the drain is not false and says that the node is drained, and the last one on the maintenance
  -- is true; and it still holds for a node that is to be ignored.
  pub process_drain_condition_safe :
      (should_ignore : Bool) (node : Node)
      → Runs U
          (process_drain_condition client should_ignore node)
          (λ a s.
            U s
            ⊎ ((should_ignore ≡ false)
                × MayDelete
                    (last_condition "SlurmNodeDrain" none node.conditions)
                    (last_condition "SoperatorChecksNodeMaintenance" none node.conditions)))
          (λ s.
            U s
            ⊎ ((should_ignore ≡ false)
                × MayDelete
                    (last_condition "SlurmNodeDrain" none node.conditions)
                    (last_condition "SoperatorChecksNodeMaintenance" none node.conditions)))
  unfolding process_drain_condition
  process_drain_condition_safe true node = Runs-pure tt (λ s u. inl u)
  process_drain_condition_safe false node =
      Runs-weaken _
        (act_on_drain-MayDelete node (last_condition "SlurmNodeDrain" none node.conditions)
          (last_condition "SoperatorChecksNodeMaintenance" none node.conditions)
          (last_condition "HardwareIssuesSuspected" none node.conditions))
        (λ s u. u) (λ a s h. tagged h) (λ s h. tagged h)
    where
      tagged : {X Y : Type 0} → X ⊎ Y → X ⊎ ((false ≡ false) × Y)
      tagged (inl x) = inl x
      tagged (inr y) = inr (refl, y)
