-- ===== src/RollingUpdate/Budget.antt =====
-- The number of pods that may be away at once.
use soperator.Prelude.{ℕ, ◌≤◌, inl, inr, ℤ, pos, negsuc, nat_beq, Bool-cases, arith}
use soperator.Exec.{Result, ok, err}
use soperator.RollingUpdate.{StatefulSet, Client}
use soperator.RollingUpdate.Decision.{clamped, max_unavailable_of, reboot_budget, replicas_of}

clamped_bounds :
    (replicas : ℕ) (r : Result ℤ)
    → 1 ≤ replicas
    → (1 ≤ clamped replicas r) × (clamped replicas r ≤ replicas)
clamped_bounds replicas (err e) h = omega (arith, h)
clamped_bounds replicas (ok (negsuc n)) h = omega (arith, h)
clamped_bounds replicas (ok (pos n)) h = ground (arith, h)

-- Whatever the scaling of the maximum gives, an error included: no pod may be away of a set
-- without replicas, and of any other set at least one and at most all of them.
pub reboot_budget_bounds :
    {S : Type 0} (client : Client S) (sts : StatefulSet)
    → (reboot_budget client sts ≤ replicas_of sts)
      × (1 ≤ replicas_of sts → 1 ≤ reboot_budget client sts)
unfolding reboot_budget
reboot_budget_bounds client sts =
    let scaled = client.scaled (max_unavailable_of sts) (replicas_of sts) in
    elim (Bool-cases (nat_beq (replicas_of sts) 0)) [
      | inl none_left ↦ rw none_left (omega arith, λ h. absurd (ground (arith, h, none_left)))
      | inr some_left ↦
          let h : 1 ≤ replicas_of sts = ground (arith, some_left) in
          let b = clamped_bounds (replicas_of sts) scaled h in rw some_left (b.1, λ g. b.0)
    ]
