-- ===== src/Prelude/Int.antt =====
-- Signed integers over the native numbers, with the tests and the order that Go's `int32` values
-- need; every value that the code computes with stays inside the 32-bit range, so none wraps.
use Prim.Native.Nat.{ℕ, zero, suc}
use mathlib.Core.Path.{◌≡◌}
use mathlib.Core.Logic.{◌↔◌}
use mathlib.Core.Bool.{Bool, true, false}
use native.Mathlib.Omega.{arith}
use soperator.Prelude.Tests.{ltb, nat_beq}
use soperator.Prelude.Keys.{Comparable, Ord}

-- `negsuc n` is -(n + 1).
pub data ℤ : Type 0 where
  pos : ℕ → ℤ
  negsuc : ℕ → ℤ

abbrev pub ℤ_beq : ℤ → ℤ → Bool
ℤ_beq (pos a) (pos b) = nat_beq a b
ℤ_beq (pos a) (negsuc b) = false
ℤ_beq (negsuc a) (pos b) = false
ℤ_beq (negsuc a) (negsuc b) = nat_beq a b

abbrev pub ltb_ℤ : ℤ → ℤ → Bool
ltb_ℤ (pos a) (pos b) = ltb a b
ltb_ℤ (pos a) (negsuc b) = false
ltb_ℤ (negsuc a) (pos b) = true
ltb_ℤ (negsuc a) (negsuc b) = ltb b a

pub ℤ_beq_iff : (a b : ℤ) → (ℤ_beq a b ≡ true) ↔ (a ≡ b)
ℤ_beq_iff (pos a) b = ground arith
ℤ_beq_iff (negsuc a) b = ground arith

instance abbrev pub comparable_int : Comparable ℤ
comparable_int = record { equal = ℤ_beq; equal_iff = ℤ_beq_iff }

pub ℤ_irrefl : (a : ℤ) → ltb_ℤ a a ≡ false
ℤ_irrefl a = ground arith

pub ℤ_trans : (a b c : ℤ) → ltb_ℤ a b ≡ true → ltb_ℤ b c ≡ true → ltb_ℤ a c ≡ true
ℤ_trans a b c h k = ground arith

pub ℤ_total : (a b : ℤ) → ltb_ℤ a b ≡ false → ltb_ℤ b a ≡ false → a ≡ b
ℤ_total a b h k = ground arith

instance abbrev pub ℤ_ord : Ord ℤ
ℤ_ord = record {
  below = ltb_ℤ;
  below_irrefl = ℤ_irrefl;
  below_trans = ℤ_trans;
  below_total = ℤ_total;
}

-- `n++` and `n--`.
abbrev pub succ_ℤ : ℤ → ℤ
succ_ℤ (pos n) = pos (suc n)
succ_ℤ (negsuc zero) = pos 0
succ_ℤ (negsuc (suc n)) = negsuc n

abbrev pub pred_ℤ : ℤ → ℤ
pred_ℤ (pos zero) = negsuc 0
pred_ℤ (pos (suc n)) = pos n
pred_ℤ (negsuc n) = negsuc (suc n)
