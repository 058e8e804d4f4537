-- ===== src/Prelude/Keys.antt =====
-- Equality and order of keys: the interfaces of Go's comparable map keys and of its sorts, with
-- the instances that the components use. A Go string is a list of its bytes.
use Prim.Native.Nat.{ℕ}
use Prim.Native.Char.{code}
use Prim.Native.String.{String}
use mathlib.Core.Path.{◌≡◌, refl}
use mathlib.Core.Logic.{◌↔◌}
use mathlib.Core.Bool.{Bool, true, false, ◌&&◌}
use mathlib.Core.List.{List, [], ◌∷◌}
use native.Mathlib.Omega.{arith}
use text.Mathlib.Text.{◌==◌ as str_eq}
use text.Mathlib.TextEquality.{eq_iff}
use soperator.Prelude.Tests.{ltb, nat_beq, nat_beq_iff, if◌then◌else◌}

-- Go's `==`, on the types that can be the key of a map.
pub record Comparable {ℓ} (K : Type ℓ) : Type ℓ where
  pub equal : K → K → Bool
  pub equal_iff : (j k : K) → (equal j k ≡ true) ↔ (j ≡ k)

infix 50 ◌==◌
abbrev pub ◌==◌ {ℓ} : {K : Type ℓ} ⦃key : Comparable K⦄ → K → K → Bool
◌==◌ ⦃key⦄ j k = key.equal j k

-- A strict total order, as `slices.Sort` needs it.
pub record Ord {ℓ} (A : Type ℓ) : Type ℓ where
  pub below : A → A → Bool
  pub below_irrefl : (a : A) → below a a ≡ false
  pub below_trans : (a b c : A) → below a b ≡ true → below b c ≡ true → below a c ≡ true
  pub below_total : (a b : A) → below a b ≡ false → below b a ≡ false → a ≡ b

abbrev pub Bytes : Type 0
Bytes = List ℕ

-- The bytes of a literal that is ASCII.
abbrev pub codes : String → Bytes
codes String.[] = []
codes (String.◌∷◌ c s) = code c ∷ codes s

abbrev pub bytes_beq : Bytes → Bytes → Bool
bytes_beq [] [] = true
bytes_beq [] (d ∷ t) = false
bytes_beq (c ∷ s) [] = false
bytes_beq (c ∷ s) (d ∷ t) = nat_beq c d && bytes_beq s t

pub bytes_beq_iff : (s t : Bytes) → (bytes_beq s t ≡ true) ↔ (s ≡ t)
bytes_beq_iff [] [] = ground arith
bytes_beq_iff [] (d ∷ t) = ground arith
bytes_beq_iff (c ∷ s) [] = ground arith
bytes_beq_iff (c ∷ s) (d ∷ t) = ground (arith, bytes_beq_iff s t)

instance abbrev pub comparable_bytes : Comparable Bytes
comparable_bytes = record { equal = bytes_beq; equal_iff = bytes_beq_iff }

instance abbrev pub comparable_string : Comparable String
comparable_string = record { equal = str_eq; equal_iff = eq_iff }

-- The byte order of Go strings.
abbrev pub bytes_below : Bytes → Bytes → Bool
bytes_below s [] = false
bytes_below [] (d ∷ t) = true
bytes_below (c ∷ s) (d ∷ t) =
    let rest = bytes_below s t in if ltb c d then true else if nat_beq c d then rest else false

pub bytes_irrefl : (s : Bytes) → bytes_below s s ≡ false
bytes_irrefl [] = refl
bytes_irrefl (c ∷ s) = ground (arith, bytes_irrefl s)

pub bytes_trans :
    (s t u : Bytes) → bytes_below s t ≡ true → bytes_below t u ≡ true → bytes_below s u ≡ true
bytes_trans s t [] h k = ground arith
bytes_trans [] t (d ∷ u) h k = refl
bytes_trans (c ∷ s) [] (d ∷ u) h k = ground arith
bytes_trans (c ∷ s) (b ∷ t) (d ∷ u) h k = ground (arith, bytes_trans s t u)

pub bytes_total : (s t : Bytes) → bytes_below s t ≡ false → bytes_below t s ≡ false → s ≡ t
bytes_total [] [] h k = refl
bytes_total [] (d ∷ t) h k = ground arith
bytes_total (c ∷ s) [] h k = ground arith
bytes_total (c ∷ s) (d ∷ t) h k = ground (arith, bytes_total s t)

instance abbrev pub bytes_ord : Ord Bytes
bytes_ord = record {
  below = bytes_below;
  below_irrefl = bytes_irrefl;
  below_trans = bytes_trans;
  below_total = bytes_total;
}

instance abbrev pub comparable_nat : Comparable ℕ
comparable_nat = record { equal = nat_beq; equal_iff = nat_beq_iff }

pub nat_irrefl : (a : ℕ) → ltb a a ≡ false
nat_irrefl a = ground arith

pub nat_trans : (a b c : ℕ) → ltb a b ≡ true → ltb b c ≡ true → ltb a c ≡ true
nat_trans a b c h k = ground arith

pub nat_total : (a b : ℕ) → ltb a b ≡ false → ltb b a ≡ false → a ≡ b
nat_total a b h k = ground arith

instance abbrev pub nat_ord : Ord ℕ
nat_ord = record {
  below = ltb;
  below_irrefl = nat_irrefl;
  below_trans = nat_trans;
  below_total = nat_total;
}
