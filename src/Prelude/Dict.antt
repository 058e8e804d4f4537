-- ===== src/Prelude/Dict.antt =====
-- Go maps and sets as lists of their entries. The order of the entries stands for the order of a
-- `range` loop, which Go leaves open: a theorem for every list holds for every such order.
use mathlib.Core.Path.{◌≡◌, refl}
use mathlib.Core.Logic.{◌⊎◌, inl, inr}
use mathlib.Core.Bool.{Bool, true, false, ◌||◌}
use mathlib.Core.List.{List, [], ◌∷◌, ◌++◌}
use mathlib.Core.Option.{Option, none, some}
use native.Mathlib.Omega.{arith}
use soperator.Prelude.Tests.{if◌then◌else◌, Bool-cases}
use soperator.Prelude.Keys.{Comparable, ◌==◌}

module _ {ℓ} {A : Type ℓ} where
  abbrev pub All {κ} : (A → Type κ) → List A → Type κ
  All P [] = Unit
  All P (x ∷ xs) = P x × All P xs

-- One of the elements of the list.
abbrev pub IsAmong : {A : Type 0} → A → List A → Type 0
IsAmong a [] = ⊥
IsAmong a (x ∷ xs) = (x ≡ a) ⊎ IsAmong a xs

module _ {ℓ} {A : Type ℓ} ⦃e : Comparable A⦄ where
  unfoldable pub contains : List A → A → Bool
  contains [] a = false
  contains (x ∷ xs) a = x == a || contains xs a

  -- `set[a] = struct{}{}`
  unfoldable pub add : A → List A → List A
  add a xs = if contains xs a then xs else xs ++ a ∷ []

  -- `delete(set, a)`
  unfoldable pub delete : A → List A → List A
  delete a [] = []
  delete a (x ∷ xs) = let rest = delete a xs in if x == a then rest else x ∷ rest

  pub contains-append :
      (xs ys : List A) (a : A) → contains (xs ++ ys) a ≡ (contains xs a || contains ys a)
  unfolding contains
  contains-append [] ys a = refl
  contains-append (x ∷ xs) ys a = ground (arith, contains-append xs ys a)

  pub contains-add :
      (b : A) (xs : List A) (a : A) → contains (add b xs) a ≡ (b == a || contains xs a)
  unfolding add contains
  contains-add b xs a = ground (arith, contains-append xs (b ∷ []) a, e.equal_iff b a)

  pub contains-delete :
      (b : A) (xs : List A) (a : A)
      → contains (delete b xs) a ≡ (if b == a then false else contains xs a)
  unfolding delete contains
  contains-delete b [] a = ground arith
  contains-delete b (x ∷ xs) a =
      ground (arith, contains-delete b xs a, e.equal_iff b a, e.equal_iff x b, e.equal_iff x a)

  pub equal_refl : (a : A) → (a == a) ≡ true
  equal_refl a = (e.equal_iff a a).1 refl

  pub apart : (a b : A) → (a == b) ≡ false → (b == a) ≡ false
  apart a b h = elim (Bool-cases (b == a)) [
    | inl same ↦
        let q : b ≡ a = (e.equal_iff b a).0 same in absurd (ground (arith, q, e.equal_iff a b))
    | inr other ↦ other
  ]

  pub All-of_contains {κ} :
      {P : A → Type κ} (xs : List A) → ((a : A) → contains xs a ≡ true → P a) → All P xs
  unfolding contains
  All-of_contains [] h = tt
  All-of_contains (x ∷ xs) h =
      (h x (ground (arith, e.equal_iff x x)), All-of_contains xs (λ a m. h a (ground arith)))

  -- No key twice.
  abbrev pub IsUnique : List A → Type 0
  IsUnique [] = Unit
  IsUnique (x ∷ xs) = (contains xs x ≡ false) × IsUnique xs

  pub IsUnique-append_one :
      (a : A) (xs : List A) → IsUnique xs → contains xs a ≡ false → IsUnique (xs ++ a ∷ [])
  unfolding contains
  IsUnique-append_one a [] u n = (refl, tt)
  IsUnique-append_one a (x ∷ xs) u n = (
    ground (arith, contains-append xs (a ∷ []) x, e.equal_iff x a, e.equal_iff a x),
    IsUnique-append_one a xs u.1 (ground arith),
  )

  pub IsUnique-add : (a : A) (xs : List A) → IsUnique xs → IsUnique (add a xs)
  unfolding add
  IsUnique-add a xs u = elim (Bool-cases (contains xs a)) [
    | inl old ↦ rw old u
    | inr new ↦ rw new (IsUnique-append_one a xs u new)
  ]

  pub IsUnique-delete : (a : A) (xs : List A) → IsUnique xs → IsUnique (delete a xs)
  unfolding delete
  IsUnique-delete a [] u = tt
  IsUnique-delete a (x ∷ xs) u = elim (Bool-cases (x == a)) [
    | inl eq ↦ rw eq (IsUnique-delete a xs u.1)
    | inr ne ↦ rw ne (ground (arith, contains-delete a xs x, u.0), IsUnique-delete a xs u.1)
  ]

module _ {ℓ κ} {K : Type ℓ} {V : Type κ} ⦃e : Comparable K⦄ where
  unfoldable pub lookup : List (K × V) → K → Option V
  lookup [] k = none
  lookup ((j, v) ∷ m) k = if j == k then some v else lookup m k

  -- `m[k] = v`
  unfoldable pub put : K → V → List (K × V) → List (K × V)
  put k v [] = (k, v) ∷ []
  put k v ((j, w) ∷ m) = if j == k then (k, v) ∷ m else (j, w) ∷ put k v m

  pub lookup-put :
      (k : K) (v : V) (m : List (K × V)) (j : K)
      → lookup (put k v m) j ≡ (if k == j then some v else lookup m j)
  unfolding lookup put
  lookup-put k v [] j = refl
  lookup-put k v ((i, w) ∷ m) j =
      ground (arith, lookup-put k v m j, e.equal_iff k j, e.equal_iff i k, e.equal_iff i j)
