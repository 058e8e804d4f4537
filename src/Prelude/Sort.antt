-- ===== src/Prelude/Sort.antt =====
-- `slices.Sort`: a sort by insertion, which for a total order gives the one sorted list.
use mathlib.Core.Path.{◌≡◌, refl, ◌∙◌}
use mathlib.Core.Logic.{inl, inr}
use mathlib.Core.Bool.{true, false, ◌||◌}
use mathlib.Core.List.{List, [], ◌∷◌}
use native.Mathlib.Omega.{arith}
use soperator.Prelude.Tests.{if◌then◌else◌, Bool-cases}
use soperator.Prelude.Keys.{Comparable, Ord, ◌==◌}
use soperator.Prelude.Dict.{All, IsUnique, contains}

module _ {ℓ} {A : Type ℓ} ⦃o : Ord A⦄ where
  unfoldable pub insert_sorted : A → List A → List A
  insert_sorted a [] = a ∷ []
  insert_sorted a (x ∷ xs) = if o.below x a then x ∷ insert_sorted a xs else a ∷ x ∷ xs

  unfoldable pub sort : List A → List A
  unfolding insert_sorted
  sort [] = []
  sort (x ∷ xs) = insert_sorted x (sort xs)

  -- Every element is below all that follow it.
  abbrev pub IsAscending : List A → Type 0
  IsAscending [] = Unit
  IsAscending (x ∷ xs) = All (λ y. o.below x y ≡ true) xs × IsAscending xs

  All-insert_sorted {κ} :
      (P : A → Type κ) (a : A) (xs : List A) → P a → All P xs → All P (insert_sorted a xs)
  unfolding insert_sorted
  All-insert_sorted P a [] pa h = (pa, tt)
  All-insert_sorted P a (x ∷ xs) pa h = elim (Bool-cases (o.below x a)) [
    | inl e ↦ rw e (h.0, All-insert_sorted P a xs pa h.1)
    | inr e ↦ rw e (pa, h)
  ]

  All-weaken {κ} : {P Q : A → Type κ} (xs : List A) → ((y : A) → P y → Q y) → All P xs → All Q xs
  All-weaken [] f h = tt
  All-weaken (x ∷ xs) f h = (f x h.0, All-weaken xs f h.1)

module _ {ℓ} {A : Type ℓ} ⦃e : Comparable A⦄ ⦃o : Ord A⦄ where
  pub contains-insert_sorted :
      (b : A) (xs : List A) (a : A) → contains (insert_sorted b xs) a ≡ (b == a || contains xs a)
  unfolding insert_sorted contains
  contains-insert_sorted b [] a = refl
  contains-insert_sorted b (x ∷ xs) a = ground (arith, contains-insert_sorted b xs a)

  -- Sorting keeps the members of a list.
  pub contains-sort : (xs : List A) (a : A) → contains (sort xs) a ≡ contains xs a
  unfolding sort contains
  contains-sort [] a = refl
  contains-sort (x ∷ xs) a =
      ground (arith, contains-insert_sorted x (sort xs) a, contains-sort xs a)

  insert_sorted-IsAscending :
      (a : A) (xs : List A)
      → contains xs a ≡ false
      → IsAscending xs
      → IsAscending (insert_sorted a xs)
  unfolding insert_sorted contains
  insert_sorted-IsAscending a [] n h = (tt, tt)
  insert_sorted-IsAscending a (x ∷ xs) n h = elim (Bool-cases (o.below x a)) [
    | inl lt ↦
        rw lt (All-insert_sorted _ a xs lt h.0, insert_sorted-IsAscending a xs (ground arith) h.1)
    | inr ge ↦
        let above : o.below a x ≡ true = ground (arith, o.below_total x a ge, e.equal_iff x a) in
        rw ge ((above, All-weaken xs (λ y lt. o.below_trans a x y above lt) h.0), h)
  ]

  -- A set comes out strictly ascending.
  pub sort-IsAscending : (xs : List A) → IsUnique xs → IsAscending (sort xs)
  unfolding sort
  sort-IsAscending [] u = tt
  sort-IsAscending (x ∷ xs) u =
      insert_sorted-IsAscending x (sort xs) (contains-sort xs x ∙ u.0) (sort-IsAscending xs u.1)

  not_contains_of_All :
      (a : A) (xs : List A) → All (λ y. o.below a y ≡ true) xs → contains xs a ≡ false
  unfolding contains
  not_contains_of_All a [] h = refl
  not_contains_of_All a (x ∷ xs) h =
      ground (arith, not_contains_of_All a xs h.1, e.equal_iff x a, o.below_irrefl a)

  All-contains {κ} : (P : A → Type κ) (a : A) (xs : List A) → All P xs → contains xs a ≡ true → P a
  unfolding contains
  All-contains P a [] h c = cc
  All-contains P a (x ∷ xs) h c = elim (Bool-cases (x == a)) [
    | inl eq ↦ rw (← (e.equal_iff x a).0 eq) h.0
    | inr ne ↦ All-contains P a xs h.1 (rw ne at c)
  ]

  heads_agree :
      (x y : A) (xs ys : List A)
      → All (λ z. o.below x z ≡ true) xs
      → All (λ z. o.below y z ≡ true) ys
      → contains (y ∷ ys) x ≡ true
      → contains (x ∷ xs) y ≡ true
      → x ≡ y
  unfolding contains
  heads_agree x y xs ys hx hy cx cy = elim (Bool-cases (x == y)) [
    | inl eq ↦ (e.equal_iff x y).0 eq
    | inr ne ↦
        let lt : o.below x y ≡ true = All-contains _ y xs hx (rw ne at cy) in
        let ne' : (y == x) ≡ false = ground (arith, e.equal_iff x y, e.equal_iff y x) in
        let gt : o.below y x ≡ true = All-contains _ x ys hy (rw ne' at cx) in
        cc (o.below_trans x y x lt gt, o.below_irrefl x)
  ]

  -- Two ascending lists with the same members are one list.
  pub IsAscending-ext :
      (xs ys : List A)
      → IsAscending xs
      → IsAscending ys
      → ((a : A) → contains xs a ≡ contains ys a)
      → xs ≡ ys
  unfolding contains
  IsAscending-ext [] [] hx hy same = refl
  IsAscending-ext [] (y ∷ ys) hx hy same = ground (arith, same y, e.equal_iff y y)
  IsAscending-ext (x ∷ xs) [] hx hy same = ground (arith, same x, e.equal_iff x x)
  IsAscending-ext (x ∷ xs) (y ∷ ys) hx hy same =
      let cx : contains (y ∷ ys) x ≡ true = ground (arith, same x, e.equal_iff x x) in
      let cy : contains (x ∷ xs) y ≡ true = ground (arith, same y, e.equal_iff y y) in
      let eq : x ≡ y = heads_agree x y xs ys hx.0 hy.0 cx cy in
      let tails : xs ≡ ys = IsAscending-ext xs ys hx.1 hy.1 (λ a. ground (
        arith,
        same a,
        e.equal_iff x a,
        e.equal_iff y a,
        not_contains_of_All x xs hx.0,
        not_contains_of_All y ys hy.0,
      )) in
      cc
