-- ===== src/Hostlist/Ranges.antt =====
-- The ranges of a pattern stand for exactly the numbers that it was made from.
use soperator.Prelude.{
  ℕ, zero, suc, ◌+◌, ◌-◌, ◌≤◌, ◌≡◌, refl, ap, ◌∙◌, List, [], ◌∷◌, ◌++◌, nat_beq, arith, Bool-cases,
  inl, inr,
}
use mathlib.Core.List.{append_assoc}
use soperator.Hostlist.{ranges_from, ranges_of}

-- `count` numbers from `start` on.
abbrev pub up_from : ℕ → ℕ → List ℕ
up_from start zero = []
up_from start (suc count) = start ∷ up_from (suc start) count

-- The numbers that Slurm expands the ranges to.
abbrev pub expanded : List (ℕ × ℕ) → List ℕ
expanded [] = []
expanded ((start, end) ∷ ranges) = up_from start (suc end - start) ++ expanded ranges

up_from-suc :
    (start count : ℕ) → up_from start (suc count) ≡ up_from start count ++ (start + count) ∷ []
up_from-suc start zero = ap (λ n. n ∷ []) (omega arith)
up_from-suc start (suc count) =
    ap (λ l. start ∷ l)
      (up_from-suc (suc start) count ∙ ap (λ n. up_from (suc start) count ++ n ∷ []) (omega arith))

up_from_one : (n : ℕ) → up_from n (suc n - n) ≡ n ∷ []
up_from_one n = let e : suc n - n ≡ 1 = omega arith in ap (up_from n) e

up_from_longer :
    (start end n : ℕ) (numbers : List ℕ)
    → start ≤ end
    → n ≡ suc end
    → up_from start (suc n - start) ++ numbers ≡ up_from start (suc end - start) ++ n ∷ numbers
up_from_longer start end n numbers h e =
    let count : suc n - start ≡ suc (suc end - start) = omega arith in
    let last : start + (suc end - start) ≡ n = omega arith in
    ap (λ k. up_from start k ++ numbers) count
    ∙ ap (λ l. l ++ numbers) (up_from-suc start (suc end - start))
    ∙ append_assoc (up_from start (suc end - start)) _ numbers
    ∙ ap (λ k. up_from start (suc end - start) ++ k ∷ numbers) last

expanded-ranges_from :
    (start end : ℕ) (numbers : List ℕ)
    → start ≤ end
    → expanded (ranges_from start end numbers) ≡ up_from start (suc end - start) ++ numbers
unfolding ranges_from
expanded-ranges_from start end [] h = refl
expanded-ranges_from start end (n ∷ numbers) h = elim (Bool-cases (nat_beq n (suc end))) [
  | inl longer ↦ rw longer (
      expanded-ranges_from start n numbers (ground arith)
      ∙ up_from_longer start end n numbers h (ground arith))
  | inr next ↦ rw next (
      ap (λ l. up_from start (suc end - start) ++ l)
        (expanded-ranges_from n n numbers (omega arith) ∙ ap (λ l. l ++ numbers) (up_from_one n)))
]

-- The ranges of a list of numbers, each expanded from its first to its last number, give the list
-- back in order, whatever the numbers are.
pub expanded-ranges_of : (numbers : List ℕ) → expanded (ranges_of numbers) ≡ numbers
unfolding ranges_of
expanded-ranges_of [] = refl
expanded-ranges_of (n ∷ numbers) =
    expanded-ranges_from n n numbers (omega arith) ∙ ap (λ l. l ++ numbers) (up_from_one n)
