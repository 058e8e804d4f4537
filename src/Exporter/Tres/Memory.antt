-- ===== src/Exporter/Tres/Memory.antt =====
-- Which memory values are read as the number that they stand for.
use soperator.Prelude.{
  ℕ, zero, suc, ◌-◌, ◌*◌, ◌%◌, ◌<◌, ◌≤◌, ◌≡◌, ◌≢◌, ◌↔◌, refl, ap, inl, inr, pos, false, some, [],
  ◌∷◌, ◌++◌, Bytes, ltb, lt→ltb, Bool-cases, arith,
}
use soperator.Exec.{ok}
use soperator.Text.{is_digit, negated}
use soperator.Exporter.Tres.{
  bound, word, signed, split_last, multiplier_of, parse_int64, parse_memory_value,
}

split_last-append : (c d : ℕ) (s : Bytes) → split_last d (s ++ c ∷ []) ≡ (d ∷ s, c)
unfolding split_last
split_last-append c d [] = refl
split_last-append c d (x ∷ s) = rw (split_last-append c x s) refl

-- A product below the bound is itself after the wrap.
signed_fits : (p : ℕ) → p < bound → signed (p % word) ≡ pos p
signed_fits p h = let e : p % word ≡ p = omega (arith, h) in rw e (rw (lt→ltb p bound h) refl)

negated_ne_pos : (n p : ℕ) → 1 ≤ n → negated n ≢ pos p
negated_ne_pos zero p h e = absurd (omega (arith, h))
negated_ne_pos (suc n) p h e = cc

signed_wraps : (p : ℕ) → bound ≤ p → signed (p % word) ≢ pos p
signed_wraps p h e = elim (Bool-cases (ltb (p % word) bound)) [
  | inl low ↦
      let q : pos (p % word) ≡ pos p = rw low at e in
      let r : p % word ≡ p = ground (arith, q) in
      let l : p % word < bound = ground (arith, low) in absurd (omega (arith, h, r, l))
  | inr high ↦ negated_ne_pos (word - p % word) p (omega arith) (rw high at e)
]

-- A number that fits in 64 bits, with a suffix that stands for a multiplier, is read as their
-- product exactly if the product is below 2 ^ 63; a larger one is read as another number, without
-- an error.
pub parse_memory_value_exact :
    (text : Bytes) (c n multiplier : ℕ)
    → parse_int64 text ≡ some (pos n)
    → is_digit c ≡ false
    → multiplier_of c ≡ some multiplier
    → (parse_memory_value (text ++ c ∷ []) ≡ ok (pos (n * multiplier))) ↔ (n * multiplier < bound)
unfolding parse_memory_value parse_int64
parse_memory_value_exact [] c n multiplier e d h = absurd (ground (arith, e))
parse_memory_value_exact (x ∷ s) c n multiplier e d h =
    rw (split_last-append c x s, d, h, e)
      (
        λ same. elim (Bool-cases (ltb (n * multiplier) bound)) [
          | inl fits ↦ ground (arith, fits)
          | inr wraps ↦
              absurd (signed_wraps (n * multiplier) (ground (arith, wraps)) (ground (arith, same)))
        ],
        λ fits. ap ok (signed_fits (n * multiplier) fits),
      )
