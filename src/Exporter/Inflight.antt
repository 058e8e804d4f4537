-- ===== src/Exporter/Inflight.antt =====
-- The runs of one sub-collector that are in progress (internal/exporter/exporter.go): a tick starts
-- one unless too many are, and each ends at some later time.
use mathlib.Core.Path.{subst}
use soperator.Prelude.{
  ◌%◌, ◌&&◌, ltb, ℕ, suc, ◌-◌, ◌≤◌, ◌≡◌, refl, sym, ap, inl, inr, true, false, Option, none, some,
  List, [], ◌∷◌, All, IsAmong, IsUnique, contains, delete, IsUnique-delete, comparable_nat, nat_beq,
  nat_beq_iff, leb, Bool-cases, if◌then◌else◌, arith,
}

pub record AsyncSubCollector : Type 0 where
  pub inflight : ℕ
  pub sequence : ℕ

-- `tryStart`, at the turn of its loop whose compare-and-swap succeeds: the sequence number of the
-- new run, unless too many are in progress.
unfoldable pub try_start : ℕ → AsyncSubCollector → Option ℕ × AsyncSubCollector
try_start max_inflight c =
    if leb max_inflight c.inflight
    then (none, c)
    else (some (suc c.sequence), record { inflight = suc c.inflight; sequence = suc c.sequence })

unfoldable pub finish : AsyncSubCollector → AsyncSubCollector
finish c = record c { inflight = c.inflight - 1 }

-- `maxCollectorInflight`: the parameter as an `int32`, at least 1. A parameter is not negative; the
-- upper half of the 32 bits is negative.
abbrev pub max_collector_inflight : ℕ → ℕ
max_collector_inflight given =
    let low = given % 4294967296 in if leb 1 low && ltb low 2147483648 then low else 1

-- The sub-collector with the sequence numbers of its runs in progress.
pub record SubRuns : Type 0 where
  pub collector : AsyncSubCollector
  pub running : List ℕ

abbrev started : List ℕ → Option ℕ × AsyncSubCollector → SubRuns
started running (none, c) = record { collector = c; running = running }
started running (some sequence, c) = record { collector = c; running = sequence ∷ running }

-- A tick of the collection loop, or the end of one of the runs, in any order.
pub data Step (given : ℕ) (s u : SubRuns) : Type 0 where
  tick :
      u ≡ started s.running (try_start (max_collector_inflight given) s.collector) → Step given s u
  end_of :
      (sequence : ℕ)
      → IsAmong sequence s.running
      → u ≡ record { collector = finish s.collector; running = delete sequence s.running }
      → Step given s u

pub data Reach (given : ℕ) (s : SubRuns) : SubRuns → Type 0 where
  here : Reach given s s
  next : {u v : SubRuns} → Reach given s u → Step given u v → Reach given s v

abbrev pub count : List ℕ → ℕ
count [] = 0
count (x ∷ xs) = suc (count xs)

-- The counter is the number of the runs in progress and at most the maximum, and these have
-- different numbers from 1 on, none of which comes again.
pub record IsWithin (given : ℕ) (s : SubRuns) : Type 0 where
  pub counted : count s.running ≡ s.collector.inflight
  pub bounded : s.collector.inflight ≤ max_collector_inflight given
  pub numbered : All (λ q. (1 ≤ q) × (q ≤ s.collector.sequence)) s.running
  pub distinct : IsUnique s.running

numbered_further :
    (n : ℕ) (running : List ℕ)
    → All (λ q. (1 ≤ q) × (q ≤ n)) running
    → All (λ q. (1 ≤ q) × (q ≤ suc n)) running
numbered_further n [] h = tt
numbered_further n (q ∷ running) ((one, le), h) =
    ((one, omega (arith, le)), numbered_further n running h)

new_number :
    (n : ℕ) (running : List ℕ)
    → All (λ q. (1 ≤ q) × (q ≤ n)) running
    → contains running (suc n) ≡ false
unfolding contains
new_number n [] h = refl
new_number n (q ∷ running) ((one, le), h) = ground (arith, le, new_number n running h)

contains-of_IsAmong : (q : ℕ) (xs : List ℕ) → IsAmong q xs → contains xs q ≡ true
unfolding contains
contains-of_IsAmong q [] h = elim h [ ]
contains-of_IsAmong q (x ∷ xs) (inl e) = ground (arith, e)
contains-of_IsAmong q (x ∷ xs) (inr h) = ground (arith, contains-of_IsAmong q xs h)

count-delete_missing : (q : ℕ) (xs : List ℕ) → contains xs q ≡ false → delete q xs ≡ xs
unfolding delete contains
count-delete_missing q [] h = refl
count-delete_missing q (x ∷ xs) h =
    let other : nat_beq x q ≡ false = ground (arith, h) in
    rw other (ap (λ l. x ∷ l) (count-delete_missing q xs (ground (arith, h))))

count-delete :
    (q : ℕ) (xs : List ℕ)
    → IsUnique xs
    → contains xs q ≡ true
    → suc (count (delete q xs)) ≡ count xs
unfolding delete contains
count-delete q [] u h = absurd (ground (arith, h))
count-delete q (x ∷ xs) (new, u) h = elim (Bool-cases (nat_beq x q)) [
  | inl same ↦
      let e : x ≡ q = (nat_beq_iff x q).0 same in
      let gone : delete q xs ≡ xs =
        count-delete_missing q xs (subst (λ k. contains xs k ≡ false) e new) in
      rw (same, gone) refl
  | inr other ↦ rw other (ap suc (count-delete q xs u (ground (arith, h, other))))
]

All-delete : (P : ℕ → Type 0) (q : ℕ) (xs : List ℕ) → All P xs → All P (delete q xs)
unfolding delete
All-delete P q [] h = tt
All-delete P q (x ∷ xs) (p, h) = elim (Bool-cases (nat_beq x q)) [
  | inl e ↦ rw e (All-delete P q xs h)
  | inr e ↦ rw e (p, All-delete P q xs h)
]

Step-IsWithin : (given : ℕ) (s u : SubRuns) → Step given s u → IsWithin given s → IsWithin given u
unfolding try_start finish
Step-IsWithin given s u (tick e) w =
    elim (Bool-cases (leb (max_collector_inflight given) s.collector.inflight)) [
      | inl full ↦ subst (IsWithin given) (sym e) (rw full w)
      | inr free ↦ subst (IsWithin given) (sym e) (
          rw free (record {
            counted = ap suc w.counted;
            bounded = ground (arith, free);
            numbered = (
              (omega arith, omega arith),
              numbered_further s.collector.sequence s.running w.numbered,
            );
            distinct = (new_number s.collector.sequence s.running w.numbered, w.distinct);
          }))
    ]
Step-IsWithin given s u (end_of q among e) w =
    let shorter = count-delete q s.running w.distinct (contains-of_IsAmong q s.running among) in
    subst (IsWithin given) (sym e) (record {
      counted = omega (arith, shorter, w.counted);
      bounded = omega (arith, w.bounded);
      numbered = All-delete _ q s.running w.numbered;
      distinct = IsUnique-delete q s.running w.distinct;
    })

-- From a state with no more runs than the maximum, which the start is, every reachable state has as
-- many runs in progress as its counter says, at most the maximum, and with different sequence
-- numbers, none of them 0 and none larger than the last one given out.
pub Reach-IsWithin :
    (given : ℕ) (s u : SubRuns) → IsWithin given s → Reach given s u → IsWithin given u
Reach-IsWithin given s u w here = w
Reach-IsWithin given s u w (next {u = t} r step) =
    Step-IsWithin given t u step (Reach-IsWithin given s t w r)
