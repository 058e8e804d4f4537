-- ===== src/ActiveChecks/Annotations.antt =====
-- The annotations of a Kubernetes Job of an active check
-- (internal/controller/soperatorchecks/activecheck_jobs_controller.go).
pub mod Ids
use soperator.Text.{join_commas, parse_nat}
use soperator.Prelude.{
  ℕ, Bool, true, false, nat_beq, Option, none, some, List, [], ◌∷◌, ◌++◌, Bytes,
}
use soperator.Exec.{message, Result, ok, err}

-- `strings.Split(s, sep)` with one character.
abbrev pub cut_at : Bool → ℕ → List Bytes → List Bytes
cut_at true c parts = [] ∷ parts
cut_at false c [] = (c ∷ []) ∷ []
cut_at false c (part ∷ parts) = (c ∷ part) ∷ parts

unfoldable pub split_at : ℕ → Bytes → List Bytes
split_at sep [] = [] ∷ []
split_at sep (c ∷ s) = cut_at (nat_beq c sep) c (split_at sep s)

unfoldable pub unhandled_ids : Bytes → List Bytes
unfolding split_at
unhandled_ids [] = []
unhandled_ids (c ∷ s) = split_at b',' (c ∷ s)

abbrev pub first_id : List Bytes → Bytes
first_id [] = []
first_id (id ∷ ids) = id

abbrev pub or_all : Option Bytes → Bytes → Bytes
or_all none all = all
or_all (some old) all = old

-- The annotation with the last time, as the controller writes it: without a sign.
abbrev pub parsed_time : Option ℕ → Result ℕ
parsed_time none = err (message "parse final state time annotation")
parsed_time (some t) = ok t

unfoldable pub last_final_state_time : Option Bytes → Result ℕ
unfolding parse_nat
last_final_state_time none = ok 0
last_final_state_time (some []) = ok 0
last_final_state_time (some (c ∷ s)) = parsed_time (parse_nat (c ∷ s))

abbrev pub is_final : Option Bytes → Bool
is_final none = false
is_final (some []) = false
is_final (some (c ∷ s)) = true
