-- ===== src/Topology/SwitchName.antt =====
-- The names of switches and blocks that are safe in a Slurm configuration
-- (internal/controller/topologyconfcontroller/switch_name.go).
pub mod Safe
mod Tests
use soperator.Prelude.{
  ℕ, zero, suc, ◌∷◌, [], List, ◌++◌, Bool, ◌&&◌, leb, Bytes, codes, if◌then◌else◌,
}

abbrev pub max_safe_trailing_digits : ℕ
max_safe_trailing_digits = 18

abbrev pub is_decimal : ℕ → Bool
is_decimal c = leb b'0' c && leb c b'9'

-- The bytes from the last to the first, as the loop of `trailingDigitCount` visits them.
unfoldable pub reversed : Bytes → Bytes
reversed [] = []
reversed (c ∷ s) = reversed s ++ c ∷ []

unfoldable pub leading_digits : Bytes → ℕ
leading_digits [] = zero
leading_digits (c ∷ s) = let rest = leading_digits s in if is_decimal c then suc rest else zero

unfoldable pub trailing_digit_count : Bytes → ℕ
unfolding reversed leading_digits
trailing_digit_count name = leading_digits (reversed name)

unfoldable pub slurm_safe_switch_name : Bytes → Bytes
unfolding trailing_digit_count
slurm_safe_switch_name name =
    if leb (trailing_digit_count name) max_safe_trailing_digits then name else name ++ codes "_"
