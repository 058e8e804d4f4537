-- ===== src/Exporter/Tres.antt =====
-- ParseTrackableResources and parseMemoryValue (internal/slurmapi/tres.go), with the wrap of Go's
-- 64-bit product.
pub mod Memory
use soperator.Prelude.{
  ℕ, zero, suc, ◌+◌, ◌-◌, ◌*◌, ◌%◌, ◌^◌, ℤ, pos, negsuc, Bool, true, false, ◌&&◌, Option, none,
  some, List, [], ◌∷◌, Bytes, codes, comparable_bytes, ◌==◌, ltb, leb, nat_beq, if◌then◌else◌,
}
use soperator.Exec.{Result, ok, err, message}
use soperator.Text.{is_digit, trim_space, parse_nat, parse_digits, negated, cut, split_at}

pub record TrackableResources : Type 0 where
  pub cpu_count : ℤ
  pub memory_bytes : ℤ
  pub gpu_count : ℤ

abbrev pub bound : ℕ
bound = 9223372036854775808

abbrev pub word : ℕ
word = 18446744073709551616

abbrev pub below_bound : Option ℕ → Option ℤ
below_bound none = none
below_bound (some n) = if ltb n bound then some (pos n) else none

abbrev pub negated_below : Option ℕ → Option ℤ
negated_below none = none
negated_below (some n) = if leb n bound then some (negated n) else none

-- `strconv.Atoi` and `strconv.ParseInt(s, 10, 64)`; `none` is their error.
unfoldable pub parse_int64 : Bytes → Option ℤ
unfolding parse_nat
parse_int64 [] = none
parse_int64 (c ∷ s) =
    if nat_beq c b'+'
    then below_bound (parse_nat s)
    else if nat_beq c b'-'
    then negated_below (parse_nat s)
    else below_bound (parse_nat (c ∷ s))

-- The 64-bit word as a signed number.
abbrev pub signed : ℕ → ℤ
signed w = if ltb w bound then pos w else negated (word - w)

-- `num * multiplier` on `int64`.
unfoldable pub times_int64 : ℤ → ℕ → ℤ
times_int64 (pos n) multiplier = signed (n * multiplier % word)
times_int64 (negsuc n) multiplier = signed ((word - suc n * multiplier % word) % word)

-- The text without its last byte, and that byte.
unfoldable pub split_last : ℕ → Bytes → Bytes × ℕ
split_last c [] = ([], c)
split_last c (d ∷ s) = let (front, last) = split_last d s in (c ∷ front, last)

-- The switch over the lower case of the last byte.
abbrev pub multiplier_of : ℕ → Option ℕ
multiplier_of c =
    if nat_beq c b'k'
    then some 1024
    else if nat_beq c b'K'
    then some 1024
    else if nat_beq c b'm'
    then some 1048576
    else if nat_beq c b'M'
    then some 1048576
    else if nat_beq c b'g'
    then some 1073741824
    else if nat_beq c b'G'
    then some 1073741824
    else if nat_beq c b't'
    then some 1099511627776
    else if nat_beq c b'T'
    then some 1099511627776
    else if nat_beq c b'p'
    then some 1125899906842624
    else if nat_beq c b'P'
    then some 1125899906842624
    else none

abbrev pub memory_number : Option ℤ → ℕ → Result ℤ
memory_number none multiplier = err (message "invalid memory value")
memory_number (some n) multiplier = ok (times_int64 n multiplier)

abbrev pub with_suffix : Bytes → Option ℕ → Result ℤ
with_suffix number none = err (message "unknown memory suffix")
with_suffix number (some multiplier) = memory_number (parse_int64 number) multiplier

unfoldable pub parse_memory_value : Bytes → Result ℤ
unfolding parse_int64 times_int64 split_last
parse_memory_value [] = err (message "empty memory value")
parse_memory_value (c ∷ s) =
    let (front, last) = split_last c s in
    if is_digit last
    then memory_number (parse_int64 (c ∷ s)) 1
    else with_suffix front (multiplier_of last)

abbrev with_cpu : TrackableResources → Option ℤ → Result TrackableResources
with_cpu spec none = err (message "invalid cpu value")
with_cpu spec (some n) = ok (record spec { cpu_count = n })

abbrev with_memory : TrackableResources → Result ℤ → Result TrackableResources
with_memory spec (err e) = err e
with_memory spec (ok n) = ok (record spec { memory_bytes = n })

abbrev with_gpu : TrackableResources → Option ℤ → Result TrackableResources
with_gpu spec none = err (message "invalid gpu value")
with_gpu spec (some n) = ok (record spec { gpu_count = n })

-- The switch over the key of a pair; a pair without `=` is skipped.
abbrev pub set_resource : TrackableResources → Option (Bytes × Bytes) → Result TrackableResources
set_resource spec none = ok spec
set_resource spec (some (key, value)) =
    if trim_space key == codes "cpu"
    then with_cpu spec (parse_int64 (trim_space value))
    else if trim_space key == codes "mem"
    then with_memory spec (parse_memory_value (trim_space value))
    else if trim_space key == codes "gres/gpu"
    then with_gpu spec (parse_int64 (trim_space value))
    else ok spec

abbrev pub next_resource :
    Result TrackableResources
    → (TrackableResources → Result TrackableResources)
    → Result TrackableResources
next_resource (ok spec) next = next spec
next_resource (err e) next = err e

unfoldable pub set_resources : TrackableResources → List Bytes → Result TrackableResources
unfolding cut trim_space parse_memory_value parse_int64
set_resources spec [] = ok spec
set_resources spec (pair ∷ pairs) =
    next_resource (set_resource spec (cut b'=' pair)) (λ next. set_resources next pairs)

unfoldable pub parse_trackable_resources : Bytes → Result TrackableResources
unfolding set_resources split_at
parse_trackable_resources input =
    set_resources (record { cpu_count = pos 0; memory_bytes = pos 0; gpu_count = pos 0 })
      (split_at b',' [] input)
