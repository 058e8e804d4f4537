-- ===== src/JailedConfig/Payload/Distinct.antt =====
-- The paths of a payload are distinct and absolute.
use soperator.Prelude.{
  ℕ, ◌≡◌, refl, true, Option, none, some, List, [], ◌∷◌, map, Bytes, comparable_bytes,
  bytes_beq_iff, ◌==◌, put, contains, All, IsUnique, Bool-cases, Option-cases, inl, inr, arith,
  ◌||◌,
}
use soperator.JailedConfig.Batch.{JailedFile}
use soperator.JailedConfig.Payload.{
  ConfigMap, KeyToPath, add_entries, content_of, add_mappings, make_payload, is_abs,
  all_paths_valid,
}

abbrev pub paths : List (Bytes × JailedFile) → List Bytes
paths = map (λ w. w.0)

contains-put :
    (path : Bytes) (file : JailedFile) (payload : List (Bytes × JailedFile)) (j : Bytes)
    → contains (paths (put path file payload)) j ≡ (path == j || contains (paths payload) j)
unfolding put contains
contains-put path file [] j = refl
contains-put path file ((k, f) ∷ payload) j = ground (
  arith,
  contains-put path file payload j,
  bytes_beq_iff k path,
  bytes_beq_iff path j,
  bytes_beq_iff k j,
)

IsUnique-put :
    (path : Bytes) (file : JailedFile) (payload : List (Bytes × JailedFile))
    → IsUnique (paths payload)
    → IsUnique (paths (put path file payload))
unfolding put contains
IsUnique-put path file [] u = (refl, tt)
IsUnique-put path file ((k, f) ∷ payload) u = elim (Bool-cases (k == path)) [
  | inl same ↦
      let q : k ≡ path = (bytes_beq_iff k path).0 same in rw same (ground (arith, q, u.0), u.1)
  | inr other ↦ rw other (
    ground (
      arith,
      contains-put path file payload k,
      u.0,
      other,
      bytes_beq_iff path k,
      bytes_beq_iff k path,
    ),
    IsUnique-put path file payload u.1,
  )
]

add_entries-IsUnique :
    (mode : ℕ) (entries : List (Bytes × Bytes)) (payload : List (Bytes × JailedFile))
    → IsUnique (paths payload)
    → IsUnique (paths (add_entries mode entries payload))
unfolding add_entries
add_entries-IsUnique mode [] payload u = u
add_entries-IsUnique mode ((name, content) ∷ entries) payload u =
    add_entries-IsUnique mode entries _ (IsUnique-put name _ payload u)

abbrev pub IsUniqueIf : Option (List (Bytes × JailedFile)) → Type 0
IsUniqueIf none = Unit {0}
IsUniqueIf (some payload) = IsUnique (paths payload)

add_mappings-IsUniqueIf :
    (config_map : ConfigMap) (mode : ℕ) (mappings : List KeyToPath)
    (payload : List (Bytes × JailedFile))
    → IsUnique (paths payload)
    → IsUniqueIf (add_mappings config_map mode mappings payload)
unfolding add_mappings
add_mappings-IsUniqueIf config_map mode [] payload u = u
add_mappings-IsUniqueIf config_map mode (ktp ∷ mappings) payload u =
    elim (Option-cases (content_of config_map ktp.key)) [
      | inl e ↦ rw e tt
      | inr (content, e) ↦
          rw e
            (add_mappings-IsUniqueIf config_map mode mappings _ (IsUnique-put ktp.path _ payload u))
    ]

-- The paths of a payload are distinct.
pub make_payload-IsUniqueIf :
    (mappings : List KeyToPath) (config_map : ConfigMap) (mode : ℕ)
    → IsUniqueIf (make_payload mappings config_map mode)
unfolding make_payload
make_payload-IsUniqueIf [] config_map mode =
    add_entries-IsUnique mode config_map.binary_data _
      (add_entries-IsUnique mode config_map.text_data [] tt)
make_payload-IsUniqueIf (ktp ∷ mappings) config_map mode =
    add_mappings-IsUniqueIf config_map mode (ktp ∷ mappings) [] tt

-- Every path that passes the check is absolute.
pub all_paths_valid-All :
    (payload : List (Bytes × JailedFile))
    → all_paths_valid payload ≡ true
    → All (λ w. is_abs w.0 ≡ true) payload
unfolding all_paths_valid
all_paths_valid-All [] h = tt
all_paths_valid-All ((path, file) ∷ payload) h =
    (ground arith, all_paths_valid-All payload (ground arith))
