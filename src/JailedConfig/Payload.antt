-- ===== src/JailedConfig/Payload.antt =====
-- The files that a JailedConfig asks for
-- (internal/controller/sconfigcontroller/jailedconfig_controller.go).
pub mod Mapped
pub mod Exact
pub mod Distinct
use soperator.Prelude.{
  ◌&&◌, ℕ, Bool, true, false, Option, none, some, List, [], ◌∷◌, Bytes, comparable_bytes, nat_beq,
  lookup, put,
}
use soperator.Exec.{Result, ok, err, message}
use soperator.JailedConfig.Batch.{JailedFile}

-- The maps `Data` and `BinaryData` of a ConfigMap; a text is its bytes.
pub record ConfigMap : Type 0 where
  pub text_data : List (Bytes × Bytes)
  pub binary_data : List (Bytes × Bytes)

-- `corev1.KeyToPath`
pub record KeyToPath : Type 0 where
  pub key : Bytes
  pub path : Bytes
  pub mode : Option ℕ

-- A loop that adds every entry of one map of the ConfigMap.
unfoldable pub add_entries :
    ℕ → List (Bytes × Bytes) → List (Bytes × JailedFile) → List (Bytes × JailedFile)
unfolding put
add_entries mode [] payload = payload
add_entries mode ((name, content) ∷ entries) payload =
    add_entries mode entries (put name (record { content = content; mode = mode }) payload)

-- The content of a key: the text comes first.
abbrev pub first_found : Option Bytes → Option Bytes → Option Bytes
first_found (some content) binary = some content
first_found none binary = binary

unfoldable pub content_of : ConfigMap → Bytes → Option Bytes
unfolding lookup
content_of config_map key =
    first_found (lookup config_map.text_data key) (lookup config_map.binary_data key)

abbrev pub mode_or : ℕ → Option ℕ → ℕ
mode_or default_mode none = default_mode
mode_or default_mode (some mode) = mode

abbrev pub put_file :
    Bytes → ℕ → Option Bytes → List (Bytes × JailedFile) → Option (List (Bytes × JailedFile))
put_file path mode none payload = none
put_file path mode (some content) payload =
    some (put path (record { content = content; mode = mode }) payload)

abbrev pub unless_missing :
    Option (List (Bytes × JailedFile))
    → (List (Bytes × JailedFile) → Option (List (Bytes × JailedFile)))
    → Option (List (Bytes × JailedFile))
unless_missing none next = none
unless_missing (some payload) next = next payload

-- The loop over the mappings; nothing for a key that is in neither map.
unfoldable pub add_mappings :
    ConfigMap → ℕ → List KeyToPath → List (Bytes × JailedFile) → Option (List (Bytes × JailedFile))
unfolding content_of put
add_mappings config_map default_mode [] payload = some payload
add_mappings config_map default_mode (ktp ∷ mappings) payload =
    unless_missing
      (put_file ktp.path (mode_or default_mode ktp.mode) (content_of config_map ktp.key) payload)
      (add_mappings config_map default_mode mappings)

-- `makePayload`; the caller has filled in the default mode.
unfoldable pub make_payload : List KeyToPath → ConfigMap → ℕ → Option (List (Bytes × JailedFile))
unfolding add_entries add_mappings
make_payload [] config_map default_mode = some (
    add_entries default_mode config_map.binary_data
      (add_entries default_mode config_map.text_data []))
make_payload (ktp ∷ mappings) config_map default_mode =
    add_mappings config_map default_mode (ktp ∷ mappings) []

-- `filepath.IsAbs`
abbrev pub is_abs : Bytes → Bool
is_abs [] = false
is_abs (c ∷ path) = nat_beq c b'/'

-- The loop that validates the paths.
unfoldable pub all_paths_valid : List (Bytes × JailedFile) → Bool
all_paths_valid [] = true
all_paths_valid ((path, file) ∷ files) = is_abs path && all_paths_valid files
