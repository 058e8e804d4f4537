-- ===== src/JailedConfig/Payload/Exact.antt =====
-- What is in a payload.
use mathlib.Core.Path.{subst}
use soperator.Prelude.{
  map, contains, IsUnique, ap, ℕ, ◌≡◌, ◌⊎◌, refl, ◌∙◌, false, Option, none, some, List, [], ◌∷◌,
  Bytes, comparable_bytes, bytes_beq_iff, ◌==◌, put, lookup, lookup-put, Bool-cases, inl, inr,
  arith,
}
use soperator.JailedConfig.Batch.{JailedFile}
use soperator.JailedConfig.Payload.{
  ConfigMap, KeyToPath, add_entries, first_found, content_of, mode_or, add_mappings, make_payload,
}
use soperator.JailedConfig.Payload.Mapped.{
  last_mapping, IsFileOf, HasMissing, IsMapped, add_mappings-IsMapped,
}

-- The file of an entry, if there is one, or the one from before.
abbrev pub file_or : ℕ → Option Bytes → Option JailedFile → Option JailedFile
file_or mode none before = before
file_or mode (some content) before = some (record { content = content; mode = mode })

lookup_absent :
    {V : Type 0} (m : List (Bytes × V)) (k : Bytes)
    → contains (map (λ w. w.0) m) k ≡ false
    → lookup m k ≡ none
unfolding lookup contains
lookup_absent [] k h = refl
lookup_absent ((j, v) ∷ m) k h = ground (arith, lookup_absent m k (ground arith))

lookup-add_entries :
    (mode : ℕ) (entries : List (Bytes × Bytes)) (before : List (Bytes × JailedFile))
    → IsUnique (map (λ w. w.0) entries)
    → (name : Bytes)
    → lookup (add_entries mode entries before) name
      ≡ file_or mode (lookup entries name) (lookup before name)
unfolding add_entries lookup
lookup-add_entries mode [] before u name = refl
lookup-add_entries mode ((k, content) ∷ entries) before u name =
    let file : JailedFile = record { content = content; mode = mode } in
    let rest = lookup-add_entries mode entries (put k file before) u.1 name in
    let here = lookup-put k file before name in
    elim (Bool-cases (k == name)) [
      | inl same ↦
          let q : k ≡ name = (bytes_beq_iff k name).0 same in
          let absent : lookup entries name ≡ none =
            lookup_absent entries name
              (subst (λ j. contains (map (λ w. w.0) entries) j ≡ false) q u.0) in
          rest ∙ rw (absent, here, same) refl
      | inr other ↦ rest ∙ rw (here, other) refl
    ]

-- The content that a ConfigMap has for a key: its text, or else its binary data.
abbrev pub HasContent : ConfigMap → Bytes → Bytes → Type 0
HasContent config_map key content =
    (lookup config_map.text_data key ≡ some content)
    ⊎ ((lookup config_map.text_data key ≡ none)
        × (lookup config_map.binary_data key ≡ some content))

abbrev pub InNeither : ConfigMap → KeyToPath → Type 0
InNeither config_map ktp =
    (lookup config_map.text_data ktp.key ≡ none) × (lookup config_map.binary_data ktp.key ≡ none)

-- The mode of the mapping, or else the default mode.
abbrev pub HasMode : ℕ → KeyToPath → ℕ → Type 0
HasMode default_mode ktp mode = (ktp.mode ≡ some mode) ⊎ ((ktp.mode ≡ none) × (mode ≡ default_mode))

first_found-HasContent :
    (config_map : ConfigMap) (key content : Bytes) (text binary : Option Bytes)
    → lookup config_map.text_data key ≡ text
    → lookup config_map.binary_data key ≡ binary
    → first_found text binary ≡ some content
    → HasContent config_map key content
first_found-HasContent config_map key content (some x) binary e f h = inl (e ∙ h)
first_found-HasContent config_map key content none binary e f h = inr (e, f ∙ h)

first_found-none :
    (text binary : Option Bytes) → first_found text binary ≡ none → (text ≡ none) × (binary ≡ none)
first_found-none none binary h = (refl, h)
first_found-none (some x) binary h = absurd (ground (arith, h))

content_of-HasContent :
    (config_map : ConfigMap) (key content : Bytes)
    → content_of config_map key ≡ some content
    → HasContent config_map key content
unfolding content_of
content_of-HasContent config_map key content h =
    first_found-HasContent config_map key content (lookup config_map.text_data key)
      (lookup config_map.binary_data key) refl refl h

content_of-InNeither :
    (config_map : ConfigMap) (ktp : KeyToPath)
    → content_of config_map ktp.key ≡ none
    → InNeither config_map ktp
unfolding content_of
content_of-InNeither config_map ktp h =
    first_found-none (lookup config_map.text_data ktp.key) (lookup config_map.binary_data ktp.key) h

mode_or-HasMode :
    (default_mode : ℕ) (ktp : KeyToPath) (o : Option ℕ)
    → ktp.mode ≡ o
    → HasMode default_mode ktp (mode_or default_mode o)
mode_or-HasMode default_mode ktp none e = inr (e, refl)
mode_or-HasMode default_mode ktp (some mode) e = inl e

-- What the file of a path is, by the last mapping to the path.
abbrev pub IsMappedFile : ConfigMap → ℕ → Option KeyToPath → Option JailedFile → Type 0
IsMappedFile config_map default_mode none file = file ≡ none
IsMappedFile config_map default_mode (some ktp) file =
    (content : Bytes) × (mode : ℕ) × HasContent config_map ktp.key content
    × HasMode default_mode ktp mode
    × (file ≡ some (record { content = content; mode = mode }))

abbrev pub HasMissingKey : ConfigMap → List KeyToPath → Type 0
HasMissingKey config_map [] = ⊥
HasMissingKey config_map (ktp ∷ mappings) =
    InNeither config_map ktp ⊎ HasMissingKey config_map mappings

IsFileOf-IsMappedFile :
    (config_map : ConfigMap) (default_mode : ℕ) (last : Option KeyToPath) (file : Option JailedFile)
    → IsFileOf config_map default_mode last none file
    → IsMappedFile config_map default_mode last file
IsFileOf-IsMappedFile config_map default_mode none file h = h
IsFileOf-IsMappedFile config_map default_mode (some ktp) file (content, found, e) = (
  content,
  mode_or default_mode ktp.mode,
  content_of-HasContent config_map ktp.key content found,
  mode_or-HasMode default_mode ktp ktp.mode refl,
  e,
)

HasMissing-HasMissingKey :
    (config_map : ConfigMap) (default_mode : ℕ) (mappings : List KeyToPath)
    → HasMissing config_map default_mode mappings
    → HasMissingKey config_map mappings
HasMissing-HasMissingKey config_map default_mode [] h = h
HasMissing-HasMissingKey config_map default_mode (ktp ∷ mappings) (inl h) =
    inl (content_of-InNeither config_map ktp h)
HasMissing-HasMissingKey config_map default_mode (ktp ∷ mappings) (inr h) =
    inr (HasMissing-HasMissingKey config_map default_mode mappings h)

HasMissingKey-HasMissing :
    (config_map : ConfigMap) (default_mode : ℕ) (mappings : List KeyToPath)
    → HasMissingKey config_map mappings
    → HasMissing config_map default_mode mappings
unfolding content_of
HasMissingKey-HasMissing config_map default_mode [] h = h
HasMissingKey-HasMissing config_map default_mode (ktp ∷ mappings) (inl (t, b)) =
    inl (rw (t, b) refl)
HasMissingKey-HasMissing config_map default_mode (ktp ∷ mappings) (inr h) =
    inr (HasMissingKey-HasMissing config_map default_mode mappings h)

-- Without mappings, every key of the ConfigMap is the path of a file, the binary data first.
abbrev pub IsWhole : ConfigMap → ℕ → Option (List (Bytes × JailedFile)) → Type 0
IsWhole config_map mode none = ⊥
IsWhole config_map mode (some payload) =
    (name : Bytes)
    → lookup payload name
      ≡ file_or mode (lookup config_map.binary_data name)
          (file_or mode (lookup config_map.text_data name) none)

abbrev pub IsPayload : List KeyToPath → ConfigMap → ℕ → Option (List (Bytes × JailedFile)) → Type 0
IsPayload [] config_map mode result = IsWhole config_map mode result
IsPayload (ktp ∷ mappings) config_map mode none = HasMissingKey config_map (ktp ∷ mappings)
IsPayload (ktp ∷ mappings) config_map mode (some payload) =
    (HasMissingKey config_map (ktp ∷ mappings) → ⊥)
    × ((path : Bytes)
        → IsMappedFile config_map mode (last_mapping (ktp ∷ mappings) path) (lookup payload path))

IsMapped-IsPayload :
    (ktp : KeyToPath) (mappings : List KeyToPath) (config_map : ConfigMap) (mode : ℕ)
    (result : Option (List (Bytes × JailedFile)))
    → IsMapped config_map mode (ktp ∷ mappings) [] result
    → IsPayload (ktp ∷ mappings) config_map mode result
unfolding lookup
IsMapped-IsPayload ktp mappings config_map mode none h =
    HasMissing-HasMissingKey config_map mode (ktp ∷ mappings) h
IsMapped-IsPayload ktp mappings config_map mode (some payload) (found, files) = (
  λ missing. found (HasMissingKey-HasMissing config_map mode (ktp ∷ mappings) missing),
  λ path.
      IsFileOf-IsMappedFile config_map mode (last_mapping (ktp ∷ mappings) path)
        (lookup payload path) (files path),
)

-- For a ConfigMap with distinct keys: without mappings every key is the path of a file, the binary
-- data first, with the default mode; with mappings there is a payload exactly if every key of them
-- is in the text or the binary data, and then a path has a file exactly if a mapping names it: the
-- text of the key of its last mapping, or the binary data if there is no text, with the mode of
-- that mapping, or the default mode if it has none.
pub make_payload_exact :
    (mappings : List KeyToPath) (config_map : ConfigMap) (mode : ℕ)
    → IsUnique (map (λ w. w.0) config_map.text_data)
    → IsUnique (map (λ w. w.0) config_map.binary_data)
    → IsPayload mappings config_map mode (make_payload mappings config_map mode)
unfolding make_payload lookup
make_payload_exact [] config_map mode ut ub = λ name.
    lookup-add_entries mode config_map.binary_data (add_entries mode config_map.text_data []) ub
      name
    ∙ ap (file_or mode (lookup config_map.binary_data name))
        (lookup-add_entries mode config_map.text_data [] ut name)
make_payload_exact (ktp ∷ mappings) config_map mode ut ub =
    IsMapped-IsPayload ktp mappings config_map mode
      (add_mappings config_map mode (ktp ∷ mappings) [])
      (add_mappings-IsMapped config_map mode (ktp ∷ mappings) [])
