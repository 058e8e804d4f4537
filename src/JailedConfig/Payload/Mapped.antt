-- ===== src/JailedConfig/Payload/Mapped.antt =====
-- The loop over the mappings of a JailedConfig.
use soperator.Prelude.{
  ℕ, ◌≡◌, ◌⊎◌, refl, Option, none, some, List, [], ◌∷◌, Bytes, comparable_bytes, ◌==◌, put, lookup,
  lookup-put, Option-cases, Bool-cases, inl, inr, arith, if◌then◌else◌,
}
use soperator.JailedConfig.Batch.{JailedFile}
use soperator.JailedConfig.Payload.{ConfigMap, KeyToPath, content_of, mode_or, add_mappings}

-- The last mapping to a path.
abbrev pub last_mapping : List KeyToPath → Bytes → Option KeyToPath
last_mapping [] path = none
last_mapping (ktp ∷ mappings) path = elim (last_mapping mappings path) [
  | some later ↦ some later
  | none ↦ if ktp.path == path then some ktp else none
]

module _ (config_map : ConfigMap) (default_mode : ℕ) where
  -- The file of a path: that of its last mapping, or the one from before.
  abbrev pub IsFileOf : Option KeyToPath → Option JailedFile → Option JailedFile → Type 0
  IsFileOf none before file = file ≡ before
  IsFileOf (some ktp) before file =
      (content : Bytes) × (content_of config_map ktp.key ≡ some content)
      × (file ≡ some (record { content = content; mode = mode_or default_mode ktp.mode }))

  abbrev pub HasMissing : List KeyToPath → Type 0
  HasMissing [] = ⊥
  HasMissing (ktp ∷ mappings) = (content_of config_map ktp.key ≡ none) ⊎ HasMissing mappings

  -- With a result, every key has a content, and each path is as its last mapping says; without
  -- one, some key is in neither map.
  abbrev pub IsMapped :
      List KeyToPath → List (Bytes × JailedFile) → Option (List (Bytes × JailedFile)) → Type 0
  IsMapped mappings before none = HasMissing mappings
  IsMapped mappings before (some payload) =
      (HasMissing mappings → ⊥)
      × ((path : Bytes)
          → IsFileOf (last_mapping mappings path) (lookup before path) (lookup payload path))

  is_file_before :
      (ktp : KeyToPath) (content : Bytes) (path : Bytes) (later : Option KeyToPath)
      (before file : Option JailedFile)
      → content_of config_map ktp.key ≡ some content
      → IsFileOf later
          (if ktp.path == path
            then some (record { content = content; mode = mode_or default_mode ktp.mode })
            else before)
          file
      → IsFileOf
          (elim later [ some l ↦ some l | none ↦ if ktp.path == path then some ktp else none ])
          before
          file
  is_file_before ktp content path (some l) before file e h = h
  is_file_before ktp content path none before file e h = elim (Bool-cases (ktp.path == path)) [
    | inl same ↦ rw same (content, e, rw same at h)
    | inr other ↦ rw other (rw other at h)
  ]

  one_before :
      (ktp : KeyToPath) (content : Bytes) (mappings : List KeyToPath)
      (before : List (Bytes × JailedFile)) (result : Option (List (Bytes × JailedFile)))
      → content_of config_map ktp.key ≡ some content
      → IsMapped mappings
          (put ktp.path (record { content = content; mode = mode_or default_mode ktp.mode }) before)
          result
      → IsMapped (ktp ∷ mappings) before result
  one_before ktp content mappings before none e h = inr h
  one_before ktp content mappings before (some payload) e (found, h) = (
    λ missing. elim missing [ inl m ↦ absurd (ground (arith, e, m)) | inr ms ↦ found ms ],
    λ path.
        is_file_before ktp content path (last_mapping mappings path) (lookup before path)
          (lookup payload path) e
          (let here = h path in
            rw
              (lookup-put ktp.path
                (record { content = content; mode = mode_or default_mode ktp.mode }) before path)
              at here),
  )

  pub add_mappings-IsMapped :
      (mappings : List KeyToPath) (before : List (Bytes × JailedFile))
      → IsMapped mappings before (add_mappings config_map default_mode mappings before)
  unfolding add_mappings
  add_mappings-IsMapped [] before = (λ h. h, λ path. refl)
  add_mappings-IsMapped (ktp ∷ mappings) before =
      elim (Option-cases (content_of config_map ktp.key)) [
        | inl e ↦ rw e (inl e)
        | inr (content, e) ↦
            let file : JailedFile = record {
              content = content;
              mode = mode_or default_mode ktp.mode;
            } in
            let more = put ktp.path file before in
            rw e (
              one_before ktp content mappings before
                (add_mappings config_map default_mode mappings more) e
                (add_mappings-IsMapped mappings more))
      ]
