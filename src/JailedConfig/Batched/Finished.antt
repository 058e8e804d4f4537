-- ===== src/JailedConfig/Batched/Finished.antt =====
-- What is left of a batch after `Finish`.
use soperator.Prelude.{
  ◌≡◌, refl, ◌∙◌, Bool, false, Option, some, List, [], ◌∷◌, map, Bytes, comparable_bytes, All, inl,
  inr,
}
use soperator.Exec.{Result-cases}
use soperator.JailedConfig.Batch.{Fs, JailedFile, ReplacedFile, remove_all, finish}
use soperator.JailedConfig.Batch.Laws.{IsFs}
use soperator.JailedConfig.Batch.Rollback.{OthersKept, IsSwitched, differs}
use soperator.JailedConfig.Batch.Undo.{remove-other}

module _ {S : Type 0} (files : S → Bytes → Option JailedFile) (is_temp : Bytes → Bool) where
  -- No name but a temporary one has another file.
  abbrev pub PlainSame : S → S → Type 0
  PlainSame s s' = (j : Bytes) → is_temp j ≡ false → files s' j ≡ files s j

  abbrev pub HasFiles : List (Bytes × JailedFile) → S → Type 0
  HasFiles payload s = All (λ w. (is_temp w.0 ≡ false) × (files s w.0 ≡ some w.1)) payload

  -- Every file of the payload is there, and every other file that was there at the start is as it
  -- was, the temporary names apart.
  abbrev pub IsAll : S → List (Bytes × JailedFile) → S → Type 0
  IsAll s0 payload s = OthersKept files is_temp s0 (map (λ w. w.0) payload) s × HasFiles payload s

  HasFiles-PlainSame :
      (s s' : S) (payload : List (Bytes × JailedFile))
      → PlainSame s s'
      → HasFiles payload s
      → HasFiles payload s'
  HasFiles-PlainSame s s' [] same h = tt
  HasFiles-PlainSame s s' (w ∷ payload) same (h, rest) =
      ((h.0, same w.0 h.0 ∙ h.1), HasFiles-PlainSame s s' payload same rest)

  pub IsAll-PlainSame :
      (s0 s s' : S) (payload : List (Bytes × JailedFile))
      → PlainSame s s'
      → IsAll s0 payload s
      → IsAll s0 payload s'
  IsAll-PlainSame s0 s s' payload same (kept, has) = (
    λ j x plain out e. same j plain ∙ kept j x plain out e,
    HasFiles-PlainSame s s' payload same has,
  )

module _ {S : Type 0} {fs : Fs S} {files : S → Bytes → Option JailedFile} {is_temp : Bytes → Bool}
    (laws : IsFs fs files is_temp) where
  remove_all-PlainSame :
      (s0 s1 s : S) (p : List ReplacedFile)
      → All (IsSwitched files is_temp s0 s1) p
      → PlainSame files is_temp s (remove_all fs p s).1
  unfolding remove_all
  remove_all-PlainSame s0 s1 s [] h j plain = refl
  remove_all-PlainSame s0 s1 s (f ∷ p) (h, rest) j plain =
      let s' = (fs.remove f.temp_name s).1 in
      let one = remove-other laws f.temp_name s j (differs files is_temp f.temp_name j h.0 plain) in
      let more = remove_all-PlainSame s0 s1 s' p rest j plain ∙ one in
      elim (Result-cases (remove_all fs p s').0) [
        | inl (errs, e) ↦ rw e more
        | inr (x, e) ↦ rw e more
      ]

  pub finish-PlainSame :
      (s0 s : S) (p : List ReplacedFile)
      → All (IsSwitched files is_temp s0 s) p
      → PlainSame files is_temp s (finish fs p s).1
  unfolding finish
  finish-PlainSame s0 s [] h j plain = refl
  finish-PlainSame s0 s (f ∷ p) h j plain =
      let s' = (fs.sync_caches s).1 in
      let synced = laws.sync_same s j in
      let more = remove_all-PlainSame s0 s s' (f ∷ p) h j plain ∙ synced in
      elim (Result-cases (fs.sync_caches s).0) [
        | inr (x, e) ↦ rw e synced
        | inl (tt, e) ↦ elim (Result-cases (remove_all fs (f ∷ p) s').0) [
          | inl ([], g) ↦ rw (e, g) more
          | inl (x ∷ errs, g) ↦ rw (e, g) more
          | inr (x, g) ↦ rw (e, g) more
        ]
      ]
