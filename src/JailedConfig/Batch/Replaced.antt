-- ===== src/JailedConfig/Batch/Replaced.antt =====
-- One call of `Replace` writes its file or leaves the batch as it was.
use soperator.Prelude.{
  equal_refl, ◌≡◌, refl, sym, ◌∙◌, Bool, true, false, Option, some, List, [], ◌∷◌, ◌++◌, map, Bytes,
  comparable_bytes, bytes_beq_iff, ◌==◌, contains, Bool-cases, inl, inr, arith,
}
use soperator.Exec.{Err, wrap, Result, ok, err, Result-cases, is_not_exist}
use soperator.JailedConfig.Batch.{
  Fs, JailedFile, ReplacedFile, replace, after_exchange, remove_and_raise, dir_of,
  before_last_slash,
}
use soperator.JailedConfig.Batch.Laws.{IsFs}
use soperator.JailedConfig.Batch.Rollback.{temps, differs, fresh}
use soperator.JailedConfig.Batch.Undo.{remove-other}
use soperator.JailedConfig.Batch.Progress.{
  Progress, Progress-Grows, Progress-append, Progress-create, Progress-temp,
}

module _ {S : Type 0} {fs : Fs S} {files : S → Bytes → Option JailedFile} {is_temp : Bytes → Bool}
    (laws : IsFs fs files is_temp) (s0 : S) (done : List (Bytes × JailedFile))
    (p : List ReplacedFile) (path : Bytes) (file : JailedFile) (plain : is_temp path ≡ false)
    (new : contains (map (λ w. w.0) done) path ≡ false) where
  open laws use {
    mkdir_same, prepare_ok, prepare_err, exchange_ok, exchange_err, no_replace_ok, no_replace_err,
  }

  -- The batch after the call, by the result of the call.
  abbrev pub IsAfter : Result (List ReplacedFile) → S → Type 0
  IsAfter (ok more) s = Progress files is_temp s0 (done ++ (path, file) ∷ []) more s
  IsAfter (err e) s = Progress files is_temp s0 done p s

  exchanged :
      (temp : Bytes) (s : S)
      → is_temp temp ≡ true
      → files s temp ≡ some file
      → contains (temps p) temp ≡ false
      → (fs.rename_exchange temp path s).0 ≡ ok tt
      → Progress files is_temp s0 done p s
      → Progress files is_temp s0
          (done ++ (path, file) ∷ [])
          (p ++ (record { target_name = path; temp_name = temp }) ∷ [])
          (fs.rename_exchange temp path s).1
  exchanged temp s ht et na e h =
      let (x, y, ex, ey, law) = exchange_ok temp path s e in
      let s' = (fs.rename_exchange temp path s).1 in
      let apart : (temp == path) ≡ false = differs files is_temp temp path ht plain in
      let at_temp : files s' temp ≡ some y = law temp ∙ rw (equal_refl temp) refl in
      let at_path : files s' path ≡ some file =
        law path ∙ rw (apart, equal_refl path) (sym ex ∙ et) in
      Progress-append files is_temp s0 s s' done p (record { target_name = path; temp_name = temp })
        file (λ j n m. law j ∙ rw (n, m) refl)
        (
          ht,
          plain,
          λ z ez. at_temp ∙ sym ey ∙ h.1 path z plain new ez,
          (y, at_temp),
          (file, at_path),
        )
        at_path na new h

  created :
      (temp : Bytes) (s : S)
      → is_temp temp ≡ true
      → files s temp ≡ some file
      → contains (temps p) temp ≡ false
      → (fs.rename_no_replace temp path s).0 ≡ ok tt
      → Progress files is_temp s0 done p s
      → Progress files is_temp s0 (done ++ (path, file) ∷ []) p (fs.rename_no_replace temp path s).1
  created temp s ht et na e h =
      let (x, ex, ey, law) = no_replace_ok temp path s e in
      let s' = (fs.rename_no_replace temp path s).1 in
      let apart : (temp == path) ≡ false = differs files is_temp temp path ht plain in
      Progress-create files is_temp s0 s s' done p temp path file (λ j n m. law j ∙ rw (n, m) refl)
        ht plain ey (law path ∙ rw (apart, equal_refl path) (sym ex ∙ et)) na new h

  removed :
      (temp : Bytes) (e : Err) (s : S)
      → is_temp temp ≡ true
      → contains (temps p) temp ≡ false
      → Progress files is_temp s0 done p s
      → IsAfter (remove_and_raise fs temp e s).0 (remove_and_raise fs temp e s).1
  unfolding remove_and_raise
  removed temp e s ht na h =
      Progress-temp files is_temp s0 s (fs.remove temp s).1 done p temp path
        (λ j n m. remove-other laws temp s j n) ht plain na new h

  after_exchange-IsAfter :
      (temp : Bytes) (s : S)
      → is_temp temp ≡ true
      → files s temp ≡ some file
      → contains (temps p) temp ≡ false
      → Progress files is_temp s0 done p s
      → let (r, s') = fs.rename_exchange temp path s in
        let (r', s'') = after_exchange fs path temp p r s' in IsAfter r' s''
  unfolding after_exchange
  after_exchange-IsAfter temp s ht et na h =
      let s' = (fs.rename_exchange temp path s).1 in
      elim (Result-cases (fs.rename_exchange temp path s).0) [
        | inl (tt, e) ↦ rw e (exchanged temp s ht et na e h)
        | inr (x, e) ↦
            let same : (j : Bytes) → files s' j ≡ files s j = exchange_err temp path s x e in
            let h' = Progress-Grows files is_temp s0 s s' done p (λ j z ez. same j ∙ ez) h in
            elim (Bool-cases (is_not_exist x)) [
              | inr other ↦
                  rw (e, other) (removed temp (wrap "switch temp and target files" x) s' ht na h')
              | inl gone ↦ elim (Result-cases (fs.rename_no_replace temp path s').0) [
                | inl (tt, f) ↦ rw (e, gone, f) (created temp s' ht (same temp ∙ et) na f h')
                | inr (y, f) ↦
                    rw (e, gone, f)
                      (Progress-Grows files is_temp s0 s' (fs.rename_no_replace temp path s').1 done
                        p (λ j z ez. no_replace_err temp path s' y f j ∙ ez) h')
              ]
            ]
      ]

  -- A new temporary file is beside the batch.
  prepared :
      (temp : Bytes) (s : S)
      → (fs.prepare_new_file path file s).0 ≡ ok temp
      → Progress files is_temp s0 done p s
      → let s' = (fs.prepare_new_file path file s).1 in
        (is_temp temp ≡ true)
        × (files s' temp ≡ some file)
        × (contains (temps p) temp ≡ false)
        × Progress files is_temp s0 done p s'
  prepared temp s e h =
      let (ht, absent, law) = prepare_ok path file s temp e in
      (
        ht,
        law temp ∙ rw (equal_refl temp) refl,
        fresh files is_temp s0 s p temp h.0.1 absent,
        Progress-Grows files is_temp s0 s (fs.prepare_new_file path file s).1 done p
            (λ j x ej. elim (Bool-cases (temp == j)) [
              | inl same ↦
                  let q : temp ≡ j = (bytes_beq_iff temp j).0 same in
                  absurd (ground (arith, q, absent, ej))
              | inr other ↦ law j ∙ rw other ej
            ])
            h,
      )

  -- If the call succeeds, its file is one of the written files, and the pending files are the new
  -- ones; otherwise the batch has the same written and pending files.
  pub replace-IsAfter :
      (s : S)
      → Progress files is_temp s0 done p s
      → IsAfter (replace fs p path file s).0 (replace fs p path file s).1
  unfolding replace
  replace-IsAfter s h =
      let dir = dir_of (before_last_slash path) in
      let s1 = (fs.mkdir_all dir 493 s).1 in
      let h1 =
        Progress-Grows files is_temp s0 s s1 done p (λ j x e. mkdir_same dir 493 s j ∙ e) h in
      elim (Result-cases (fs.mkdir_all dir 493 s).0) [
        | inr (x, e) ↦ rw e h1
        | inl (tt, e) ↦ elim (Result-cases (fs.prepare_new_file path file s1).0) [
          | inr (x, f) ↦
              rw (e, f)
                (Progress-Grows files is_temp s0 s1 (fs.prepare_new_file path file s1).1 done p
                  (prepare_err path file s1 x f) h1)
          | inl (temp, f) ↦
              let (ht, et, na, h2) = prepared temp s1 f h1 in
              rw (e, f)
                (after_exchange-IsAfter temp (fs.prepare_new_file path file s1).1 ht et na h2)
        ]
      ]
