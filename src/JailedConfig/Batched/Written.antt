-- ===== src/JailedConfig/Batched/Written.antt =====
-- A batch writes all its files or none.
use mathlib.Core.Path.{subst}
use mathlib.Core.List.{append-nil, append_assoc}
use soperator.Prelude.{
  ◌≡◌, refl, sym, Bool, false, Option, List, [], ◌∷◌, ◌++◌, map, Bytes, comparable_bytes, contains,
  contains-append, apart, All, IsUnique, inl, inr, arith,
}
use soperator.Exec.{Result, ok, err, Result-cases}
use soperator.JailedConfig.Batch.{Fs, JailedFile, ReplacedFile, replace}
use soperator.JailedConfig.Batch.Laws.{IsFs}
use soperator.JailedConfig.Batch.Progress.{Progress, names-append}
use soperator.JailedConfig.Batch.Replaced.{replace-IsAfter}
use soperator.JailedConfig.Batched.{replace_files, batch_replace}

-- A name that the rest of the payload does not have.
one_more :
    (w : Bytes × JailedFile) (done payload : List (Bytes × JailedFile))
    → contains (map (λ v. v.0) payload) w.0 ≡ false
    → All (λ v. contains (map (λ u. u.0) done) v.0 ≡ false) payload
    → All (λ v. contains (map (λ u. u.0) (done ++ w ∷ [])) v.0 ≡ false) payload
unfolding contains
one_more w done [] new h = tt
one_more w done (v ∷ payload) new (h, rest) = (
  rw (names-append done w.0 w.1, contains-append)
      (ground (arith, h, apart v.0 w.0 (ground (arith, new)))),
  one_more w done payload (ground (arith, new)) rest,
)

module _ {S : Type 0} {fs : Fs S} {files : S → Bytes → Option JailedFile} {is_temp : Bytes → Bool}
    (laws : IsFs fs files is_temp) (s0 : S) where
  -- A batch in which the files `done` were written.
  abbrev pub At : List (Bytes × JailedFile) → S × List ReplacedFile → Type 0
  At done t = Progress files is_temp s0 done t.1 t.0

  -- The files of a payload can be written after others.
  abbrev pub Fits : List (Bytes × JailedFile) → List (Bytes × JailedFile) → Type 0
  Fits done [] = Unit {0}
  Fits done (w ∷ payload) =
      (is_temp w.0 ≡ false)
      × (contains (map (λ v. v.0) done) w.0 ≡ false)
      × Fits (done ++ w ∷ []) payload

  -- After the loop: all the files are written, or an error was returned.
  abbrev pub IsWritten :
      List (Bytes × JailedFile) → Result (Unit {0}) → S × List ReplacedFile → Type 0
  IsWritten all (ok u) t = At all t
  IsWritten all (err e) t = (done : List (Bytes × JailedFile)) × At done t

  pub replace_files-IsWritten :
      (done payload : List (Bytes × JailedFile)) (t : S × List ReplacedFile)
      → Fits done payload
      → At done t
      → IsWritten (done ++ payload) (replace_files fs payload t).0 (replace_files fs payload t).1
  unfolding replace_files batch_replace
  replace_files-IsWritten done [] t fits h = subst (λ all. At all t) (sym (append-nil done)) h
  replace_files-IsWritten done ((path, file) ∷ payload) (s, p) (plain, new, fits) h =
      let after = replace-IsAfter laws s0 done p path file plain new s h in
      elim (Result-cases (replace fs p path file s).0) [
        | inr (x, e) ↦ rw e (done, rw e at after)
        | inl (more, e) ↦ rw e (
            subst
              (λ all.
                IsWritten all (replace_files fs payload ((replace fs p path file s).1, more)).0
                  (replace_files fs payload ((replace fs p path file s).1, more)).1)
              (append_assoc done ((path, file) ∷ []) payload)
              (replace_files-IsWritten (done ++ (path, file) ∷ []) payload
                ((replace fs p path file s).1, more) fits (rw e at after)))
      ]

  -- A payload with distinct names that are not temporary.
  abbrev pub IsPlain : List (Bytes × JailedFile) → Type 0
  IsPlain payload = All (λ w. is_temp w.0 ≡ false) payload × IsUnique (map (λ w. w.0) payload)

  pub Fits-after :
      (done payload : List (Bytes × JailedFile))
      → IsPlain payload
      → All (λ v. contains (map (λ u. u.0) done) v.0 ≡ false) payload
      → Fits done payload
  Fits-after done [] h new = tt
  Fits-after done (w ∷ payload) ((h, hs), (u, us)) (new, news) =
      (h, new, Fits-after (done ++ w ∷ []) payload (hs, us) (one_more w done payload u news))

  none_before :
      (payload : List (Bytes × JailedFile))
      → All (λ (v : Bytes × JailedFile). contains {A = Bytes} [] v.0 ≡ false) payload
  unfolding contains
  none_before [] = tt
  none_before (w ∷ payload) = (refl, none_before payload)

  pub Fits-of_IsPlain : (payload : List (Bytes × JailedFile)) → IsPlain payload → Fits [] payload
  Fits-of_IsPlain payload h = Fits-after [] payload h (none_before payload)

  -- A batch without files.
  pub At-start : At [] (s0, [])
  unfolding contains
  At-start = ((λ j x p o e. e, tt, tt, tt), λ j x p o e. e, tt, λ j o. refl)
