-- ===== src/JailedConfig/Tests/Memory.antt =====
-- A file system in memory for the tests, and the laws that it meets.
use mathlib.Core.Path.{subst}
use soperator.Prelude.{
  ap, ℕ, ◌≡◌, refl, ◌∙◌, Bool, true, false, Option, none, some, List, [], ◌∷◌, Bytes,
  comparable_bytes, bytes_beq_iff, ◌==◌, nat_beq, lookup, lookup-put, put, arith, if◌then◌else◌,
}
use soperator.Exec.{Err, not_exist, message, Result, ok, err, Exec}
use soperator.JailedConfig.Batch.{Fs, JailedFile}
use soperator.JailedConfig.Batch.Laws.{IsFs}

pub record World : Type 0 where
  pub files : List (Bytes × JailedFile)
  pub start : ℕ

unfoldable pub erase : Bytes → List (Bytes × JailedFile) → List (Bytes × JailedFile)
erase k [] = []
erase k ((j, f) ∷ m) = let rest = erase k m in if j == k then rest else (j, f) ∷ rest

lookup-erase :
    (k : Bytes) (m : List (Bytes × JailedFile)) (j : Bytes)
    → lookup (erase k m) j ≡ (if k == j then none else lookup m j)
unfolding erase lookup
lookup-erase k [] j = ground arith
lookup-erase k ((i, f) ∷ m) j =
    ground (arith, lookup-erase k m j, bytes_beq_iff k j, bytes_beq_iff i k, bytes_beq_iff i j)

abbrev pub files_of : World → Bytes → Option JailedFile
files_of w = lookup w.files

-- A temporary name begins with a dot.
abbrev pub is_temp : Bytes → Bool
is_temp [] = false
is_temp (c ∷ path) = nat_beq c b'.'

abbrev pub with_files : World → List (Bytes × JailedFile) → World
with_files w files = record w { files = files }

-- Two temporary files of a path can be there at once.
abbrev pub temp_name : Bytes → Option JailedFile → Bytes
temp_name path none = b'.' ∷ path
temp_name path (some file) = b'.' ∷ b'.' ∷ path

temp_name-is_temp : (path : Bytes) (file : Option JailedFile) → is_temp (temp_name path file) ≡ true
temp_name-is_temp path none = refl
temp_name-is_temp path (some file) = refl

abbrev pub prepared_at : Bytes → JailedFile → Option JailedFile → Exec World Bytes
prepared_at temp file (some old) w = (err (message "file exists"), w)
prepared_at temp file none w = (ok temp, with_files w (put temp file w.files))

abbrev pub exchanged_at :
    Bytes → Bytes → Option JailedFile → Option JailedFile → Exec World (Unit {0})
exchanged_at a b (some x) (some y) w = (ok tt, with_files w (put a y (put b x w.files)))
exchanged_at a b (some x) none w = (err not_exist, w)
exchanged_at a b none y w = (err not_exist, w)

abbrev pub renamed_at :
    Bytes → Bytes → Option JailedFile → Option JailedFile → Exec World (Unit {0})
renamed_at a b (some x) none w = (ok tt, with_files w (erase a (put b x w.files)))
renamed_at a b (some x) (some y) w = (err (message "file exists"), w)
renamed_at a b none y w = (err not_exist, w)

abbrev pub removed_at : Bytes → Option JailedFile → Exec World (Unit {0})
removed_at a none w = (err not_exist, w)
removed_at a (some x) w = (ok tt, with_files w (erase a w.files))

abbrev pub memory : Fs World
memory = record {
  mkdir_all = λ d m w. (ok tt, w);
  prepare_new_file = λ path file w.
      let temp = temp_name path (lookup w.files (b'.' ∷ path)) in
      prepared_at temp file (lookup w.files temp) w;
  rename_exchange = λ a b w. exchanged_at a b (lookup w.files a) (lookup w.files b) w;
  rename_no_replace = λ a b w. renamed_at a b (lookup w.files a) (lookup w.files b) w;
  remove = λ a w. removed_at a (lookup w.files a) w;
  sync_caches = λ w. (ok tt, w);
}

prepared-laws :
    (temp : Bytes) (file : JailedFile) (found : Option JailedFile) (w : World)
    → lookup w.files temp ≡ found
    → ((t : Bytes)
        → (prepared_at temp file found w).0 ≡ ok t
        → (temp ≡ t)
          × (lookup w.files t ≡ none)
          × ((j : Bytes)
              → lookup (prepared_at temp file found w).1.files j
                ≡ (if t == j then some file else lookup w.files j)))
      × ((e : Err)
          → (prepared_at temp file found w).0 ≡ err e
          → (prepared_at temp file found w).1 ≡ w)
prepared-laws temp file none w h = (
  λ t e.
      let q : temp ≡ t = ground (arith, e) in
      (
        q,
        subst (λ k. lookup w.files k ≡ none) q h,
        λ j. lookup-put temp file w.files j ∙ rw q refl,
      ),
  λ x e. absurd (ground (arith, e)),
)
prepared-laws temp file (some old) w h = (λ t e. absurd (ground (arith, e)), λ x e. refl)

abbrev IsExchanged : Bytes → Bytes → World → Result (Unit {0}) → World → Type 0
IsExchanged a b w (ok u) w' =
    (x : JailedFile) × (y : JailedFile) × (lookup w.files a ≡ some x)
    × (lookup w.files b ≡ some y)
    × ((j : Bytes)
        → lookup w'.files j
          ≡ (if a == j then some y else if b == j then some x else lookup w.files j))
IsExchanged a b w (err e) w' = w' ≡ w

IsExchanged-exchanged_at :
    (a b : Bytes) (x y : Option JailedFile) (w : World)
    → lookup w.files a ≡ x
    → lookup w.files b ≡ y
    → IsExchanged a b w (exchanged_at a b x y w).0 (exchanged_at a b x y w).1
IsExchanged-exchanged_at a b none y w ha hb = refl
IsExchanged-exchanged_at a b (some x) none w ha hb = refl
IsExchanged-exchanged_at a b (some x) (some y) w ha hb = (
  x,
  y,
  ha,
  hb,
  λ j. ground (arith, lookup-put a y (put b x w.files) j, lookup-put b x w.files j),
)

abbrev IsRenamed : Bytes → Bytes → World → Result (Unit {0}) → World → Type 0
IsRenamed a b w (ok u) w' =
    (x : JailedFile) × (lookup w.files a ≡ some x)
    × (lookup w.files b ≡ none)
    × ((j : Bytes)
        → lookup w'.files j
          ≡ (if a == j then none else if b == j then some x else lookup w.files j))
IsRenamed a b w (err e) w' = w' ≡ w

IsRenamed-renamed_at :
    (a b : Bytes) (x y : Option JailedFile) (w : World)
    → lookup w.files a ≡ x
    → lookup w.files b ≡ y
    → IsRenamed a b w (renamed_at a b x y w).0 (renamed_at a b x y w).1
IsRenamed-renamed_at a b none y w ha hb = refl
IsRenamed-renamed_at a b (some x) (some y) w ha hb = refl
IsRenamed-renamed_at a b (some x) none w ha hb =
    (x, ha, hb, λ j. ground (arith, lookup-erase a (put b x w.files) j, lookup-put b x w.files j))

abbrev IsRemoved : Bytes → World → Result (Unit {0}) → World → Type 0
IsRemoved a w (ok u) w' =
    (j : Bytes) → lookup w'.files j ≡ (if a == j then none else lookup w.files j)
IsRemoved a w (err e) w' = w' ≡ w

IsRemoved-removed_at :
    (a : Bytes) (x : Option JailedFile) (w : World)
    → IsRemoved a w (removed_at a x w).0 (removed_at a x w).1
IsRemoved-removed_at a none w = refl
IsRemoved-removed_at a (some x) w = lookup-erase a w.files

pub memory-IsFs : IsFs memory files_of is_temp
memory-IsFs = record {
  mkdir_same = λ d m w j. refl;
  prepare_ok = λ path file w t e.
      let first = lookup w.files (b'.' ∷ path) in
      let temp : Bytes = temp_name path first in
      let (q, absent, law) = (prepared-laws temp file (lookup w.files temp) w refl).0 t e in
      (subst (λ k. is_temp k ≡ true) q (temp_name-is_temp path first), absent, law);
  prepare_err = λ path file w x e j y f.
      let first = lookup w.files (b'.' ∷ path) in
      let temp : Bytes = temp_name path first in
      let same = (prepared-laws temp file (lookup w.files temp) w refl).1 x e in
      ap (λ v. lookup v.files j) same ∙ f;
  exchange_ok = λ a b w e.
      subst (λ r. IsExchanged a b w r (memory.rename_exchange a b w).1) e
        (IsExchanged-exchanged_at a b (lookup w.files a) (lookup w.files b) w refl refl);
  exchange_err = λ a b w x e j.
      ap (λ v. lookup v.files j)
        (subst (λ r. IsExchanged a b w r (memory.rename_exchange a b w).1) e
          (IsExchanged-exchanged_at a b (lookup w.files a) (lookup w.files b) w refl refl));
  no_replace_ok = λ a b w e.
      subst (λ r. IsRenamed a b w r (memory.rename_no_replace a b w).1) e
        (IsRenamed-renamed_at a b (lookup w.files a) (lookup w.files b) w refl refl);
  no_replace_err = λ a b w x e j.
      ap (λ v. lookup v.files j)
        (subst (λ r. IsRenamed a b w r (memory.rename_no_replace a b w).1) e
          (IsRenamed-renamed_at a b (lookup w.files a) (lookup w.files b) w refl refl));
  remove_ok = λ a w e.
      subst (λ r. IsRemoved a w r (memory.remove a w).1) e
        (IsRemoved-removed_at a (lookup w.files a) w);
  remove_err = λ a w x e j.
      ap (λ v. lookup v.files j)
        (subst (λ r. IsRemoved a w r (memory.remove a w).1) e
          (IsRemoved-removed_at a (lookup w.files a) w));
  sync_same = λ w j. refl;
}
