-- ===== src/JailedConfig/Batch/Laws.antt =====
-- What the theorems assume of a file system: an operation that succeeds changes the names that it is
-- about, and one that fails, which any may, leaves every file that there was. An exchange is that
-- of `renameat2` with RENAME_EXCHANGE, on a file system that supports it: JailedConfig/Rename says
-- what the code does on others.
use soperator.Prelude.{
  ◌≡◌, Bool, true, Option, none, some, Bytes, comparable_bytes, ◌==◌, if◌then◌else◌, ℕ,
}
use soperator.Exec.{Err, ok, err}
use soperator.JailedConfig.Batch.{Fs, JailedFile}

-- `is_temp` tells the names that `PrepareNewFile` makes from the names that configs are given.
pub record IsFs {S : Type 0} (fs : Fs S) (files : S → Bytes → Option JailedFile)
    (is_temp : Bytes → Bool) : Type 0 where
  pub mkdir_same :
      (d : Bytes) (m : ℕ) (s : S) (j : Bytes) → files (fs.mkdir_all d m s).1 j ≡ files s j
  pub prepare_ok :
      (path : Bytes) (file : JailedFile) (s : S) (temp : Bytes)
      → (fs.prepare_new_file path file s).0 ≡ ok temp
      → (is_temp temp ≡ true)
        × (files s temp ≡ none)
        × ((j : Bytes)
            → files (fs.prepare_new_file path file s).1 j
              ≡ (if temp == j then some file else files s j))
  pub prepare_err :
      (path : Bytes) (file : JailedFile) (s : S) (e : Err)
      → (fs.prepare_new_file path file s).0 ≡ err e
      → (j : Bytes) (x : JailedFile) → files s j ≡ some x
      → files (fs.prepare_new_file path file s).1 j ≡ some x
  pub exchange_ok :
      (a b : Bytes) (s : S)
      → (fs.rename_exchange a b s).0 ≡ ok tt
      → (x : JailedFile) × (y : JailedFile) × (files s a ≡ some x)
        × (files s b ≡ some y)
        × ((j : Bytes)
            → files (fs.rename_exchange a b s).1 j
              ≡ (if a == j then some y else if b == j then some x else files s j))
  pub exchange_err :
      (a b : Bytes) (s : S) (e : Err)
      → (fs.rename_exchange a b s).0 ≡ err e
      → (j : Bytes) → files (fs.rename_exchange a b s).1 j ≡ files s j
  pub no_replace_ok :
      (a b : Bytes) (s : S)
      → (fs.rename_no_replace a b s).0 ≡ ok tt
      → (x : JailedFile) × (files s a ≡ some x)
        × (files s b ≡ none)
        × ((j : Bytes)
            → files (fs.rename_no_replace a b s).1 j
              ≡ (if a == j then none else if b == j then some x else files s j))
  pub no_replace_err :
      (a b : Bytes) (s : S) (e : Err)
      → (fs.rename_no_replace a b s).0 ≡ err e
      → (j : Bytes) → files (fs.rename_no_replace a b s).1 j ≡ files s j
  pub remove_ok :
      (a : Bytes) (s : S)
      → (fs.remove a s).0 ≡ ok tt
      → (j : Bytes) → files (fs.remove a s).1 j ≡ (if a == j then none else files s j)
  pub remove_err :
      (a : Bytes) (s : S) (e : Err)
      → (fs.remove a s).0 ≡ err e
      → (j : Bytes) → files (fs.remove a s).1 j ≡ files s j
  pub sync_same : (s : S) (j : Bytes) → files (fs.sync_caches s).1 j ≡ files s j
