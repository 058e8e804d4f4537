-- ===== src/JailedConfig/Rename.antt =====
-- How the file system of the controller renames
-- (internal/controller/sconfigcontroller/fs_linux.go). The system calls are parameters.
use soperator.Prelude.{
  ◌≡◌, ◌⊎◌, true, Option, none, some, Bytes, comparable_bytes, ◌==◌, if◌then◌else◌,
}
use soperator.Exec.{
  Err, Result, ok, err, Exec, pure, raise, attempt, is_rename_not_supported, ◌>>=◌,
}
use soperator.JailedConfig.Batch.{JailedFile}

-- `renameat2` with RENAME_EXCHANGE and with RENAME_NOREPLACE, and `os.Rename`.
pub record Syscalls (S : Type 0) : Type 0 where
  pub exchange : Bytes → Bytes → Exec S (Unit {0})
  pub no_replace : Bytes → Bytes → Exec S (Unit {0})
  pub rename : Bytes → Bytes → Exec S (Unit {0})

-- `if isRenameNotSupported(err) { return os.Rename(...) }`
abbrev pub or_rename : {S : Type 0} → Exec S (Unit {0}) → Result (Unit {0}) → Exec S (Unit {0})
or_rename fallback (ok u) = pure tt
or_rename fallback (err e) = if is_rename_not_supported e then fallback else raise e

module _ {S : Type 0} (sys : Syscalls S) where
  unfoldable pub rename_exchange : Bytes → Bytes → Exec S (Unit {0})
  unfolding is_rename_not_supported
  rename_exchange old new = attempt (sys.exchange old new) >>= or_rename (sys.rename old new)

  unfoldable pub rename_no_replace : Bytes → Bytes → Exec S (Unit {0})
  unfolding is_rename_not_supported
  rename_no_replace old new = attempt (sys.no_replace old new) >>= or_rename (sys.rename old new)

-- What the manual pages promise: a call that fails changes nothing; an exchange needs both files
-- and swaps them; a rename needs the old name, and a file of the new name is replaced.
pub record IsSyscalls {S : Type 0} (sys : Syscalls S) (files : S → Bytes → Option JailedFile)
    : Type 0 where
  pub exchange_ok :
      (a b : Bytes) (s : S)
      → (sys.exchange a b s).0 ≡ ok tt
      → (x : JailedFile) × (y : JailedFile) × (files s a ≡ some x)
        × (files s b ≡ some y)
        × ((j : Bytes)
            → files (sys.exchange a b s).1 j
              ≡ (if a == j then some y else if b == j then some x else files s j))
  pub exchange_err :
      (a b : Bytes) (s : S) (e : Err)
      → (sys.exchange a b s).0 ≡ err e
      → (j : Bytes) → files (sys.exchange a b s).1 j ≡ files s j
  pub rename_ok :
      (a b : Bytes) (s : S)
      → (sys.rename a b s).0 ≡ ok tt
      → (x : JailedFile) × (files s a ≡ some x)
        × ((j : Bytes)
            → files (sys.rename a b s).1 j
              ≡ (if b == j then some x else if a == j then none else files s j))
  pub rename_err :
      (a b : Bytes) (s : S) (e : Err)
      → (sys.rename a b s).0 ≡ err e
      → (j : Bytes) → files (sys.rename a b s).1 j ≡ files s j

module _ {S : Type 0} {sys : Syscalls S} {files : S → Bytes → Option JailedFile}
    (laws : IsSyscalls sys files) where
  open laws use {exchange_ok, exchange_err, rename_ok, rename_err}

  -- Both files were there, and have changed places.
  abbrev pub Swapped : Bytes → Bytes → S → S → Type 0
  Swapped a b s s' =
      (x : JailedFile) × (y : JailedFile) × (files s a ≡ some x)
      × (files s b ≡ some y)
      × ((j : Bytes)
          → files s' j ≡ (if a == j then some y else if b == j then some x else files s j))

  -- The file has moved, and the one that had the new name is gone.
  abbrev pub Overwritten : Bytes → Bytes → S → S → Type 0
  Overwritten a b s s' =
      (x : JailedFile) × (files s a ≡ some x)
      × ((j : Bytes) → files s' j ≡ (if b == j then some x else if a == j then none else files s j))

  -- The system call said that it does not support an exchange.
  abbrev pub Unsupported : Bytes → Bytes → S → Type 0
  Unsupported a b s =
      (e : Err) × ((sys.exchange a b s).0 ≡ err e) × (is_rename_not_supported e ≡ true)

  abbrev pub IsRenamed : Bytes → Bytes → S → Result (Unit {0}) → S → Type 0
  IsRenamed a b s (ok u) s' = Swapped a b s s' ⊎ (Unsupported a b s × Overwritten a b s s')
  IsRenamed a b s (err e) s' = (j : Bytes) → files s' j ≡ files s j
