-- ===== src/JailedConfig/Batch.antt =====
-- The replacement of files in batches
-- (internal/controller/sconfigcontroller/replaced_files_batch.go). The file system is a parameter.
pub mod Laws
pub mod Rollback
pub mod Undo
pub mod Progress
pub mod Replaced
use soperator.Prelude.{
  ℕ, Bool, true, false, not, Option, none, some, List, [], ◌∷◌, ◌++◌, Bytes, codes, nat_beq,
  if◌then◌else◌,
}
use soperator.Exec.{
  Err, not_exist, wrap, joined, collected, join_errors, Result, ok, err, Exec, pure, raise, attempt,
  wrapped, ◌>>=◌, ◌>>◌, is_not_exist,
}

-- `JailedFile`
pub record JailedFile : Type 0 where
  pub content : Bytes
  pub mode : ℕ

-- `Fs`
pub record Fs (S : Type 0) : Type 0 where
  pub mkdir_all : Bytes → ℕ → Exec S (Unit {0})
  pub prepare_new_file : Bytes → JailedFile → Exec S Bytes
  pub rename_exchange : Bytes → Bytes → Exec S (Unit {0})
  pub rename_no_replace : Bytes → Bytes → Exec S (Unit {0})
  pub remove : Bytes → Exec S (Unit {0})
  pub sync_caches : Exec S (Unit {0})

pub record ReplacedFile : Type 0 where
  pub target_name : Bytes
  pub temp_name : Bytes

-- The text before the last slash, if there is a slash.
pub before_last_slash : Bytes → Option Bytes
before_last_slash [] = none
before_last_slash (c ∷ s) = elim (before_last_slash s) [
  | none ↦ if nat_beq c b'/' then some [] else none
  | some dir ↦ some (c ∷ dir)
]

-- `filepath.Dir`, without the rewriting of a path that has empty or dot segments.
abbrev pub dir_of : Option Bytes → Bytes
dir_of none = codes "."
dir_of (some []) = codes "/"
dir_of (some (c ∷ dir)) = c ∷ dir

-- `os.IsNotExist`, which does not look into wrapped errors.
abbrev pub os_is_not_exist : Err → Bool
os_is_not_exist not_exist = true
os_is_not_exist _ = false

-- `errors.Join` of an error with the result of an action.
abbrev pub join_result : Err → Result (Unit {0}) → Err
join_result e (ok u) = e
join_result e (err f) = joined e f

module _ {S : Type 0} (fs : Fs S) where
  -- The deferred removal of the temporary file, before an error is returned.
  unfoldable pub remove_and_raise : Bytes → Err → Exec S (List ReplacedFile)
  remove_and_raise temp e = do r ← attempt (fs.remove temp); raise (join_result e r)

  -- What `Replace` does after the exchange; the value is the new `pendingFiles`.
  unfoldable pub after_exchange :
      Bytes → Bytes → List ReplacedFile → Result (Unit {0}) → Exec S (List ReplacedFile)
  unfolding remove_and_raise
  after_exchange path temp pending (ok u) =
      pure (pending ++ (record { target_name = path; temp_name = temp }) ∷ [])
  after_exchange path temp pending (err e) =
      if is_not_exist e
      then (do wrapped "rename temp to target file" (fs.rename_no_replace temp path); pure pending)
      else remove_and_raise temp (wrap "switch temp and target files" e)

  unfoldable pub replace : List ReplacedFile → Bytes → JailedFile → Exec S (List ReplacedFile)
  unfolding after_exchange before_last_slash
  replace pending path file = do
    wrapped "preparing dir for file" (fs.mkdir_all (dir_of (before_last_slash path)) 493)
    temp ← wrapped "preparing new file" (fs.prepare_new_file path file)
    r ← attempt (fs.rename_exchange temp path)
    after_exchange path temp pending r

  -- One round of the loop of `Cleanup`.
  unfoldable pub restore : ReplacedFile → Exec S (Unit {0})
  restore file = do fs.rename_exchange file.temp_name file.target_name; fs.remove file.temp_name

  unfoldable pub restore_all : List ReplacedFile → Exec S (List Err)
  unfolding restore
  restore_all [] = pure []
  restore_all (file ∷ files) = do
    r ← attempt (restore file)
    rest ← restore_all files
    pure (collected r rest)

  unfoldable pub cleanup : List ReplacedFile → Exec S (Unit {0})
  unfolding restore_all
  cleanup pending = do errs ← restore_all pending; join_errors errs

  -- A file that is gone already is no error.
  abbrev pub unless_gone : Result (Unit {0}) → Result (Unit {0})
  unless_gone (ok u) = ok u
  unless_gone (err e) = if not (os_is_not_exist e) then err e else ok tt

  unfoldable pub remove_all : List ReplacedFile → Exec S (List Err)
  remove_all [] = pure []
  remove_all (file ∷ files) = do
    r ← attempt (fs.remove file.temp_name)
    rest ← remove_all files
    pure (collected (unless_gone r) rest)

  -- `Finish`; the batch has no pending files afterwards, whatever it returns.
  unfoldable pub finish : List ReplacedFile → Exec S (Unit {0})
  unfolding remove_all
  finish [] = pure tt
  finish (file ∷ files) = do fs.sync_caches; errs ← remove_all (file ∷ files); join_errors errs
