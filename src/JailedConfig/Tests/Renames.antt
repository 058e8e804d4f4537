-- ===== src/JailedConfig/Tests/Renames.antt =====
-- A file system that does not support an exchange, as a function from names to files.
use soperator.Prelude.{
  ◌≡◌, refl, none, some, Option, Bytes, codes, comparable_bytes, ◌==◌, if◌then◌else◌, arith,
}
use soperator.Exec.{Err, not_supported, not_exist, Result, ok, err, Exec, is_rename_not_supported}
use soperator.JailedConfig.Batch.{JailedFile}
use soperator.JailedConfig.Rename.{Syscalls, rename_exchange, IsSyscalls}
use soperator.JailedConfig.Tests.Cluster.{file}

abbrev Disk : Type 0
Disk = Bytes → Option JailedFile

abbrev moved : Bytes → Bytes → Option JailedFile → Exec Disk (Unit {0})
moved a b none disk = (err not_exist, disk)
moved a b (some x) disk = (ok tt, λ j. if b == j then some x else if a == j then none else disk j)

abbrev old_kernel : Syscalls Disk
old_kernel = record {
  exchange = λ a b disk. (err not_supported, disk);
  no_replace = λ a b disk. (err not_supported, disk);
  rename = λ a b disk. moved a b (disk a) disk;
}

moved_ok :
    (a b : Bytes) (found : Option JailedFile) (disk : Disk)
    → (moved a b found disk).0 ≡ ok tt
    → (x : JailedFile) × (found ≡ some x)
      × ((j : Bytes)
          → (moved a b found disk).1 j
            ≡ (if b == j then some x else if a == j then none else disk j))
moved_ok a b none disk h = absurd (ground (arith, h))
moved_ok a b (some x) disk h = (x, refl, λ j. refl)

moved_err :
    (a b : Bytes) (found : Option JailedFile) (disk : Disk) (e : Err)
    → (moved a b found disk).0 ≡ err e
    → (j : Bytes) → (moved a b found disk).1 j ≡ disk j
moved_err a b none disk e h j = refl
moved_err a b (some x) disk e h j = absurd (ground (arith, h))

never : {A : Type 0} (e : Err) → ◌≡◌ {A = Result (Unit {0})} (err e) (ok tt) → A
never e h = absurd (ground (arith, h))

abbrev old_kernel_laws : IsSyscalls old_kernel (λ disk. disk)
old_kernel_laws = record {
  exchange_ok = λ a b disk h. never not_supported h;
  exchange_err = λ a b disk e h j. refl;
  rename_ok = λ a b disk h. moved_ok a b (disk a) disk h;
  rename_err = λ a b disk e h j. moved_err a b (disk a) disk e h j;
}

abbrev disk_0 : Disk
disk_0 = λ name. if name == codes "/a" then some (file "old") else some (file "new")

-- The old file is gone.
overwritten : (rename_exchange old_kernel (codes "/b") (codes "/a") disk_0).1 (codes "/b") ≡ none
unfolding rename_exchange is_rename_not_supported
overwritten = refl
