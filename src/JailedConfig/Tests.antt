-- ===== src/JailedConfig/Tests.antt =====
-- Runs of the configuration controller on a file system in memory, and the properties at concrete
-- inputs.
mod Memory
mod Cluster
mod Group
mod Renames
use mathlib.Core.Path.{subst}
use soperator.Prelude.{
  ◌⊎◌, IsUnique, comparable_string, comparable_bytes, ◌==◌, if◌then◌else◌, arith, map, refl, ◌/◌,
  ap, ℕ, zero, suc, codes, ◌≡◌, inl, inr, Bool, true, false, Option, none, some, List, [], ◌∷◌,
  Bytes, String, nat_beq, contains, put, lookup,
}
use soperator.Exec.{not_found, message, ok, err, Result, Exec, is_not_exist}
use soperator.JailedConfig.Batch.{JailedFile, ReplacedFile, replace, cleanup}
use soperator.JailedConfig.Batch.Rollback.{OthersKept}
use soperator.JailedConfig.Batch.Undo.{cleanup_restores, Restored}
use soperator.JailedConfig.Batched.{with_cleanup, replace_files}
use soperator.JailedConfig.Batched.Written.{
  At-start, Fits-of_IsPlain, IsPlain, IsWritten, replace_files-IsWritten,
}
use soperator.JailedConfig.Payload.{ConfigMap, KeyToPath, make_payload}
use soperator.JailedConfig.Payload.Exact.{IsPayload, make_payload_exact}
use soperator.JailedConfig.Reconfigure.{
  SlurmApi, ApiNode, Response, get_nodes_start_time, poll, reconfigure_cluster,
}
use soperator.JailedConfig.Reconfigure.Restarted.{Awaited, reconfigure_cluster-Awaited}
use soperator.JailedConfig.Reconfigure.Returns.{poll_returns}
use soperator.JailedConfig.Reconcile.{find_config_map}
use soperator.JailedConfig.Reconcile.Aggregated.{write_aggregated}
use soperator.JailedConfig.Reconcile.Group.{names, OwnedBy}
use soperator.JailedConfig.Reconcile.Group.Written.{Owned}
use soperator.JailedConfig.Reconcile.Group.Whole.{GroupWritten}
use soperator.Exec.Runs.{Outcome}
use soperator.JailedConfig.Status.{Condition, Config, KubeClient}
use soperator.JailedConfig.Reconcile.{payload_of, process_config}
use soperator.JailedConfig.Tests.Memory.{World, files_of, memory, memory-IsFs, with_files, erase}
use soperator.JailedConfig.Tests.Cluster.{file, api, config_map, config, client, start}

-- Both files are written, and the node has restarted.
config_written :
    (process_config memory api client "slurm1" 1 config (some config_map) start).1 ≡ record {
      files =
          (codes "/etc/slurm.conf", record { content = codes "new"; mode = 384 })
          ∷ (codes "/etc/gres.conf", file "gpu")
          ∷ [];
      start = 6;
    }
unfolding process_config erase is_not_exist
config_written = refl

make_payload_exact_example :
    IsPayload config.items config_map 420 (make_payload config.items config_map 420)
unfolding contains
make_payload_exact_example = make_payload_exact config.items config_map 420 (refl, (refl, tt)) tt

reconfigure_cluster-Awaited_example : Awaited api 1 start
unfolding reconfigure_cluster
reconfigure_cluster-Awaited_example = reconfigure_cluster-Awaited api 1 start refl

-- A node that restarts before the third reading of the start times.
abbrev slow_api : SlurmApi World
slow_api = record {
  get_nodes = λ w. (
    ok (record {
      status = 200;
      errors = [];
      nodes =
          (record {
            name = "worker-0";
            states = "IDLE" ∷ [];
            start_infinite = false;
            start_set = true;
            start_number = w.start / 3;
          })
          ∷ [];
    }),
    record w { start = suc w.start },
  );
  get_reconfigure = λ w. (ok (record { status = 200; errors = []; nodes = [] }), w);
}

always_readable :
    (w : World) → (after : List (String × ℕ)) × ((get_nodes_start_time slow_api w).0 ≡ ok after)
unfolding get_nodes_start_time
always_readable w = (("worker-0", w.start / 3) ∷ [], refl)

poll_returns_example : (poll slow_api 2 (("worker-0", 1) ∷ []) start).0 ≡ ok tt
unfolding get_nodes_start_time
poll_returns_example =
    poll_returns slow_api always_readable 1 2 (("worker-0", 1) ∷ []) (("worker-0", 2) ∷ []) start
      (omega arith) refl (refl, tt)

abbrev payload : List (Bytes × JailedFile)
payload = (codes "/etc/slurm.conf", file "new") ∷ (codes "/etc/gres.conf", file "gpu") ∷ []

payload-IsPlain : IsPlain memory-IsFs start payload
unfolding contains
payload-IsPlain = ((refl, (refl, tt)), (refl, (refl, tt)))

-- The batch after both files were replaced.
abbrev replaced : World × List ReplacedFile
replaced = (
  record {
    files =
        (codes "/etc/slurm.conf", file "new")
        ∷ (codes "./etc/slurm.conf", file "old")
        ∷ (codes "/etc/gres.conf", file "gpu")
        ∷ [];
    start = 5;
  },
  (record { target_name = codes "/etc/slurm.conf"; temp_name = codes "./etc/slurm.conf" }) ∷ [],
)

replaced_lem : (replace_files memory payload (start, [])) ≡ (ok tt, replaced)
unfolding replace_files is_not_exist erase lookup put
replaced_lem = refl

cleanup_restores_example : Restored memory-IsFs start (cleanup memory replaced.1 replaced.0).1
cleanup_restores_example =
    cleanup_restores memory-IsFs start replaced.0 replaced.1
      (subst (λ r. IsWritten memory-IsFs start payload r.0 r.1) replaced_lem
        (replace_files-IsWritten memory-IsFs start [] payload (start, [])
          (Fits-of_IsPlain memory-IsFs start payload payload-IsPlain)
          (At-start memory-IsFs start))).0

-- A target that is replaced twice in a batch does not get its old file back: the cleanup undoes the
-- first replacement first.
twice :
    let again : List (Bytes × JailedFile) = (codes "/etc/slurm.conf", file "newer") ∷ [] in
    let t = (replace_files memory again (replace_files memory again (start, [])).1).1 in
    lookup (cleanup memory t.1 t.0).1.files (codes "/etc/slurm.conf") ≡ some (file "newer")
unfolding replace_files cleanup lookup put erase is_not_exist
twice = refl
