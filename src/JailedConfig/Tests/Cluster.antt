-- ===== src/JailedConfig/Tests/Cluster.antt =====
-- A cluster of one node with a ConfigMap and a JailedConfig for it.
use soperator.Prelude.{
  comparable_string, comparable_bytes, suc, codes, true, false, Option, none, some, List, [], ◌∷◌,
  String,
}
use soperator.Exec.{ok}
use soperator.JailedConfig.Batch.{JailedFile}
use soperator.JailedConfig.Payload.{ConfigMap}
use soperator.JailedConfig.Reconfigure.{SlurmApi}
use soperator.JailedConfig.Status.{Condition, Config, KubeClient}
use soperator.JailedConfig.Tests.Memory.{World}

abbrev pub file : String → JailedFile
file text = record { content = codes text; mode = 420 }

-- One node, which restarts at once when it is told to reconfigure.
abbrev pub api : SlurmApi World
api = record {
  get_nodes = λ w. (
    ok (record {
      status = 200;
      errors = [];
      nodes =
          (record {
            name = "worker-0";
            states = "IDLE" ∷ [];
            start_infinite = false;
            start_set = true;
            start_number = w.start;
          })
          ∷ [];
    }),
    w,
  );
  get_reconfigure = λ w.
      (ok (record { status = 200; errors = []; nodes = [] }), record w { start = suc w.start });
}

abbrev find_kind : List Condition → String → Option Condition
find_kind [] kind = none
find_kind (cond ∷ conds) kind = some cond

abbrev pub config_map : ConfigMap
config_map = record {
  text_data = (codes "slurm.conf", codes "new") ∷ (codes "gres.conf", codes "gpu") ∷ [];
  binary_data = [];
}

abbrev pub config : Config
config = record {
  namespace = "soperator";
  name = "slurm";
  instance_label = "slurm1";
  aggregation_key = none;
  config_map = "slurm-config";
  items =
      (record { key = codes "slurm.conf"; path = codes "/etc/slurm.conf"; mode = some 384 })
      ∷ (record { key = codes "gres.conf"; path = codes "/etc/gres.conf"; mode = none })
      ∷ [];
  default_mode = none;
  update_actions = "Reconfigure" ∷ [];
  conditions = [];
}

abbrev pub client : KubeClient World
client = record {
  get_config = λ ns n w. (ok config, w);
  get_config_map = λ ns n w. (ok config_map, w);
  list_configs = λ ns key cluster w. (ok (config ∷ []), w);
  patch_status = λ base obj w. (ok obj, w);
  find_status_condition = find_kind;
  set_status_condition = λ conds cond. cond ∷ conds;
}

abbrev pub start : World
start = record { files = (codes "/etc/slurm.conf", file "old") ∷ []; start = 5 }
