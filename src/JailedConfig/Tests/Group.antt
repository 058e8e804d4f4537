-- ===== src/JailedConfig/Tests/Group.antt =====
-- The configs of one aggregation key, written on a file system in memory.
use soperator.Prelude.{
  comparable_string, comparable_bytes, ◌==◌, if◌then◌else◌, codes, none, some, List, [], ◌∷◌, Bytes,
  String,
}
use soperator.JailedConfig.Batch.{JailedFile}
use soperator.JailedConfig.Status.{Config}
use soperator.JailedConfig.Tests.Cluster.{file, config}

-- Two configs of one aggregation key, with a file each.
abbrev group_member : String → String → Config
group_member name path = record config {
  name = name;
  aggregation_key = some "slurm";
  items = (record { key = codes "slurm.conf"; path = codes path; mode = none }) ∷ [];
  update_actions = [];
}

abbrev owner : Bytes → String
owner path = if path == codes "/etc/slurm.conf" then "slurm" else "gres"

-- The payload of a member is the one file that it has.
abbrev member_payload : String → List (Bytes × JailedFile)
member_payload path = (codes path, file "new") ∷ []

abbrev members : List Config
members = group_member "slurm" "/etc/slurm.conf" ∷ group_member "gres" "/etc/gres.conf" ∷ []
