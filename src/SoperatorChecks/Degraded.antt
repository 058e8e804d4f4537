-- ===== src/SoperatorChecks/Degraded.antt =====
-- Which drained Slurm nodes the controller acts on
-- (internal/controller/soperatorchecks/slurm_nodes_controller.go, internal/consts/slurm.go).
pub mod Exact
use soperator.Text.{contains_text, has_prefix}
use soperator.Prelude.{
  Bool, true, false, not, ◌||◌, Option, none, some, List, [], ◌∷◌, Bytes, codes, contains,
  comparable_string, if◌then◌else◌,
}
use soperator.Exec.{Exec, pure, ◌>>=◌}
use soperator.SoperatorChecks.{Client, ClusterName, SlurmNode, NodeReason}

-- `SlurmNodeReasonsList`
abbrev pub slurm_node_reasons_list : List Bytes
slurm_node_reasons_list =
    codes "Kill task failed"
    ∷ codes "[compute_maintenance] node replacement process"
    ∷ codes "[compute_maintenance] node reboot process"
    ∷ codes "[node_problem]"
    ∷ codes "[user_problem]"
    ∷ codes "[hardware_problem]"
    ∷ []

-- The first text of the list that the reason contains.
unfoldable pub well_known_reason : List Bytes → Bytes → Option Bytes
unfolding contains_text
well_known_reason [] reason = none
well_known_reason (known ∷ list) reason =
    let rest = well_known_reason list reason in
    if contains_text reason known then some known else rest

-- Only the well known part is kept.
abbrev pub relabelled : SlurmNode → NodeReason → Bytes → SlurmNode
relabelled node reason known = record node {
  reason =
      some (record {
        reason = known;
        original_reason = reason.reason;
        changed_at = reason.changed_at;
      });
}

abbrev pub relabel : SlurmNode → NodeReason → Option Bytes → Option SlurmNode
relabel node reason none = none
relabel node reason (some known) = some (relabelled node reason known)

unfoldable pub by_reason : SlurmNode → Option NodeReason → Option SlurmNode
unfolding well_known_reason
by_reason node none = none
by_reason node (some reason) =
    relabel node reason (well_known_reason slurm_node_reasons_list reason.reason)

-- One round of the loop over the nodes of a cluster.
unfoldable pub degraded_node : SlurmNode → Option SlurmNode
unfolding contains by_reason
degraded_node node = if not (contains node.states "DRAIN") then none else by_reason node node.reason

abbrev pub cons_some : Option SlurmNode → List SlurmNode → List SlurmNode
cons_some none nodes = nodes
cons_some (some node) nodes = node ∷ nodes

unfoldable pub degraded_nodes : List SlurmNode → List SlurmNode
unfolding degraded_node
degraded_nodes [] = []
degraded_nodes (node ∷ nodes) = cons_some (degraded_node node) (degraded_nodes nodes)

-- A cluster gets an entry with its first degraded node.
abbrev pub with_entry :
    ClusterName
    → List SlurmNode
    → List (ClusterName × List SlurmNode)
    → List (ClusterName × List SlurmNode)
with_entry cluster [] found = found
with_entry cluster (node ∷ nodes) found = (cluster, node ∷ nodes) ∷ found

-- The loop over the clusters: the first error ends it.
unfoldable pub find_degraded_nodes :
    {S : Type 0} → Client S → List ClusterName → Exec S (List (ClusterName × List SlurmNode))
unfolding degraded_nodes
find_degraded_nodes client [] = pure []
find_degraded_nodes client (cluster ∷ clusters) = do
  nodes ← client.list_slurm_nodes cluster
  found ← find_degraded_nodes client clusters
  pure (with_entry cluster (degraded_nodes nodes) found)
