-- ===== src/ActiveChecks/React.antt =====
-- The reactions to a finished job of an active check
-- (internal/controller/soperatorchecks/activecheck_jobs_controller.go).
pub mod Posted
use soperator.Prelude.{
  ℕ, suc, Bool, true, false, ◌||◌, Option, none, some, List, [], ◌∷◌, ◌++◌, String, Bytes, codes,
  if◌then◌else◌,
}
use soperator.Exec.{message, panicked, Result, Exec, pure, raise, wrapped, lifted, ◌>>=◌, ◌>>◌}
use soperator.Text.{digits}
use soperator.SoperatorChecks.{ClusterName}
use soperator.ActiveChecks.NodeNames.{get_node_list}
use soperator.ActiveChecks.{SlurmJob, Reactions, ActiveCheck, Client}

-- `fmt.Sprint` of an ID.
unfoldable pub id_text : ℕ → Bytes
unfolding digits
id_text id = digits (suc id) id

-- A reaction is on if it is set with a prefix.
abbrev pub is_on : Option Bytes → Bool
is_on none = false
is_on (some []) = false
is_on (some (c ∷ prefix)) = true

abbrev pub prefixed : Option Bytes → Bytes → Option Bytes
prefixed none text = none
prefixed (some []) text = none
prefixed (some (c ∷ prefix)) text = some ((c ∷ prefix) ++ b' ' ∷ text)

unfoldable pub failure_message : Bytes → ℕ → Bytes
unfolding id_text
failure_message check_name id = check_name ++ codes ": job " ++ id_text id ++ codes " [slurm_job]"

-- `resp.JSON200.Errors`: without a body the code dereferences nil.
abbrev pub check_update : {S : Type 0} → Option (List String) → Exec S (Unit {0})
check_update none = raise panicked
check_update (some []) = pure tt
check_update (some (e ∷ errors)) = raise (message "post update returned errors")

module _ {S : Type 0} (client : Client S) (cluster : ClusterName) where
  unfoldable pub update_node : Reactions → Bytes → Bytes → Exec S (Unit {0})
  update_node reactions text node = do
    body ← wrapped "post update slurm node" (
        client.post_node cluster node (prefixed reactions.drain_reason_prefix text)
          (if is_on reactions.drain_reason_prefix then some "DRAIN" else none)
          (prefixed reactions.comment_prefix text))
    check_update body

  unfoldable pub update_nodes : Reactions → Bytes → List Bytes → Exec S (Unit {0})
  unfolding update_node
  update_nodes reactions text [] = pure tt
  update_nodes reactions text (node ∷ nodes) = do
    update_node reactions text node
    update_nodes reactions text nodes

  unfoldable pub update_slurm_node_with_reactions : SlurmJob → Bytes → Reactions → Exec S (Unit {0})
  unfolding update_nodes failure_message get_node_list
  update_slurm_node_with_reactions job check_name reactions = do
    nodes ← wrapped "get node list" (lifted (get_node_list job.nodes))
    update_nodes reactions (failure_message check_name job.id) nodes

  unfoldable pub execute_reactions : SlurmJob → Bytes → Option Reactions → Exec S (Unit {0})
  unfolding update_slurm_node_with_reactions
  execute_reactions job check_name none = pure tt
  execute_reactions job check_name (some reactions) =
      if is_on reactions.drain_reason_prefix || is_on reactions.comment_prefix
      then wrapped "update slurm node with reaction"
          (update_slurm_node_with_reactions job check_name reactions)
      else pure tt
