-- ===== src/ActiveChecks/React/Posted.antt =====
-- What a reaction without an error has done.
use soperator.Prelude.{
  ap, ◌≡◌, refl, ◌∙◌, true, ◌||◌, Option, none, some, List, [], ◌∷◌, String, Bytes, All, arith,
  if◌then◌else◌,
}
use soperator.Exec.{wrapped, lifted, ok, Exec}
use soperator.Exec.Runs.{bind_ok, wrapped_ok, lifted_ok}
use soperator.SoperatorChecks.{ClusterName}
use soperator.ActiveChecks.NodeNames.{get_node_list}
use soperator.ActiveChecks.{SlurmJob, Reactions, Client}
use soperator.ActiveChecks.React.{
  is_on, prefixed, failure_message, check_update, update_node, update_nodes,
  update_slurm_node_with_reactions, execute_reactions,
}

body_is_empty :
    {S : Type 0} (body : Option (List String)) (s : S)
    → (check_update body s).0 ≡ ok tt
    → body ≡ some []
body_is_empty none s e = absurd (ground (arith, e))
body_is_empty (some []) s e = refl
body_is_empty (some (x ∷ errors)) s e = absurd (ground (arith, e))

module _ {S : Type 0} (client : Client S) (cluster : ClusterName) where
  -- The node was updated, and the response had no errors.
  abbrev pub Updated : Reactions → Bytes → Bytes → Type 0
  Updated reactions text node =
      (s : S) × ((client.post_node cluster node (prefixed reactions.drain_reason_prefix text)
          (if is_on reactions.drain_reason_prefix then some "DRAIN" else none)
          (prefixed reactions.comment_prefix text) s).0
        ≡ ok (some []))

  update_node-Updated :
      (reactions : Reactions) (text node : Bytes) (s : S)
      → (update_node client cluster reactions text node s).0 ≡ ok tt
      → Updated reactions text node
  unfolding update_node
  update_node-Updated reactions text node s e =
      let post =
        client.post_node cluster node (prefixed reactions.drain_reason_prefix text)
          (if is_on reactions.drain_reason_prefix then some "DRAIN" else none)
          (prefixed reactions.comment_prefix text) in
      let (body, sent, checked) =
        bind_ok (wrapped "post update slurm node" post) check_update s tt e in
      let empty = body_is_empty body (post s).1 checked in
      (s, wrapped_ok "post update slurm node" post s (some []) (sent ∙ ap ok empty))

  update_nodes-All :
      (reactions : Reactions) (text : Bytes) (nodes : List Bytes) (s : S)
      → (update_nodes client cluster reactions text nodes s).0 ≡ ok tt
      → All (Updated reactions text) nodes
  unfolding update_nodes
  update_nodes-All reactions text [] s e = tt
  update_nodes-All reactions text (node ∷ nodes) s e =
      let first = update_node client cluster reactions text node in
      let (u, done, rest) =
        bind_ok first (λ v. update_nodes client cluster reactions text nodes) s tt e in
      (
        update_node-Updated reactions text node s done,
        update_nodes-All reactions text nodes (first s).1 rest,
      )

  -- If the reactions to a job are carried out without an error and one of them is on, the node list
  -- of the job was read, and each of its nodes was updated, with the drain and the comment that are
  -- on, and answered without errors.
  pub execute_reactions-All :
      (job : SlurmJob) (check_name : Bytes) (reactions : Reactions) (s : S)
      → (is_on reactions.drain_reason_prefix || is_on reactions.comment_prefix) ≡ true
      → (execute_reactions client cluster job check_name (some reactions) s).0 ≡ ok tt
      → (nodes : List Bytes) × (get_node_list job.nodes ≡ ok nodes)
        × All (Updated reactions (failure_message check_name job.id)) nodes
  unfolding execute_reactions update_slurm_node_with_reactions
  execute_reactions-All job check_name reactions s on e =
      let text = failure_message check_name job.id in
      let m = update_slurm_node_with_reactions client cluster job check_name reactions in
      let e1 = wrapped_ok "update slurm node with reaction" m s tt (rw on at e) in
      let listed : Exec S (List Bytes) =
        wrapped "get node list" (lifted (get_node_list job.nodes)) in
      let (nodes, read, rest) =
        bind_ok listed (update_nodes client cluster reactions text) s tt e1 in
      (
        nodes,
        lifted_ok (get_node_list job.nodes) s nodes
            (wrapped_ok "get node list" (lifted (get_node_list job.nodes)) s nodes read),
        update_nodes-All reactions text nodes (listed s).1 rest,
      )
