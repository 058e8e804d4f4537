-- ===== src/Exporter/Newest/Views.antt =====
-- The four values that the refreshes store, each with its number.
use soperator.Prelude.{◌≡◌, refl, some, List, ◌∷◌, All}
use soperator.Exec.{ok, err}
use soperator.Exporter.Collector.{
  Collector, Event, nodes_done, jobs_done, diag_done, topology_done, is_late, handle, run,
}
use soperator.Exporter.Newest.{
  IsNewest, stored_or, answers, HasSequence, nodes_answer, jobs_answer, diag_answer,
  topology_answer, nodes_view, jobs_view, diag_view, topology_view, view-IsNewest, by_lateness,
  unless_late,
}

module _ {Job Diag Topology : Type 0} where
  nodes_step :
      (e : Event Job Diag Topology) (c : Collector Job Diag Topology)
      → HasSequence e
      → nodes_view (handle e c) ≡ stored_or (nodes_answer e) (nodes_view c)
  unfolding handle
  nodes_step (nodes_done sequence (err x) now later) c h = refl
  nodes_step (nodes_done sequence (ok nodes) now later) c h =
      by_lateness sequence c.nodes_sequence nodes c.nodes nodes_view c _ h refl refl
  nodes_step (jobs_done sequence (err x)) c h = refl
  nodes_step (jobs_done sequence (ok jobs)) c h =
      unless_late (is_late sequence c.jobs_sequence) nodes_view c _ refl
  nodes_step (diag_done sequence (err x)) c h = refl
  nodes_step (diag_done sequence (ok diag)) c h =
      unless_late (is_late sequence c.diag_sequence) nodes_view c _ refl
  nodes_step (topology_done sequence (err x)) c h = refl
  nodes_step (topology_done sequence (ok topologies)) c h =
      unless_late (is_late sequence c.topology_sequence) nodes_view c _ refl

  jobs_step :
      (e : Event Job Diag Topology) (c : Collector Job Diag Topology)
      → HasSequence e
      → jobs_view (handle e c) ≡ stored_or (jobs_answer e) (jobs_view c)
  unfolding handle
  jobs_step (nodes_done sequence (err x) now later) c h = refl
  jobs_step (nodes_done sequence (ok nodes) now later) c h =
      unless_late (is_late sequence c.nodes_sequence) jobs_view c _ refl
  jobs_step (jobs_done sequence (err x)) c h = refl
  jobs_step (jobs_done sequence (ok jobs)) c h =
      by_lateness sequence c.jobs_sequence jobs c.jobs jobs_view c _ h refl refl
  jobs_step (diag_done sequence (err x)) c h = refl
  jobs_step (diag_done sequence (ok diag)) c h =
      unless_late (is_late sequence c.diag_sequence) jobs_view c _ refl
  jobs_step (topology_done sequence (err x)) c h = refl
  jobs_step (topology_done sequence (ok topologies)) c h =
      unless_late (is_late sequence c.topology_sequence) jobs_view c _ refl

  diag_step :
      (e : Event Job Diag Topology) (c : Collector Job Diag Topology)
      → HasSequence e
      → diag_view (handle e c) ≡ stored_or (diag_answer e) (diag_view c)
  unfolding handle
  diag_step (nodes_done sequence (err x) now later) c h = refl
  diag_step (nodes_done sequence (ok nodes) now later) c h =
      unless_late (is_late sequence c.nodes_sequence) diag_view c _ refl
  diag_step (jobs_done sequence (err x)) c h = refl
  diag_step (jobs_done sequence (ok jobs)) c h =
      unless_late (is_late sequence c.jobs_sequence) diag_view c _ refl
  diag_step (diag_done sequence (err x)) c h = refl
  diag_step (diag_done sequence (ok diag)) c h =
      by_lateness sequence c.diag_sequence (some diag) c.diag diag_view c _ h refl refl
  diag_step (topology_done sequence (err x)) c h = refl
  diag_step (topology_done sequence (ok topologies)) c h =
      unless_late (is_late sequence c.topology_sequence) diag_view c _ refl

  topology_step :
      (e : Event Job Diag Topology) (c : Collector Job Diag Topology)
      → HasSequence e
      → topology_view (handle e c) ≡ stored_or (topology_answer e) (topology_view c)
  unfolding handle
  topology_step (nodes_done sequence (err x) now later) c h = refl
  topology_step (nodes_done sequence (ok nodes) now later) c h =
      unless_late (is_late sequence c.nodes_sequence) topology_view c _ refl
  topology_step (jobs_done sequence (err x)) c h = refl
  topology_step (jobs_done sequence (ok jobs)) c h =
      unless_late (is_late sequence c.jobs_sequence) topology_view c _ refl
  topology_step (diag_done sequence (err x)) c h = refl
  topology_step (diag_done sequence (ok diag)) c h =
      unless_late (is_late sequence c.diag_sequence) topology_view c _ refl
  topology_step (topology_done sequence (err x)) c h = refl
  topology_step (topology_done sequence (ok topologies)) c h =
      by_lateness sequence c.topology_sequence topologies c.topologies topology_view c _ h refl refl

  -- After any refreshes with sequence numbers, in any order of their ends, the nodes, the jobs, the
  -- diagnostics and the topologies are each, with their number, those of the start or of a refresh
  -- that succeeded, and no refresh of that kind that succeeded has a larger number.
  pub run-IsNewest :
      (events : List (Event Job Diag Topology)) (c : Collector Job Diag Topology)
      → All HasSequence events
      → IsNewest (nodes_view c ∷ answers nodes_answer events) (nodes_view (run events c))
        × IsNewest (jobs_view c ∷ answers jobs_answer events) (jobs_view (run events c))
        × IsNewest (diag_view c ∷ answers diag_answer events) (diag_view (run events c))
        × IsNewest (topology_view c ∷ answers topology_answer events) (topology_view (run events c))
  run-IsNewest events c h = (
    view-IsNewest nodes_view nodes_answer nodes_step events c h,
    view-IsNewest jobs_view jobs_answer jobs_step events c h,
    view-IsNewest diag_view diag_answer diag_step events c h,
    view-IsNewest topology_view topology_answer topology_step events c h,
  )
