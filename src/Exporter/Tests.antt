-- ===== src/Exporter/Tests.antt =====
-- Two overlapping refreshes of the jobs, a node that goes down and comes back, and the properties at
-- concrete inputs.
use soperator.Prelude.{
  ◌*◌, ◌<◌, ◌≡◌, ◌↔◌, refl, inl, pos, none, List, [], ◌∷◌, ◌++◌, String, codes, comparable_string,
  contains, arith, delete, comparable_nat,
}
use soperator.Exec.{ok, err, message}
use soperator.Exporter.{MetricNode}
use soperator.Exporter.Tres.{bound, parse_int64, parse_memory_value, parse_trackable_resources}
use soperator.Exporter.Tres.Memory.{parse_memory_value_exact}
use soperator.Exporter.Nodes.{is_node_unavailable, is_node_draining, node_fail}
use soperator.Exporter.Collector.{Collector, Event, nodes_done, jobs_done, handle, run}
use soperator.Exporter.Open.{Observes, run-Observes}
use soperator.Exporter.Newest.{
  IsNewest, answers, nodes_answer, jobs_answer, diag_answer, topology_answer, nodes_view, jobs_view,
  diag_view, topology_view,
}
use soperator.Exporter.Newest.Views.{run-IsNewest}
use soperator.Exporter.Inflight.{
  SubRuns, Reach, here, next, tick, end_of, IsWithin, Reach-IsWithin, try_start, finish,
}

abbrev node : String → List String → MetricNode
node name states = record { name = name; states = states; reason = none; tres = codes "gres/gpu=8" }

abbrev empty : Collector String String String
empty = record {
  last_gpu_seconds_update = 0;
  nodes = [];
  nodes_sequence = 0;
  jobs = [];
  jobs_sequence = 0;
  diag = none;
  diag_sequence = 0;
  topologies = [];
  topology_sequence = 0;
  unavailability = record { starts = []; observed = [] };
  draining = record { starts = []; observed = [] };
  node_fails = [];
  gpu_seconds = [];
}

-- The second fetch of the jobs ends first.
abbrev events : List (Event String String String)
events =
    nodes_done 1 (ok (node "worker-0" ("IDLE" ∷ []) ∷ node "worker-1" ("DOWN" ∷ []) ∷ [])) 10 10
    ∷ jobs_done 2 (ok ("job-2" ∷ []))
    ∷ nodes_done 2 (ok (node "worker-0" ("DOWN" ∷ []) ∷ node "worker-1" ("DOWN" ∷ []) ∷ [])) 20 20
    ∷ jobs_done 1 (ok ("job-1" ∷ []))
    ∷ nodes_done 3 (err (message "get nodes from SLURM API")) 30 30
    ∷ []

abbrev later_nodes : List MetricNode
later_nodes = node "worker-0" ("IDLE" ∷ []) ∷ node "worker-1" ("IDLE" ∷ []) ∷ []

newest_jobs : (run events empty).jobs ≡ "job-2" ∷ []
unfolding run
newest_jobs = refl

durations :
    (run (events ++ nodes_done 4 (ok later_nodes) 50 50 ∷ []) empty).unavailability.observed
    ≡ ("worker-0", 30) ∷ ("worker-1", 40) ∷ []
unfolding run
durations = refl

one_failure : (run events empty).node_fails ≡ node_fail (node "worker-0" ("DOWN" ∷ [])) ∷ []
unfolding run
one_failure = refl

resources :
    parse_trackable_resources (codes "cpu=16,mem=4G,billing=16,gres/gpu=1")
    ≡ ok (record { cpu_count = pos 16; memory_bytes = pos 4294967296; gpu_count = pos 1 })
unfolding parse_trackable_resources
resources = refl

run-Observes_example :
    Observes is_node_unavailable
      (run events empty).nodes
      50
      later_nodes
      (run events empty).unavailability
      (handle (nodes_done 4 (ok later_nodes) 50 50) (run events empty)).unavailability
    × Observes is_node_draining
        (run events empty).nodes
        50
        later_nodes
        (run events empty).draining
        (handle (nodes_done 4 (ok later_nodes) 50 50) (run events empty)).draining
unfolding run contains
run-Observes_example =
    run-Observes events empty 4 later_nodes 50 50
      ((refl, (refl, tt)), (tt, ((refl, (refl, tt)), (tt, (tt, tt))))) (tt, tt) (refl, (refl, tt))
      refl

run-IsNewest_example :
    IsNewest (nodes_view empty ∷ answers nodes_answer events) (nodes_view (run events empty))
    × IsNewest (jobs_view empty ∷ answers jobs_answer events) (jobs_view (run events empty))
    × IsNewest (diag_view empty ∷ answers diag_answer events) (diag_view (run events empty))
    × IsNewest
        (topology_view empty ∷ answers topology_answer events)
        (topology_view (run events empty))
run-IsNewest_example = run-IsNewest events empty (
  λ e. absurd (omega (arith, e)),
  (
    λ e. absurd (omega (arith, e)),
    (
      λ e. absurd (omega (arith, e)),
      (λ e. absurd (omega (arith, e)), (λ e. absurd (omega (arith, e)), tt)),
    ),
  ),
)

abbrev idle : SubRuns
idle = record { collector = record { inflight = 0; sequence = 0 }; running = [] }

abbrev busy : SubRuns
busy = record { collector = record { inflight = 1; sequence = 1 }; running = 1 ∷ [] }

-- The first run ends before a second one starts.
abbrev again : SubRuns
again = record { collector = record { inflight = 1; sequence = 2 }; running = 2 ∷ [] }

reached : Reach 1 idle again
unfolding try_start finish delete
reached = next (next (next here (tick refl)) (end_of 1 (inl refl) refl)) (tick refl)

idle-IsWithin : IsWithin 1 idle
idle-IsWithin = record { counted = refl; bounded = omega arith; numbered = tt; distinct = tt }

Reach-IsWithin_example : IsWithin 1 again
Reach-IsWithin_example = Reach-IsWithin 1 idle again idle-IsWithin reached

parse_memory_value_exact_example :
    (parse_memory_value (codes "191356" ++ b'M' ∷ []) ≡ ok (pos (191356 * 1048576)))
    ↔ (191356 * 1048576 < bound)
unfolding parse_int64
parse_memory_value_exact_example =
    parse_memory_value_exact (codes "191356") b'M' 191356 1048576 refl refl refl
