-- ===== src/SoperatorChecks/Drain/Safety.antt =====
-- A condition that follows a drain is written only once the Slurm nodes are drained.
use soperator.Prelude.{
  ◌≡◌, refl, ◌⊎◌, inl, inr, Bool, true, false, not, List, [], ◌∷◌, String, Option, none, some, All,
  Bool-cases, if◌then◌else◌, arith,
}
use soperator.Exec.{
  collected, unless_panicked, join_errors, Err, ok, Exec, pure, raise, attempt, wrapped,
}
use soperator.Exec.Runs.{
  Outcome-weaken, Runs, Runs-pure, Runs-raise, Runs-wrapped, Runs-if, Runs-weaken, Runs-bind,
  Outcome-by_cases,
}
use soperator.Exec.Keeps.{Keeps, Outcome-same, Outcome-always, Keeps-attempt, Keeps-unless_panicked}
use soperator.K8s.{NodeCondition}
use soperator.SoperatorChecks.{Client, ClusterName, SlurmNode, WorkerPod}
use soperator.SoperatorChecks.Conditions.{set_k8s_node_condition}
use soperator.SoperatorChecks.Drain.{
  cluster_of, check_response, post_state, drain_slurm_node, drain_pods, drain_slurm_nodes,
  get_slurm_node, is_fully_drained, pods_fully_drained, slurm_nodes_fully_drained, update_if,
  drain_slurm_nodes_with_condition_update,
}

-- The value was read at some moment.
abbrev pub Read : {S A : Type 0} → Exec S A → A → Type 0
Read {S} m a = (s : S) × ((m s).0 ≡ ok a)

pub Runs-Read :
    {S A : Type 0} (U : S → Type 0) (m : Exec S A) → Keeps U m → Runs U m (λ a s. U s × Read m a) U
Runs-Read U m h = record {
  at = λ s p.
      let u = Outcome-same U (m s).0 (m s).1 (h.at s p) in
      Outcome-by_cases (λ a t. U t × Read m a) U (m s).0 (m s).1 (λ a e. (u, (s, e))) (λ e eq. u);
}

-- A guard that reads the state.
Keeps-guard :
    {S A : Type 0} (U : S → Type 0) (b : S → Bool) (e : Err) (m : Exec S A)
    → Keeps U m
    → Keeps U (λ s. if b s then raise e s else m s)
Keeps-guard U b e m h = record {
  at = λ s p. elim (Bool-cases (b s)) [ inl stop ↦ rw stop p | inr go ↦ rw go (h.at s p) ];
}

module _ {S : Type 0} (client : Client S) where
  -- The Slurm node of the pod was fully drained at a moment when it was read.
  abbrev pub SeenDrained : WorkerPod → Type 0
  SeenDrained pod =
      (node : SlurmNode) × (is_fully_drained node ≡ true)
      × Read (get_slurm_node client (cluster_of pod) pod.name) node

  -- A list of the worker pods of the node was read, and the Slurm node of each of them was fully
  -- drained when it was read.
  abbrev pub AllDrained : String → Type 0
  AllDrained name =
      (pods : List WorkerPod) × Read (client.list_worker_pods name) pods × All SeenDrained pods

module _ {S : Type 0} (client : Client S) (U : S → Type 0)
    (list_keeps : (n : String) → Keeps U (client.list_worker_pods n))
    (post_keeps : (c : ClusterName) (n : String) (r : Option String) (st : String)
      → Keeps U (client.post_node c n r st))
    (get_keeps : (c : ClusterName) (n : String) → Keeps U (client.get_slurm_node c n)) where
  check_response-Keeps :
      (what : String) (body : Option (List String)) → Keeps U (check_response what body)
  check_response-Keeps what none = Runs-raise _ (λ s u. u)
  check_response-Keeps what (some []) = Runs-pure tt (λ s u. u)
  check_response-Keeps what (some (e ∷ es)) = Runs-raise _ (λ s u. u)

  pub post_state-Keeps :
      (failed returned : String) (c : ClusterName) (n : String) (reason : Option String)
      (state : String)
      → Keeps U (post_state client failed returned c n reason state)
  unfolding post_state
  post_state-Keeps failed returned c n reason state =
      Keeps-guard U (λ s. not (client.has_cluster c s)) _ _
        (Runs-bind (wrapped failed (client.post_node c n reason state)) _
          (Runs-wrapped _ (client.post_node c n reason state) (post_keeps c n reason state))
          (check_response-Keeps returned))

  drain_slurm_node-Keeps :
      (c : ClusterName) (n reason : String) → Keeps U (drain_slurm_node client c n reason)
  unfolding drain_slurm_node
  drain_slurm_node-Keeps c n reason =
      post_state-Keeps "post drain slurm node" "post drain returned errors" c n (some reason)
        "DRAIN"

  drain_pods-Keeps :
      (reason : String) (pods : List WorkerPod) → Keeps U (drain_pods client reason pods)
  unfolding drain_pods
  drain_pods-Keeps reason [] = Runs-pure [] (λ s u. u)
  drain_pods-Keeps reason (pod ∷ pods) =
      Runs-bind (attempt (drain_slurm_node client (cluster_of pod) pod.name reason)) _
        (Keeps-attempt U (drain_slurm_node client (cluster_of pod) pod.name reason)
          (drain_slurm_node-Keeps (cluster_of pod) pod.name reason))
        (λ tried. Runs-bind (unless_panicked tried) _ (Keeps-unless_panicked U tried) (λ r.
          Runs-bind (drain_pods client reason pods) _ (drain_pods-Keeps reason pods)
            (λ rest. Runs-pure (collected r rest) (λ s u. u))))

  join_errors-Keeps : (errs : List Err) → Keeps U (join_errors errs)
  join_errors-Keeps [] = Runs-pure tt (λ s u. u)
  join_errors-Keeps (e ∷ errs) = Runs-raise _ (λ s u. u)

  drain_slurm_nodes-Keeps : (n reason : String) → Keeps U (drain_slurm_nodes client n reason)
  unfolding drain_slurm_nodes
  drain_slurm_nodes-Keeps n reason =
      Runs-bind (wrapped "list pods on node" (client.list_worker_pods n)) _
        (Runs-wrapped _ (client.list_worker_pods n) (list_keeps n))
        (λ pods.
          Runs-bind (drain_pods client reason pods) _ (drain_pods-Keeps reason pods)
            join_errors-Keeps)

  get_slurm_node-Keeps : (c : ClusterName) (n : String) → Keeps U (get_slurm_node client c n)
  unfolding get_slurm_node
  get_slurm_node-Keeps c n =
      Keeps-guard U (λ s. not (client.has_cluster c s)) _ _
        (Runs-wrapped "get node" (client.get_slurm_node c n) (get_keeps c n))

  pods_fully_drained-SeenDrained :
      (pods : List WorkerPod)
      → Runs U
          (pods_fully_drained client pods)
          (λ b s. U s × (b ≡ true → All (SeenDrained client) pods))
          U
  unfolding pods_fully_drained
  pods_fully_drained-SeenDrained [] = Runs-pure true (λ s u. (u, λ e. tt))
  pods_fully_drained-SeenDrained (pod ∷ pods) =
      let read = get_slurm_node client (cluster_of pod) pod.name in
      let rest = pods_fully_drained client pods in
      Runs-bind read _ (Runs-Read U read (get_slurm_node-Keeps (cluster_of pod) pod.name)) λ node.
        Runs-if (not (is_fully_drained node)) (pure false) rest
          (λ busy. Runs-pure false (λ s u. (u.0, λ e. absurd (ground (arith, e)))))
          (λ idle. record {
            at = λ s u.
                Outcome-weaken _ _ U U
                  (λ b t q. (q.0, λ e. ((node, (ground (arith, idle)), u.1), q.1 e))) (λ t q. q)
                  (rest s).0 (rest s).1 ((pods_fully_drained-SeenDrained pods).at s u.0);
          })

  pub slurm_nodes_fully_drained-AllDrained :
      (name : String)
      → Runs U
          (slurm_nodes_fully_drained client name)
          (λ b s. U s × (b ≡ true → AllDrained client name))
          U
  unfolding slurm_nodes_fully_drained
  slurm_nodes_fully_drained-AllDrained name =
      let list = client.list_worker_pods name in
      Runs-bind (wrapped "list pods on node" list) (pods_fully_drained client)
        (Runs-wrapped "list pods on node" list (Runs-Read U list (list_keeps name)))
        λ pods. record {
          at = λ s u.
              Outcome-weaken _ _ U U (λ b t q. (q.0, λ e. (pods, u.1, q.1 e))) (λ t q. q)
                (pods_fully_drained client pods s).0 (pods_fully_drained client pods s).1
                ((pods_fully_drained-SeenDrained pods).at s u.0);
        }

  update_if-Safe :
      (b : Bool) (name : String) (condition : NodeCondition)
      → Runs
          (λ s. U s × (b ≡ true → AllDrained client name))
          (update_if client b name condition)
          (λ a s. U s ⊎ AllDrained client name)
          (λ s. U s ⊎ AllDrained client name)
  update_if-Safe false name condition = Runs-pure tt (λ s u. inl u.0)
  update_if-Safe true name condition = record {
    at = λ s u.
        let m = wrapped "set k8s node condition" (set_k8s_node_condition client name condition) in
        Outcome-weaken (λ a t. AllDrained client name) _ (λ t. AllDrained client name) _
          (λ a t d. inr d) (λ t d. inr d) (m s).0 (m s).1
          (Outcome-always (AllDrained client name) (m s).0 (m s).1 (u.1 refl));
  }

  -- What holds of the state and is left alone by listing pods, by posting to Slurm and by reading
  -- Slurm nodes still holds after a drain, however it ends, unless every worker pod of the node
  -- had its Slurm node seen fully drained.
  pub drain_slurm_nodes_with_condition_update_safe :
      (name reason : String) (condition : NodeCondition)
      → Runs U
          (drain_slurm_nodes_with_condition_update client name reason condition)
          (λ a s. U s ⊎ AllDrained client name)
          (λ s. U s ⊎ AllDrained client name)
  unfolding drain_slurm_nodes_with_condition_update
  drain_slurm_nodes_with_condition_update_safe name reason condition =
      let post = wrapped "drain slurm nodes" (drain_slurm_nodes client name reason) in
      let check =
        wrapped "check that nodes are fully drained" (slurm_nodes_fully_drained client name) in
      Runs-bind post _
        (Runs-weaken post
          (Runs-wrapped _ (drain_slurm_nodes client name reason)
            (drain_slurm_nodes-Keeps name reason))
          (λ s u. u) (λ a s u. u) (λ s u. inl u))
        λ done.
          Runs-bind check _
            (Runs-weaken check
              (Runs-wrapped _ (slurm_nodes_fully_drained client name)
                (slurm_nodes_fully_drained-AllDrained name))
              (λ s u. u) (λ a s u. u) (λ s u. inl u))
            λ b. update_if-Safe b name condition
