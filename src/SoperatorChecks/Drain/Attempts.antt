-- ===== src/SoperatorChecks/Drain/Attempts.antt =====
-- A drain tries every node, whatever happens to the others.
use soperator.Prelude.{
  ◌≡◌, refl, ap, ◌∙◌, true, List, [], ◌∷◌, ◌++◌, map, String, Option, none, some, inl, inr,
}
use mathlib.Core.List.{append_assoc, append-nil}
use soperator.Exec.{Result-cases, ok, unless_panicked}
use soperator.SoperatorChecks.{Client, ClusterName, WorkerPod}
use soperator.SoperatorChecks.Drain.{cluster_of, post_state, drain_slurm_node, drain_pods}

-- The node that a post for a pod is about.
abbrev pub target : WorkerPod → ClusterName × String
target pod = (cluster_of pod, pod.name)

module _ {S : Type 0} (client : Client S) (posts : S → List (ClusterName × String))
    (known : (c : ClusterName) (s : S) → client.has_cluster c s ≡ true)
    (recorded : (c : ClusterName) (n : String) (r : Option String) (st : String) (s : S)
      → posts (client.post_node c n r st s).1 ≡ posts s ++ (c, n) ∷ [])
    (with_body : (c : ClusterName) (n : String) (r : Option String) (st : String) (s : S)
      → (client.post_node c n r st s).0 ≡ ok none
      → ⊥) where
  posts-drain_slurm_node :
      (c : ClusterName) (n reason : String) (s : S)
      → posts (drain_slurm_node client c n reason s).1 ≡ posts s ++ (c, n) ∷ []
  unfolding drain_slurm_node post_state
  posts-drain_slurm_node c n reason s =
      rw (known c s) (elim (Result-cases (client.post_node c n (some reason) "DRAIN" s).0) [
        | inl (none, e) ↦ rw e (recorded c n (some reason) "DRAIN" s)
        | inl (some [], e) ↦ rw e (recorded c n (some reason) "DRAIN" s)
        | inl (some (x ∷ xs), e) ↦ rw e (recorded c n (some reason) "DRAIN" s)
        | inr (x, e) ↦ rw e (recorded c n (some reason) "DRAIN" s)
      ])

  drain_slurm_node-goes_on :
      (c : ClusterName) (n reason : String) (s t : S)
      → let r = (drain_slurm_node client c n reason s).0 in unless_panicked r t ≡ (ok r, t)
  unfolding drain_slurm_node post_state
  drain_slurm_node-goes_on c n reason s t =
      rw (known c s) (elim (Result-cases (client.post_node c n (some reason) "DRAIN" s).0) [
        | inl (none, e) ↦ absurd (with_body c n (some reason) "DRAIN" s e)
        | inl (some [], e) ↦ rw e refl
        | inl (some (x ∷ xs), e) ↦ rw e refl
        | inr (x, e) ↦ rw e refl
      ])

  -- If every response to a post has the body of a success, without which the code panics: the posts
  -- of a drain are one for each worker pod, in order, whichever of them fail.
  pub drain_pods_all :
      (reason : String) (pods : List WorkerPod) (s : S)
      → posts (drain_pods client reason pods s).1 ≡ posts s ++ map target pods
  unfolding drain_pods
  drain_pods_all reason [] s = rw append-nil refl
  drain_pods_all reason (pod ∷ pods) s =
      let s1 = (drain_slurm_node client (cluster_of pod) pod.name reason s).1 in
      let all : posts (drain_pods client reason pods s1).1
          ≡ posts s ++ target pod ∷ map target pods =
        drain_pods_all reason pods s1
        ∙ ap (λ l. l ++ map target pods) (posts-drain_slurm_node (cluster_of pod) pod.name reason s)
        ∙ append_assoc (posts s) (target pod ∷ []) (map target pods) in
      rw (drain_slurm_node-goes_on (cluster_of pod) pod.name reason s s1)
        (elim (Result-cases (drain_pods client reason pods s1).0) [
          | inl (errs, e) ↦ rw e all
          | inr (x, e) ↦ rw e all
        ])
