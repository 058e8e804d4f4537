-- ===== src/Rebooter/Reconcile/Patches.antt =====
-- What the patches of the rebooter, with their retries, do to the stored node.
use mathlib.Core.Path.{subst}
use soperator.Prelude.{
  ℕ, ◌≡◌, refl, sym, ◌∙◌, ap, Bool, Option, none, some, String, comparable_string, arith,
}
use soperator.Exec.{Exec, wrapped}
use soperator.Exec.Runs.{Outcome, Runs, Runs-pure, Runs-wrapped, Runs-bind}
use soperator.K8s.{Node, NodeCondition, upsert_condition}
use soperator.Rebooter.{Params, Client, mutate_condition}
use soperator.Rebooter.Reconcile.{
  patch_if_changed, try_patch, patch_node_spec_with_retry, patch_node_status_with_retry,
  set_node_condition,
}
use soperator.Exec.Runs.{Outcome-by_cases, Outcome-weaken}
use soperator.Rebooter.Reconcile.Api.{
  merged_spec, merged_status, View, Same, Patched, IsApi, At, Holds,
}

module _ {S : Type 0} {client : Client S} (params : Params) {view : View S}
    (api : IsApi client view) where
  pub At-Same :
      (F : Node → Type 0) (k : ℕ) (c : Bool) (s t : S)
      → Same view s t
      → At view F k c s
      → At view F k c t
  At-Same F k c s t same h = (same.1 ∙ h.0, rw same.0 h.1, λ e. same.2 (h.2 e))

  latest_node-Runs :
      (F : Node → Type 0) (k : ℕ) (c : Bool) (n : String)
      → Runs (At view F k c) (client.latest_node n) (Holds view F k c) (At view F k c)
  latest_node-Runs F k c n = record {
    at = λ s h.
        let (same, read) = api.latest_law n s in
        let h' = At-Same F k c s (client.latest_node n s).1 same h in
        Outcome-by_cases (Holds view F k c) (At view F k c) (client.latest_node n s).0
          (client.latest_node n s).1 (λ x e. (same.0 ∙ read x e, h')) (λ x e. h');
  }

  -- The node after `mutate`, whether it has changed or not.
  abbrev pub applied : Node → Option Node → Node
  applied n none = n
  applied n (some n') = n'

  module _ (merged : Node → Node → Node) (patch : Node → Node → Exec S Node)
      (law : (base n : Node) (s : S)
        → view.stored s ≡ base
        → Outcome
            (Patched view s (merged base n))
            (Same view s)
            (patch base n s).0
            (patch base n s).1) where
    patch_if_changed-Runs :
        (F F' : Node → Type 0) (k : ℕ) (c : Bool) (base : Node) (o : Option Node)
        → (o ≡ none → F base → F' base)
        → ((n : Node) → o ≡ some n → F base → F' (merged base n))
        → Runs
            (Holds view F k c base)
            (patch_if_changed client params patch base o)
            (Holds view F' k c)
            (At view F k c)
    unfolding patch_if_changed
    patch_if_changed-Runs F F' k c base none keep change =
        Runs-pure base
          (λ s h. (h.0, (h.1.0, subst F' (sym h.0) (keep refl (subst F h.0 h.1.1)), h.1.2)))
    patch_if_changed-Runs F F' k c base (some n) keep change =
        Runs-wrapped "patch object" (patch base n) (record {
          at = λ s h.
              Outcome-weaken (Patched view s (merged base n)) (Holds view F' k c) (Same view s)
                (At view F k c)
                (λ x t p. (
                  p.1,
                  (
                    p.2 ∙ h.1.0,
                    subst F' (sym (p.1 ∙ p.0)) (change n refl (subst F h.0 h.1.1)),
                    λ e. p.3 (h.1.2 e),
                  ),
                ))
                (λ t same. At-Same F k c s t same h.1) (patch base n s).0 (patch base n s).1
                (law base n s h.0);
        })

    try_patch-Runs :
        (F F' : Node → Type 0) (k : ℕ) (c : Bool) (mutate : Node → Option Node) (node : Node)
        → ((base : Node) → mutate base ≡ none → F base → F' base)
        → ((base n : Node) → mutate base ≡ some n → F base → F' (merged base n))
        → Runs
            (At view F k c)
            (try_patch client params patch mutate node)
            (Holds view F' k c)
            (At view F k c)
    unfolding try_patch
    try_patch-Runs F F' k c mutate node keep change =
        Runs-bind (wrapped "get latest node" (client.latest_node node.name))
          (λ base. patch_if_changed client params patch base (mutate base))
          (Runs-wrapped "get latest node" (client.latest_node node.name)
            (latest_node-Runs F k c node.name))
          (λ base. patch_if_changed-Runs F F' k c base (mutate base) (keep base) (change base))

  pub patch_spec-Runs :
      (F F' : Node → Type 0) (k : ℕ) (c : Bool) (mutate : Node → Option Node) (node : Node)
      → ((base : Node) → mutate base ≡ none → F base → F' base)
      → ((base n : Node) → mutate base ≡ some n → F base → F' (merged_spec base n))
      → Runs
          (At view F k c)
          (patch_node_spec_with_retry client params mutate node)
          (Holds view F' k c)
          (At view F k c)
  unfolding patch_node_spec_with_retry
  patch_spec-Runs F F' k c mutate node keep change =
      api.retry_law (At view F k c) (Holds view F' k c) _
        (try_patch-Runs merged_spec client.patch_spec api.spec_law F F' k c mutate node keep change)

  pub patch_status-Runs :
      (F F' : Node → Type 0) (k : ℕ) (c : Bool) (mutate : Node → Option Node) (node : Node)
      → ((base : Node) → mutate base ≡ none → F base → F' base)
      → ((base n : Node) → mutate base ≡ some n → F base → F' (merged_status base n))
      → Runs
          (At view F k c)
          (patch_node_status_with_retry client params mutate node)
          (Holds view F' k c)
          (At view F k c)
  unfolding patch_node_status_with_retry
  patch_status-Runs F F' k c mutate node keep change =
      api.retry_law (At view F k c) (Holds view F' k c) _ (
        try_patch-Runs merged_status client.patch_status api.status_law F F' k c mutate node keep
          change)

  -- Setting a condition keeps what holds whatever the conditions are.
  pub set_node_condition-Runs :
      (F F' : Node → Type 0) (k : ℕ) (c : Bool) (node : Node) (kind status reason text : String)
      → ((base : Node) (cond : NodeCondition)
          → cond.kind ≡ kind
          → cond.status ≡ status
          → cond.reason ≡ reason
          → F base
          → F' (record base { conditions = upsert_condition cond base.conditions }))
      → Runs
          (At view F k c)
          (set_node_condition client params node kind status reason text)
          (Holds view F' k c)
          (At view F k c)
  unfolding set_node_condition mutate_condition
  set_node_condition-Runs F F' k c node kind status reason text change = record {
    at = λ s h.
        let cond : NodeCondition = record {
          kind = kind;
          status = status;
          reason = reason;
          message = text;
          last_transition = client.now s;
          last_heartbeat = client.now s;
        } in
        (Runs-wrapped "set node condition"
            (patch_node_status_with_retry client params (mutate_condition cond) node)
            (patch_status-Runs F F' k c (mutate_condition cond) node
              (λ base e. absurd (ground arith))
              (λ base n e f.
                subst (λ m. F' (merged_status base m)) (ap (applied base) e)
                  (change base cond refl refl refl f)))).at
          s h;
  }
