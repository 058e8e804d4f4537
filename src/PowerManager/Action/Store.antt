-- ===== src/PowerManager/Action/Store.antt =====
-- What the power manager relies on of the API server and of RetryOnConflict.
use soperator.Prelude.{◌≡◌, true, Option, none, some, Bytes, comparable_bytes, ◌==◌, if◌then◌else◌}
use soperator.Exec.{Err, ok, err, Exec, is_not_found}
use soperator.PowerManager.Action.{PowerState, Client}

-- What can come before the last attempt of a retried action: attempts that failed, and steps of
-- other writers between two attempts.
pub data Attempted {S : Type 0} (others : S → S → Type 0) (m : Exec S (Unit {0})) (s : S)
    : S → Type 0 where
  first : Attempted others m s s
  failed :
      {t : S} {e : Err} → Attempted others m s t → (m t).0 ≡ err e → Attempted others m s (m t).1
  meanwhile : {t u : S} → Attempted others m s t → others t u → Attempted others m s u

-- The behaviour of the API server that the program relies on: a read returns what is stored and
-- changes nothing, a write that succeeds stores its object and no other, one that fails changes
-- nothing that is stored, and a retried action that succeeds does so by a last attempt of its own,
-- after attempts that failed.
pub record IsStore {S : Type 0} (client : Client S) (namespace : Bytes) (others : S → S → Type 0)
    : Type 0 where
  pub stored : S → Bytes → Option PowerState
  pub named : (s : S) (n : Bytes) (p : PowerState) → stored s n ≡ some p → p.name ≡ n
  pub get_ok :
      (s : S) (n : Bytes) (p : PowerState)
      → (client.get_power_state namespace n s).0 ≡ ok p
      → stored s n ≡ some p
  pub get_missing :
      (s : S) (n : Bytes) (e : Err)
      → (client.get_power_state namespace n s).0 ≡ err e
      → is_not_found e ≡ true
      → stored s n ≡ none
  pub get_same :
      (s : S) (n j : Bytes) → stored (client.get_power_state namespace n s).1 j ≡ stored s j
  pub update_ok :
      (s : S) (p : PowerState)
      → (client.update_power_state p s).0 ≡ ok tt
      → (j : Bytes)
      → stored (client.update_power_state p s).1 j ≡ (if p.name == j then some p else stored s j)
  pub create_ok :
      (s : S) (p : PowerState)
      → (client.create_power_state p s).0 ≡ ok tt
      → (j : Bytes)
      → stored (client.create_power_state p s).1 j ≡ (if p.name == j then some p else stored s j)
  pub update_err :
      (s : S) (p : PowerState) (e : Err)
      → (client.update_power_state p s).0 ≡ err e
      → (j : Bytes) → stored (client.update_power_state p s).1 j ≡ stored s j
  pub create_err :
      (s : S) (p : PowerState) (e : Err)
      → (client.create_power_state p s).0 ≡ err e
      → (j : Bytes) → stored (client.create_power_state p s).1 j ≡ stored s j
  pub retry_ok :
      (m : Exec S (Unit {0})) (s : S)
      → (client.retry_on_conflict m s).0 ≡ ok tt
      → (s0 : S) × Attempted others m s s0 × (m s0 ≡ client.retry_on_conflict m s)
