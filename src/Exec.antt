-- ===== src/Exec.antt =====
-- Handlers that call the Kubernetes and Slurm APIs: actions on a state of the world that return a
-- value or a Go error. What was done before an error stays done.
pub mod Runs
pub mod Keeps
use soperator.Prelude.{
  List, [], ◌∷◌, String, ◌≡◌, refl, ◌⊎◌, inl, inr, Bool, true, false, ◌||◌, Bytes, if◌then◌else◌,
}

-- The errors that the code tells apart. `wrap` is `fmt.Errorf` with `%w`, `joined` is
-- `errors.Join`, `message` any error that is only passed on. `not_exist` is `os.ErrNotExist`,
-- `not_supported` one of EINVAL, ENOTSUP and ENOSYS. A panic is an error that no code looks at:
-- a loop that goes on after an error has `unless_panicked`.
pub data Err : Type 0 where
  not_found conflict not_exist deadline_exceeded not_supported panicked : Err
  message : String → Err
  pod_not_evictable : String → Err
  wrap : String → Err → Err
  joined : Err → Err → Err

-- `apierrors.IsNotFound`, through wrapped errors.
unfoldable pub is_not_found : Err → Bool
is_not_found not_found = true
is_not_found conflict = false
is_not_found not_exist = false
is_not_found deadline_exceeded = false
is_not_found not_supported = false
is_not_found panicked = false
is_not_found (message m) = false
is_not_found (pod_not_evictable p) = false
is_not_found (wrap m e) = is_not_found e
is_not_found (joined e f) = is_not_found e || is_not_found f

-- `errors.As` with a `*PodNotEvictableError`.
unfoldable pub is_pod_not_evictable : Err → Bool
is_pod_not_evictable not_found = false
is_pod_not_evictable conflict = false
is_pod_not_evictable not_exist = false
is_pod_not_evictable deadline_exceeded = false
is_pod_not_evictable not_supported = false
is_pod_not_evictable panicked = false
is_pod_not_evictable (message m) = false
is_pod_not_evictable (pod_not_evictable p) = true
is_pod_not_evictable (wrap m e) = is_pod_not_evictable e
is_pod_not_evictable (joined e f) = is_pod_not_evictable e || is_pod_not_evictable f

-- `isRenameNotSupported`
unfoldable pub is_rename_not_supported : Err → Bool
is_rename_not_supported not_found = false
is_rename_not_supported conflict = false
is_rename_not_supported not_exist = false
is_rename_not_supported deadline_exceeded = false
is_rename_not_supported not_supported = true
is_rename_not_supported panicked = false
is_rename_not_supported (message m) = false
is_rename_not_supported (pod_not_evictable p) = false
is_rename_not_supported (wrap m e) = is_rename_not_supported e
is_rename_not_supported (joined e f) = is_rename_not_supported e || is_rename_not_supported f

-- `errors.Is` with `os.ErrNotExist`.
unfoldable pub is_not_exist : Err → Bool
is_not_exist not_found = false
is_not_exist conflict = false
is_not_exist not_exist = true
is_not_exist deadline_exceeded = false
is_not_exist not_supported = false
is_not_exist panicked = false
is_not_exist (message m) = false
is_not_exist (pod_not_evictable p) = false
is_not_exist (wrap m e) = is_not_exist e
is_not_exist (joined e f) = is_not_exist e || is_not_exist f

-- `errors.Is` with `context.DeadlineExceeded`.
unfoldable pub is_deadline_exceeded : Err → Bool
is_deadline_exceeded not_found = false
is_deadline_exceeded conflict = false
is_deadline_exceeded not_exist = false
is_deadline_exceeded deadline_exceeded = true
is_deadline_exceeded not_supported = false
is_deadline_exceeded panicked = false
is_deadline_exceeded (message m) = false
is_deadline_exceeded (pod_not_evictable p) = false
is_deadline_exceeded (wrap m e) = is_deadline_exceeded e
is_deadline_exceeded (joined e f) = is_deadline_exceeded e || is_deadline_exceeded f

pub data Result {ℓ} (A : Type ℓ) : Type ℓ where
  ok : A → Result A
  err : Err → Result A

abbrev pub Exec {ℓ} : Type ℓ → Type ℓ → Type ℓ
Exec S A = S → Result A × S

-- `if err != nil { return fmt.Errorf("…: %w", err) }`
abbrev pub wrap_result {ℓ} : {A : Type ℓ} → String → Result A → Result A
wrap_result m (ok a) = ok a
wrap_result m (err e) = err (wrap m e)

pub Result-cases {ℓ} :
    {A : Type ℓ} (r : Result A) → ((a : A) × (r ≡ ok a)) ⊎ ((e : Err) × (r ≡ err e))
Result-cases (ok a) = inl (a, refl)
Result-cases (err e) = inr (e, refl)

module _ {ℓ} {S A : Type ℓ} where
  abbrev pub pure : A → Exec S A
  pure a s = (ok a, s)

  abbrev pub raise : Err → Exec S A
  raise e s = (err e, s)

  -- The result of an action, error or not, for the code that looks at `err`.
  abbrev pub attempt : Exec S A → Exec S (Result A)
  attempt m s = let (r, s') = m s in (ok r, s')

  abbrev pub wrapped : String → Exec S A → Exec S A
  wrapped msg m s = let (r, s') = m s in (wrap_result msg r, s')

module _ {ℓ} {S A B : Type ℓ} where
  abbrev pub continue_with : Result A → (A → Exec S B) → Exec S B
  continue_with (ok a) f s = f a s
  continue_with (err e) f s = (err e, s)

  infixl 5 ◌>>=◌
  abbrev pub ◌>>=◌ : Exec S A → (A → Exec S B) → Exec S B
  ◌>>=◌ m f s = let (r, s') = m s in continue_with r f s'

infixl 5 ◌>>◌
abbrev pub ◌>>◌ {ℓ} : {S B : Type ℓ} → Exec S (Unit {ℓ}) → Exec S B → Exec S B
m >> k = m >>= λ _. k

abbrev pub when {ℓ} : {S : Type ℓ} → Bool → Exec S (Unit {ℓ}) → Exec S (Unit {ℓ})
when true m = m
when false m = pure tt

abbrev pub lifted {ℓ} : {S A : Type ℓ} → Result A → Exec S A
lifted (ok a) = pure a
lifted (err e) = raise e

abbrev pub is_panicked : Err → Bool
is_panicked panicked = true
is_panicked _ = false

-- The result of an action that was attempted, unless it has panicked.
abbrev pub unless_panicked {ℓ} : {S A : Type ℓ} → Result A → Exec S (Result A)
unless_panicked (ok a) = pure (ok a)
unless_panicked (err e) = if is_panicked e then raise e else pure (err e)

-- `if err != nil { errs = append(errs, err) }`
abbrev pub collected : Result (Unit {0}) → List Err → List Err
collected (ok u) errs = errs
collected (err e) errs = e ∷ errs

abbrev pub join_all : Err → List Err → Err
join_all e [] = e
join_all e (f ∷ errs) = joined e (join_all f errs)

-- `errors.Join`
abbrev pub join_errors : {S : Type 0} → List Err → Exec S (Unit {0})
join_errors [] = pure tt
join_errors (e ∷ errs) = raise (join_all e errs)
