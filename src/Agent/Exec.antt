-- ===== src/Agent/Exec.antt =====
-- What the calls of internal/agent/agent.go have in common: a call reads and writes the state of the agent
-- and answers a value or an error. What was written before an error stays written.
use burndrop.Common.{Option, none, some, ◌≡◌, refl}
use burndrop.Storage.{StorageError, Outcome, ok, err}
use burndrop.Client.{CallError}
use burndrop.Client.Calls.{Called, returned, failed_with}

-- The errors that the calls tell apart. An error that wraps another is the error it wraps.
pub data AgentError : Type 0 where
  storage_error : StorageError → AgentError
  relay_error : CallError → AgentError
  no_pending ambiguous not_sendable no_reveal_password : AgentError
  bad_purpose bad_ttl no_random crypto_failed bad_link corrupt unexpected_state : AgentError
  password_failed still_waiting context_ended : AgentError
  bad_command not_allowed bad_pattern bad_variable start_failed : AgentError

pub data Result {ℓ} (A : Type ℓ) : Type ℓ where
  done : A → Result A
  stopped : AgentError → Result A

abbrev pub Exec {ℓ} : Type ℓ → Type ℓ → Type ℓ
Exec W A = W → Result A × W

abbrev pub of_outcome {ℓ} : {A : Type ℓ} → Outcome A → Result A
of_outcome (ok a) = done a
of_outcome (err e) = stopped (storage_error e)

abbrev pub of_called {ℓ} : {A : Type ℓ} → Called A → Result A
of_called (returned a) = done a
of_called (failed_with e) = stopped (relay_error e)

module _ {ℓ} {W A : Type ℓ} where
  abbrev pub pure : A → Exec W A
  pure a w = (done a, w)

  abbrev pub raise : AgentError → Exec W A
  raise e w = (stopped e, w)

  abbrev pub of_option : AgentError → Option A → Exec W A
  of_option e none w = (stopped e, w)
  of_option e (some a) w = (done a, w)

  abbrev pub caught : (AgentError → Exec W A) → Result A × W → Result A × W
  caught handler (done a, w) = (done a, w)
  caught handler (stopped e, w) = handler e w

  -- The call, and what follows an error of it.
  abbrev pub on_error : Exec W A → (AgentError → Exec W A) → Exec W A
  on_error m handler w = caught handler (m w)

  pub of_option-done :
      (x : AgentError) (o : Option A) (a : A) (w v : W)
      → of_option x o w ≡ (done a, v)
      → (o ≡ some a) × (v ≡ w)
  of_option-done x none a w v e = absurd cc
  of_option-done x (some b) a w v e = (cc, cc)

module _ {ℓ} {W A B : Type ℓ} where
  abbrev pub continue : (A → Exec W B) → Result A × W → Result B × W
  continue f (done a, w) = f a w
  continue f (stopped e, w) = (stopped e, w)

  infixl 10 ◌>>=◌
  abbrev pub ◌>>=◌ : Exec W A → (A → Exec W B) → Exec W B
  ◌>>=◌ m f w = continue f (m w)

  -- A call that gave a result gave one in both of its parts.
  pub continue-done :
      (f : A → Exec W B) (r : Result A × W) (b : B) (w : W)
      → continue f r ≡ (done b, w)
      → (a : A) × (v : W) × (r ≡ (done a, v)) × (f a v ≡ (done b, w))
  continue-done f (done a, v) b w e = (a, v, refl, e)
  continue-done f (stopped x, v) b w e = absurd cc
