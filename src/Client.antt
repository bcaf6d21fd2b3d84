-- ===== src/Client.antt =====
-- internal/client/client.go: the loop of WaitForUpload and WaitForOpen. What a turn of the loop meets is an
-- argument: the clock, the answer of the relay, and whether the context has ended. The pause between
-- failures takes no step.
pub mod Returns
pub mod Calls
mod Tests
use burndrop.Common.{
  ℕ, suc, Bytes, codes, bytes_eq, Bool, true, false, not, ◌&&◌, Option, none, some, List, [], ◌∷◌,
  ltb, leb, if◌then◌else◌,
}

pub record Status : Type 0 where
  pub state : Bytes
  pub kind : Bytes
  pub created_at : ℕ
  pub expires_at : ℕ
  pub uploaded_at : ℕ
  pub fetched_at : ℕ
  pub opened_at : ℕ
  pub revoked_at : ℕ

unfoldable pub terminal : Status → Bool
terminal s =
    if bytes_eq s.state (codes "fetched")
    then true
    else if bytes_eq s.state (codes "opened")
    then true
    else if bytes_eq s.state (codes "revoked")
    then true
    else bytes_eq s.state (codes "expired")

-- An answer of the relay with an error code.
pub record Error : Type 0 where
  pub status : ℕ
  pub code : Bytes
  pub detail : Bytes
  pub state : Bytes
  pub at : ℕ

-- What a call fails with: an error of the relay, a timeout of the transport, or another failure.
pub data CallError : Type 0 where
  refused : Error → CallError
  timed_out : CallError
  broken : CallError

pub data Answer : Type 0 where
  answered : Status → Answer
  failed : CallError → Answer

pub record Turn : Type 0 where
  pub now : ℕ
  pub answer : Answer
  -- The context has ended when the poll has failed, or in the pause after it.
  pub ended : Bool
  pub ended_in_pause : Bool

-- How the loop ends, with the last status that it has seen.
pub data Waited : Type 0 where
  changed : Status → Waited
  deadline_exceeded : Option Status → Waited
  cancelled : Option Status → Waited
  gave_up : Option Status → CallError → Waited

pub data Step : Type 0 where
  stop : Waited → Step
  again : Option Status → ℕ → Step

unfoldable pub is_permanent : CallError → Bool
is_permanent timed_out = false
is_permanent broken = false
is_permanent (refused e) = ltb e.status 500 && not (bytes_eq e.code (codes "rate_limited"))

-- A turn before the deadline.
unfoldable pub answer_step : Bytes → Turn → Answer → Option Status → ℕ → Step
unfolding is_permanent
answer_step state t (answered st) last failures =
    if not (bytes_eq st.state state) then stop (changed st) else again (some st) 0
answer_step state t (failed e) last failures =
    if t.ended
    then stop (cancelled last)
    else if is_permanent e
    then stop (gave_up last e)
    else if ltb 5 (suc failures)
    then stop (gave_up last e)
    else if t.ended_in_pause
    then stop (cancelled last)
    else again last (suc failures)

unfoldable pub step : Bytes → ℕ → Turn → Option Status → ℕ → Step
unfolding answer_step
step state deadline t last failures =
    if leb deadline t.now
    then stop (deadline_exceeded last)
    else answer_step state t t.answer last failures

unfoldable pub after : Step → (Option Status → ℕ → Option Waited) → Option Waited
after (stop w) rest = some w
after (again last failures) rest = rest last failures

-- The loop; `none` if it still runs after the turns.
unfoldable pub wait_while : Bytes → ℕ → Option Status → ℕ → List Turn → Option Waited
unfolding step after
wait_while state deadline last failures [] = none
wait_while state deadline last failures (t ∷ ts) =
    after (step state deadline t last failures) (λ l n. wait_while state deadline l n ts)
