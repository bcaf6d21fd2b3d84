-- ===== src/Relay/Handlers/Polls.antt =====
-- `statusHandler` of internal/relay/handlers.go. `Wait` blocks, so the handler is two functions: up to
-- the block, and after it. The number of blocked handlers is the counter `waiters` of the server; its
-- load and its increment are one step here, and two in the source.
use burndrop.Common.{ℕ, ◌+◌, ◌-◌, Bytes, Bool, not, ◌&&◌, ◌||◌, leb, if◌then◌else◌, true, false}
use burndrop.Crypto.Tokens.{valid_token}
use burndrop.Relay.Slot.{Kind, State, Status, Result, ok, err, is_terminal, state_eq}
use burndrop.Relay.Config.{Config, max_long_poll, is_negative, as_duration, less}
use burndrop.Relay.Memory.{Memory}
use burndrop.Relay.Memory.Methods.{status}
use burndrop.Relay.Memory.LongPoll.{Poll, answered, waiting, wait_begin, wait_end}
use burndrop.Relay.Handlers.{
  failed, described, Reply, bad_request, rate_limited, missing, too_many_waiters, op_status, Body,
  parsed, refused, store_error, same_kind, status_body,
}

-- `wait_while` is a state, or empty; any other text is a state that no slot has.
pub data While : Type 0 where
  anything nothing : While
  state : State → While

pub record StatusRequest : Type 0 where
  pub drop_id : Bytes
  pub wait_seconds : ℕ
  pub wait_while : While

pub record Server : Type 0 where
  pub store : Memory
  pub waiters : ℕ

-- Either the reply, or the handler blocks on its channel.
pub data Outcome : Type 0 where
  replied : Reply → Outcome
  blocked : Outcome

unfoldable pub matches : While → State → Bool
unfolding state_eq
matches anything s = true
matches nothing s = false
matches (state w) s = state_eq w s

unfoldable pub status_reply : Result Status → Reply
unfolding store_error status_body
status_reply (ok st) = described (status_body st)
status_reply (err e) = store_error e op_status

-- What follows the return of `Wait`.
unfoldable pub after_wait : Result Status × Memory → Server → Reply × Server
unfolding status_reply
after_wait (r, m) s = (status_reply r, record { store = m; waiters = s.waiters - 1 })

unfoldable pub begin_wait : Poll × Memory → Server → Outcome × Server
unfolding after_wait
begin_wait (waiting, m) s = (blocked, record s { store = m })
begin_wait (answered r, m) s = let (reply, s') = after_wait (r, m) s in (replied reply, s')

module _ (c : Config) (kind : Kind) where
  -- The handler from the answer of `Status` on; `chan` is the channel that `Wait` makes.
  unfoldable pub poll_known :
      ℕ → ℕ → StatusRequest → Result Status × Memory → Server → Outcome × Server
  unfolding begin_wait matches is_negative as_duration less same_kind status_body
  poll_known now chan req (err e, m) s = (replied (store_error e op_status), record s { store = m })
  poll_known now chan req (ok st, m) s =
      if not (same_kind st.kind kind)
      then (replied (failed 404 missing), record s { store = m })
      else if less 0 req.wait_seconds
          && not (is_terminal st.state)
          && matches req.wait_while st.state
      then (if leb c.max_waiters s.waiters
          then (replied (failed 503 too_many_waiters), record s { store = m })
          else begin_wait
              (wait_begin now req.drop_id st.state (less 0 (as_duration req.wait_seconds)) chan m)
              (record { store = m; waiters = s.waiters + 1 }))
      else (replied (described (status_body st)), record s { store = m })

  unfoldable pub poll_request : ℕ → ℕ → ℕ → StatusRequest → Server → Outcome × Server
  unfolding poll_known
  poll_request seen now chan req s =
      if not (valid_token req.drop_id)
      then (replied (failed 400 bad_request), s)
      else if is_negative req.wait_seconds || less max_long_poll (as_duration req.wait_seconds)
      then (replied (failed 400 bad_request), s)
      else poll_known now chan req (status seen req.drop_id s.store) s

  unfoldable pub poll_begin : ℕ → ℕ → ℕ → Bool → Body StatusRequest → Server → Outcome × Server
  unfolding poll_request
  poll_begin seen now chan false body s = (replied (failed 429 rate_limited), s)
  poll_begin seen now chan true (refused reply) s = (replied reply, s)
  poll_begin seen now chan true (parsed req) s = poll_request seen now chan req s

-- After the channel was signalled, the time ran out, or the client went away.
unfoldable pub poll_end : ℕ → Bytes → ℕ → Server → Reply × Server
unfolding after_wait
poll_end now id chan s = after_wait (wait_end now id chan s.store) s
