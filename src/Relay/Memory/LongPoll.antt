-- ===== src/Relay/Memory/LongPoll.antt =====
-- `Wait` of internal/relay/memory.go. It holds the mutex twice, so it is two functions: what
-- happens up to the `select`, and what happens after it. Between the two any method may run.
use burndrop.Common.{
  ℕ, Bytes, Map, lookup, insert, delete, Bool, false, not, ◌||◌, Option, none, some, List, [], ◌∷◌,
  ◌==◌, if◌then◌else◌,
}
use burndrop.Relay.Slot.{State, Drop, Status, not_found, Result, ok, err, state_eq, status_of}
use burndrop.Relay.Memory.{Memory, Waiter, get}
use burndrop.Relay.Memory.Methods.{status_slot}

-- Either the call returns at once, or it blocks in the `select` on its channel.
pub data Poll : Type 0 where
  answered : Result Status → Poll
  waiting : Poll

-- What a missing key of `m.waiters` yields.
unfoldable pub or_empty : Option (List Waiter) → List Waiter
or_empty none = []
or_empty (some ws) = ws

unfoldable pub register : Bytes → ℕ → Memory → Memory
unfolding or_empty
register id chan m = record m {
  waiters =
      insert id (record { chan = chan; signalled = false } ∷ or_empty (lookup id m.waiters))
        m.waiters;
}

-- `waits` says that the timeout is positive; `chan` is the channel that `make` returns.
unfoldable pub wait_slot : Bytes → State → Bool → ℕ → Option Drop → Memory → Poll × Memory
unfolding register
wait_slot id current waits chan none m = (answered (err not_found), m)
wait_slot id current waits chan (some d) m =
    if not (state_eq d.state current) || not waits
    then (answered (ok (status_of d)), m)
    else (waiting, register id chan m)

unfoldable pub wait_begin : ℕ → Bytes → State → Bool → ℕ → Memory → Poll × Memory
unfolding get wait_slot
wait_begin now id current waits chan m =
    let (found, m') = get now id m in wait_slot id current waits chan found m'

unfoldable pub without : ℕ → List Waiter → List Waiter
without chan [] = []
without chan (w ∷ ws) = let rest = without chan ws in if w.chan == chan then rest else w ∷ rest

unfoldable pub keep_waiters : Bytes → List Waiter → Map (List Waiter) → Map (List Waiter)
keep_waiters id [] m = delete id m
keep_waiters id (w ∷ ws) m = insert id (w ∷ ws) m

unfoldable pub unregister_from :
    Bytes → ℕ → Option (List Waiter) → Map (List Waiter) → Map (List Waiter)
unfolding without keep_waiters
unregister_from id chan none m = m
unregister_from id chan (some ws) m = keep_waiters id (without chan ws) m

unfoldable pub unregister : Bytes → ℕ → Memory → Memory
unfolding unregister_from
unregister id chan m = record m {
  waiters = unregister_from id chan (lookup id m.waiters) m.waiters;
}

unfoldable pub wait_end : ℕ → Bytes → ℕ → Memory → Result Status × Memory
unfolding get status_slot unregister
wait_end now id chan m =
    let (found, m') = get now id (unregister id chan m) in (status_slot found, m')
