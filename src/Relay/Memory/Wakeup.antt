-- ===== src/Relay/Memory/Wakeup.antt =====
-- No long poll of internal/relay/memory.go sleeps through a change of its slot's state.
pub mod Attended
use burndrop.Common.{
  ℕ, Bytes, Map, lookup, insert, delete, lookup-insert, lookup-delete, bytes_eq, bytes_eq_iff,
  bytes_eq_refl, ◌≡◌, ◌≢◌, refl, subst, Bool, true, false, not, ◌&&◌, ◌||◌, Option, none, some,
  List, [], ◌∷◌, map, arith, inl, inr, ◌⊎◌, ◌==◌, if◌then◌else◌,
}
use burndrop.Relay.Slot.{State, uploaded, expired, Drop, state_eq, is_terminal, tombstone}
use burndrop.Relay.Memory.{
  Memory, Waiter, ExpiryEntry, add, retire, get, notify, write, notify_waiters, signal,
}
use burndrop.Relay.Memory.Methods.{fill}
use burndrop.Relay.Memory.LongPoll.{
  waiting, or_empty, register, unregister, unregister_from, without, keep_waiters, wait_slot,
  wait_begin,
}
use burndrop.Relay.Memory.Sweep.{fire}
use burndrop.Relay.Memory.Schedule.{All}
use burndrop.Relay.Memory.Moves.{Move, filled, retired, registered, fired, lookup-get}
use burndrop.Relay.Memory.History.{Call, Kept, Allowed, keep_run, run}
use burndrop.Relay.Memory.Gone.{Other}

-- The channel stands among the waiters; it has been sent to.
unfoldable pub listens : ℕ → List Waiter → Bool
listens chan [] = false
listens chan (w ∷ ws) = w.chan == chan || listens chan ws

unfoldable pub woken : ℕ → List Waiter → Bool
woken chan [] = false
woken chan (w ∷ ws) = w.chan == chan && w.signalled || woken chan ws

woken-signal :
    (chan : ℕ) (ws : List Waiter) → listens chan ws ≡ true → woken chan (map signal ws) ≡ true
unfolding listens woken
woken-signal chan [] h = cc
woken-signal chan (w ∷ ws) h = ground (arith, woken-signal chan ws)

listens-signal : (chan : ℕ) (ws : List Waiter) → listens chan (map signal ws) ≡ listens chan ws
unfolding listens
listens-signal chan [] = refl
listens-signal chan (w ∷ ws) = ground (arith, listens-signal chan ws)

woken-listens : (chan : ℕ) (ws : List Waiter) → woken chan ws ≡ true → listens chan ws ≡ true
unfolding listens woken
woken-listens chan [] h = h
woken-listens chan (w ∷ ws) h = ground (arith, woken-listens chan ws)

without-other :
    (c chan : ℕ) (ws : List Waiter)
    → (c == chan) ≡ false
    → (listens chan (without c ws) ≡ listens chan ws) × (woken chan (without c ws) ≡ woken chan ws)
unfolding listens woken without
without-other c chan [] h = (refl, refl)
without-other c chan (w ∷ ws) h = ground (arith, without-other c chan ws h)

-- The long polls that are registered for a slot.
abbrev pub polls : Bytes → Map (List Waiter) → List Waiter
polls id ws = or_empty (lookup id ws)

module _ (id k : Bytes) (ws : Map (List Waiter)) where
  polls-notify :
      polls id (notify_waiters k ws (lookup k ws))
      ≡ (if bytes_eq k id then map signal (polls id ws) else polls id ws)
  unfolding notify_waiters or_empty
  polls-notify = go (lookup k ws) refl
    where
      go :
          (o : Option (List Waiter))
          → lookup k ws ≡ o
          → polls id (notify_waiters k ws o)
            ≡ (if bytes_eq k id then map signal (polls id ws) else polls id ws)
      go none h = ground (arith, bytes_eq_iff k id)
      go (some l) h = ground (arith, bytes_eq_iff k id, lookup-insert k id (map signal l) ws)

  polls-register :
      (c : ℕ)
      → polls id (insert k (record { chan = c; signalled = false } ∷ polls k ws) ws) ≡ (
          if bytes_eq k id
          then record { chan = c; signalled = false } ∷ polls id ws
          else polls id ws)
  unfolding or_empty
  polls-register c = ground (
    arith,
    bytes_eq_iff k id,
    lookup-insert k id (record { chan = c; signalled = false } ∷ polls k ws) ws,
  )

  polls-keep :
      (l : List Waiter)
      → polls id (keep_waiters k l ws) ≡ (if bytes_eq k id then l else polls id ws)
  unfolding keep_waiters or_empty
  polls-keep [] = ground (arith, lookup-delete k id ws)
  polls-keep (w ∷ l) = ground (arith, lookup-insert k id (w ∷ l) ws)

  polls-unregister :
      (c : ℕ)
      → polls id (unregister_from k c (lookup k ws) ws)
        ≡ (if bytes_eq k id then without c (polls id ws) else polls id ws)
  unfolding unregister_from or_empty without
  polls-unregister c = go (lookup k ws) refl
    where
      go :
          (o : Option (List Waiter))
          → lookup k ws ≡ o
          → polls id (unregister_from k c o ws)
            ≡ (if bytes_eq k id then without c (polls id ws) else polls id ws)
      go none h = ground (arith, bytes_eq_iff k id)
      go (some l) h = ground (arith, bytes_eq_iff k id, polls-keep (without c l))

-- The long poll `chan` on `id` still sleeps in state `current`, or has been woken, or the slot is
-- no longer known.
pub record Attends (id : Bytes) (chan : ℕ) (current : State) (m : Memory) : Type 0 where
  pub listening : (d : Drop) → lookup id m.drops ≡ some d → listens chan (polls id m.waiters) ≡ true
  pub awake :
      (d : Drop)
      → lookup id m.drops ≡ some d
      → (woken chan (polls id m.waiters) ≡ true) ⊎ (d.state ≡ current)
