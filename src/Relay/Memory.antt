-- ===== src/Relay/Memory.antt =====
-- internal/relay/memory.go: the in-memory store. Every method holds the mutex for its whole
-- duration, so a method is one function from the store to the store and its result. Each reading
-- of the clock is an argument: `now` for the expiry check, `at` for the timestamp written.
-- Here stand the state, `Create` and what the methods share; the methods are in the children.
pub mod Methods
pub mod Sweep
pub mod LongPoll
pub mod Accounting
pub mod Moves
pub mod Gone
pub mod Once
mod Tests
pub mod Wakeup
pub mod Sweeping
pub mod Expiry
pub mod Delivery
pub mod History
pub mod Invariant
pub mod Schedule
use burndrop.Common.{
  ℕ, ◌+◌, ◌-◌, Bytes, Map, lookup, insert, Bool, true, false, not, ◌&&◌, Option, none, some, List,
  [], ◌∷◌, length, ltb, leb, if◌then◌else◌, map,
}
use burndrop.Relay.Slot.{State, expired, Drop, full, Result, ok, err, is_terminal, tombstone}

-- Durations are numbers of nanoseconds; 0 means unlimited for the two capacities.
pub record StoreOptions : Type 0 where
  pub max_live : ℕ
  pub max_bytes : ℕ
  pub tombstone_grace : ℕ

-- 24 * time.Hour
abbrev pub default_grace : ℕ
default_grace = 86400000000000

unfoldable pub with_defaults : StoreOptions → StoreOptions
with_defaults o =
    if ltb 0 o.tombstone_grace then o else record o { tombstone_grace = default_grace }

pub record ExpiryEntry : Type 0 where
  pub at : ℕ
  pub id : Bytes
  pub remove : Bool

-- A long poll: its channel, and whether the one place of the channel's buffer is taken.
pub record Waiter : Type 0 where
  pub chan : ℕ
  pub signalled : Bool

pub record Memory : Type 0 where
  pub opts : StoreOptions
  pub drops : Map Drop
  pub waiters : Map (List Waiter)
  pub timers : List ExpiryEntry
  pub live : ℕ
  pub bytes : ℕ

unfoldable pub new_memory : StoreOptions → Memory
unfolding with_defaults
new_memory o = record {
  opts = with_defaults o;
  drops = [];
  waiters = [];
  timers = [];
  live = 0;
  bytes = 0;
}

-- container/heap by its contract: the queue in the order in which `Pop` yields it. Entries of one
-- time keep the order of insertion, which the heap leaves open.
unfoldable pub push : ExpiryEntry → List ExpiryEntry → List ExpiryEntry
push e [] = e ∷ []
push e (x ∷ xs) = if ltb e.at x.at then e ∷ x ∷ xs else x ∷ push e xs

unfoldable pub over : ℕ → ℕ → Bool
over limit n = ltb 0 limit && ltb limit n

-- The copy that `Create` stores, and the two timers that it starts. A new slot is `created` unless
-- the caller set a state, which no caller does but to `created`.
unfoldable pub add : Drop → Memory → Memory
unfolding push
add d m = record m {
  drops = insert d.id d m.drops;
  live = m.live + 1;
  bytes = m.bytes + length d.ciphertext;
  timers =
      push (record { at = d.expires_at + m.opts.tombstone_grace; id = d.id; remove = true })
        (push (record { at = d.expires_at; id = d.id; remove = false }) m.timers);
}

unfoldable pub create_if_new : Drop → Memory → Option Drop → Result (Unit {0}) × Memory
unfolding add over
create_if_new d m (some _) = (err full, m)
create_if_new d m none =
    if ltb 0 m.opts.max_live && leb m.opts.max_live m.live
    then (err full, m)
    else if over m.opts.max_bytes (m.bytes + length d.ciphertext)
    then (err full, m)
    else (ok tt, add d m)

unfoldable pub create : Drop → Memory → Result (Unit {0}) × Memory
unfolding create_if_new
create d m = create_if_new d m (lookup d.id m.drops)

-- A send to every channel of the slot that has room.
abbrev pub signal : Waiter → Waiter
signal w = record w { signalled = true }

unfoldable pub notify_waiters : Bytes → Map (List Waiter) → Option (List Waiter) → Map (List Waiter)
notify_waiters id ws none = ws
notify_waiters id ws (some l) = insert id (map signal l) ws

unfoldable pub notify : Bytes → Memory → Memory
unfolding notify_waiters
notify id m = record m { waiters = notify_waiters id m.waiters (lookup id m.waiters) }

-- Writing through the pointer that the map holds for `id`.
unfoldable pub write : Bytes → Drop → Memory → Memory
write id d m = record m { drops = insert id d m.drops }

-- What `expire`, `Fetch`, `Open` and `Revoke` have in common: the slot leaves the counters, becomes
-- a tombstone, and its long polls wake.
unfoldable pub retire : State → ℕ → Bytes → Drop → Memory → Memory
unfolding notify write
retire s at id d m = notify id (record (write id (tombstone s at d) m) {
  bytes = m.bytes - length d.ciphertext;
  live = m.live - 1;
})

unfoldable pub expire : Bytes → Drop → Memory → Memory
unfolding retire
expire id d m = retire expired d.expires_at id d m

-- The lazy expiry check of `get`.
unfoldable pub is_due : ℕ → Drop → Bool
is_due now d = not (is_terminal d.state) && not (ltb now d.expires_at)

unfoldable pub refresh : ℕ → Bytes → Memory → Option Drop → Option Drop × Memory
unfolding is_due expire
refresh now id m none = (none, m)
refresh now id m (some d) =
    if is_due now d then (some (tombstone expired d.expires_at d), expire id d m) else (some d, m)

unfoldable pub get : ℕ → Bytes → Memory → Option Drop × Memory
unfolding refresh
get now id m = refresh now id m (lookup id m.drops)
