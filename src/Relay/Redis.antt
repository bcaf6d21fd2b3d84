-- ===== src/Relay/Redis.antt =====
-- internal/relay/redis_store.go: the store on Redis. A method runs one Lua script on one slot, which
-- the server executes atomically, so it is one function. Hash fields that are absent read as empty;
-- the two counters are numbers. A script keeps and compares numbers of milliseconds; the methods
-- convert between them and times. Errors of the connection are not modelled, nor is `Wait`, which
-- polls `Status`.
pub mod Scripts
pub mod Eviction
pub mod Simulation
pub mod Agreement
pub mod Refinement
mod Tests
use burndrop.Common.{
  ℕ, ◌+◌, ◌-◌, ◌*◌, ◌/◌, Bytes, Map, lookup, insert, delete, Bool, true, false, not, ◌&&◌, Option,
  none, some, [], length, ltb, leb, if◌then◌else◌,
}
use burndrop.Relay.Slot.{Kind, State, fetched, opened, revoked, expired, Drop, is_terminal}
use burndrop.Relay.Memory.{StoreOptions}

-- The hash slot:<id>. HDEL of a field leaves it empty.
pub record Fields : Type 0 where
  pub kind : Kind
  pub state : State
  pub ct : Bytes
  pub commitment : Bytes
  pub ta : Bytes
  pub tb : Bytes
  pub agent : Bytes
  pub created : ℕ
  pub expires : ℕ
  pub uploaded : ℕ
  pub fetched : ℕ
  pub revoked : ℕ

-- redisMillis, and the UnixMilli of `run`: the fraction of a millisecond is dropped, and the zero time
-- stays 0.
unfoldable pub millis : ℕ → ℕ
millis t = t / 1000000

-- redisTime: the time of a number of milliseconds. 0 means unset, which is the zero time.
unfoldable pub time_of : ℕ → ℕ
time_of n = n * 1000000

-- The keys of the store: the slots, the two sorted sets by member, and the two counters.
pub record Redis : Type 0 where
  pub opts : StoreOptions
  pub slots : Map Fields
  pub expiry : Map ℕ
  pub removal : Map ℕ
  pub live : ℕ
  pub bytes : ℕ

-- local function release()
unfoldable pub release : Bytes → Fields → Redis → Redis
release id f r = record r {
  bytes = r.bytes - length f.ct;
  live = r.live - 1;
  expiry = delete id r.expiry;
}

-- The timestamps that `tombstone` sets.
unfoldable pub stamp : State → ℕ → Fields → Fields
stamp fetched at f = record f { fetched = at }
stamp opened at f = record f { fetched = at }
stamp revoked at f = record f { revoked = at }
stamp _ at f = f

-- local function tombstone(d, state, at)
unfoldable pub tombstone : State → ℕ → Fields → Fields
unfolding stamp
tombstone s at f = stamp s at (record f { ct = []; commitment = []; ta = []; tb = []; state = s })

-- release() and tombstone(d, s, at), as each script runs them one after the other
unfoldable pub retire : State → ℕ → Bytes → Fields → Redis → Redis
unfolding release tombstone
retire s at id f r = record (release id f r) { slots = insert id (tombstone s at f) r.slots }

unfoldable pub is_due : ℕ → Fields → Bool
is_due now f = not (is_terminal f.state) && leb f.expires now

unfoldable pub refresh : ℕ → Bytes → Redis → Option Fields → Option Fields × Redis
unfolding is_due retire
refresh now id r none = (none, r)
refresh now id r (some f) =
    if is_due now f then (some (tombstone expired 0 f), retire expired 0 id f r) else (some f, r)

-- local function get()
unfoldable pub get : ℕ → Bytes → Redis → Option Fields × Redis
unfolding refresh
get now id r = refresh now id r (lookup id r.slots)

-- The `Drop` that `slot` makes of a reply: no secrets, and the status fields.
unfoldable pub reply_drop : Bytes → Fields → Drop
unfolding time_of
reply_drop id f = record {
  id = id;
  kind = f.kind;
  state = f.state;
  ciphertext = [];
  commitment = [];
  token_a = [];
  token_b = [];
  agent_key_id = [];
  created_at = time_of f.created;
  expires_at = time_of f.expires;
  uploaded_at = time_of f.uploaded;
  fetched_at = time_of f.fetched;
  revoked_at = time_of f.revoked;
}
