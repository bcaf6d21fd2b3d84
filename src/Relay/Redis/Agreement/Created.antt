-- ===== src/Relay/Redis/Agreement/Created.antt =====
-- The scripts of internal/relay/redis_store.go that create a slot and ask for its status, against internal/relay/memory.go.
use burndrop.Common.{
  ℕ, ◌+◌, Bytes, lookup, ◌&&◌, Option, none, some, length, leb, ltb, ◌≡◌, refl, ap,
}
use burndrop.Crypto.Base64.RoundTrip.{AreBytes}
use burndrop.Relay.Slot.{Drop, status_of}
use burndrop.Relay.Memory.{Memory, StoreOptions, with_defaults, new_memory, over}
use burndrop.Relay.Memory
use burndrop.Relay.Memory.Methods
use burndrop.Relay.Redis.{Fields, Redis, millis, time_of, reply_drop}
use burndrop.Relay.Redis.Scripts
use burndrop.Relay.Redis.Simulation.{
  Same, OptSame, Related, Agree, agree, if-Agree, insert-OptSame, get-Related, whole,
}

status_slot-Same :
    (id : Bytes) (o : Option Fields) (p : Option Drop)
    → OptSame id o p
    → Scripts.status_slot id o ≡ Methods.status_slot p
unfolding Scripts.status_slot Methods.status_slot status_of reply_drop
status_slot-Same id none none h = refl
status_slot-Same id none (some d) h = absurd h
status_slot-Same id (some f) none h = absurd h
status_slot-Same id (some f) (some d) h =
    cc (h.id, h.kind, h.state, h.created, h.expires, h.uploaded, h.fetched, h.revoked)

-- What a slot that is created must bring: hashes that are bytes.
abbrev pub HasBytes : Drop → Type 0
HasBytes d = AreBytes d.token_a × AreBytes d.token_b

-- A slot whose times are rounded down to milliseconds.
abbrev pub whole_times : Drop → Drop
whole_times d = record d {
  created_at = whole d.created_at;
  expires_at = whole d.expires_at;
  uploaded_at = whole d.uploaded_at;
  fetched_at = whole d.fetched_at;
  revoked_at = whole d.revoked_at;
}

fields_of-Same : (d : Drop) → HasBytes d → Same d.id (Scripts.fields_of d) (whole_times d)
unfolding Scripts.fields_of millis time_of
fields_of-Same d h = record {
  id = refl;
  kind = refl;
  state = refl;
  ct = refl;
  commitment = refl;
  created = refl;
  expires = refl;
  uploaded = refl;
  fetched = refl;
  revoked = refl;
  token_a = λ _. (refl, h.0);
  token_b = λ _. (refl, h.1);
}

pub create-Agree :
    (d : Drop) (r : Redis) (m : Memory)
    → HasBytes d
    → Related r m
    → Agree (Scripts.create d r) (Memory.create (whole_times d) m)
unfolding Scripts.create Scripts.create_if_new Memory.create Memory.create_if_new Memory.add
create-Agree d r m h rel =
    create_if_new-Agree (lookup d.id r.slots) (lookup d.id m.drops) (rel.slots d.id)
  where
    create_if_new-Agree :
        (o : Option Fields) (p : Option Drop)
        → OptSame d.id o p
        → Agree (Scripts.create_if_new d r o) (Memory.create_if_new (whole_times d) m p)
    create_if_new-Agree none none s =
        if-Agree (ltb 0 r.opts.max_live && leb r.opts.max_live r.live)
          (ltb 0 m.opts.max_live && leb m.opts.max_live m.live) (cc (rel.opts, rel.live))
          (agree refl rel)
          λ live.
            if-Agree (over r.opts.max_bytes (r.bytes + length d.ciphertext))
              (over m.opts.max_bytes (m.bytes + length d.ciphertext)) (cc (rel.opts, rel.bytes))
              (agree refl rel)
              λ room. agree refl (record {
                slots = insert-OptSame d.id _ _ r.slots m.drops (fields_of-Same d h) rel.slots;
                live = ap (λ n. n + 1) rel.live;
                bytes = ap (λ n. n + length d.ciphertext) rel.bytes;
                opts = rel.opts;
              })
    create_if_new-Agree none (some e) s = absurd s
    create_if_new-Agree (some f) none s = absurd s
    create_if_new-Agree (some f) (some e) s = agree refl rel

pub status-Agree :
    (now : ℕ) (id : Bytes) (r : Redis) (m : Memory)
    → Related r m
    → Agree (Scripts.status now id r) (Methods.status (whole now) id m)
unfolding Scripts.status Methods.status millis time_of
status-Agree now id r m rel =
    let (o, s) = get-Related (millis now) id r m rel in agree (status_slot-Same id _ _ o) s
