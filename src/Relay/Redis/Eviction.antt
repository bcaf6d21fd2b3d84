-- ===== src/Relay/Redis/Eviction.antt =====
-- What the sweep of internal/relay/redis_store.go does about a slot that the server evicted.
use burndrop.Common.{
  ℕ, ◌+◌, ◌≤◌, Bytes, Option, lookup, delete, bytes_eq_refl, lookup-insert, lookup-delete, none,
  some, length, ◌≡◌, false, refl, ap, ◌∙◌, if◌then◌else◌, arith,
}
use burndrop.Relay.Slot.{Drop, ok, is_terminal}
use burndrop.Relay.Redis.{Fields, Redis, millis, retire}
use burndrop.Relay.Redis.Scripts.{
  create, create_if_new, fields_of, expire, expire_slot, remove, remove_slot, evict,
}

delete-gone : (id : Bytes) (r : Redis) → lookup id (delete id r.slots) ≡ none
delete-gone id r =
    lookup-delete id id r.slots ∙ ap (λ b. if b then none else lookup id r.slots) (bytes_eq_refl id)

evict-gone : (id : Bytes) (r : Redis) → lookup id (evict id r).slots ≡ none
unfolding evict
evict-gone id r = delete-gone id r

-- A slot that the store counts, in the store that counted the rest.
record Counted (d : Drop) (before after : Redis) : Type 0 where
  live : after.live ≡ before.live + 1
  bytes : after.bytes ≡ before.bytes + length d.ciphertext
  here : lookup d.id after.slots ≡ some (fields_of d)

create_if_new-Counted :
    (d : Drop) (r : Redis) (o : Option Fields)
    → (create_if_new d r o).0 ≡ ok tt
    → Counted d r (create_if_new d r o).1
unfolding create_if_new
create_if_new-Counted d r (some f) h = absurd cc
create_if_new-Counted d r none h = record {
  live = ground arith;
  bytes = ground arith;
  here = ground (arith, lookup-insert d.id d.id (fields_of d) r.slots, bytes_eq_refl d.id);
}

create-Counted : (d : Drop) (r : Redis) → (create d r).0 ≡ ok tt → Counted d r (create d r).1
unfolding create
create-Counted d r h = create_if_new-Counted d r (lookup d.id r.slots) h

-- The scripts of a sweep on a slot that is gone.
remove-gone :
    (id : Bytes) (r : Redis)
    → lookup id r.slots ≡ none
    → ((remove id r).0.live ≡ r.live)
      × ((remove id r).0.bytes ≡ r.bytes)
      × (lookup id (remove id r).0.slots ≡ none)
unfolding remove remove_slot
remove-gone id r gone = rw gone (refl, refl, gone)

expire-gone :
    (now : ℕ) (id : Bytes) (r : Redis)
    → lookup id r.slots ≡ none
    → ((expire now id r).0.live ≡ r.live)
      × ((expire now id r).0.bytes ≡ r.bytes)
      × (lookup id (expire now id r).0.slots ≡ none)
unfolding expire expire_slot
expire-gone now id r gone = rw gone (refl, refl, gone)

-- The script of a sweep takes a due slot out of the counters.
expire-Counted :
    (now : ℕ) (d : Drop) (r s : Redis)
    → Counted d r s
    → is_terminal d.state ≡ false
    → d.expires_at ≤ now
    → ((expire now d.id s).0.live ≡ r.live) × ((expire now d.id s).0.bytes ≡ r.bytes)
unfolding expire expire_slot fields_of millis retire
expire-Counted now d r s c live due = rw c.here (ground (arith, c.live, c.bytes))

-- A slot that was created and was neither read nor swept before the server evicted it stays in
-- both counters: after the two scripts of a sweep that comes after the eviction it is still
-- counted, with its bytes, although the store no longer has the slot. If the script that expires
-- it runs at or after its expiry and before the eviction, and the one that removes it after that,
-- the slot is gone too, and both counters are what they were before the slot was created.
pub sweep-evict :
    (now : ℕ) (d : Drop) (r : Redis)
    → (create d r).0 ≡ ok tt
    → is_terminal d.state ≡ false
    → d.expires_at ≤ now
    → ((remove d.id (expire now d.id (evict d.id (create d r).1)).0).0.live ≡ r.live + 1)
      × ((remove d.id (expire now d.id (evict d.id (create d r).1)).0).0.bytes
          ≡ r.bytes + length d.ciphertext)
      × (lookup d.id (remove d.id (expire now d.id (evict d.id (create d r).1)).0).0.slots ≡ none)
      × ((remove d.id (evict d.id (expire now d.id (create d r).1).0)).0.live ≡ r.live)
      × ((remove d.id (evict d.id (expire now d.id (create d r).1).0)).0.bytes ≡ r.bytes)
      × (lookup d.id (remove d.id (evict d.id (expire now d.id (create d r).1).0)).0.slots ≡ none)
unfolding evict
sweep-evict now d r made live due =
    let s = (create d r).1 in
    let c = create-Counted d r made in
    let (expired_live, expired_bytes, expired_gone) =
      expire-gone now d.id (evict d.id s) (evict-gone d.id s) in
    let (late_live, late_bytes, late_gone) =
      remove-gone d.id (expire now d.id (evict d.id s)).0 expired_gone in
    let t = (expire now d.id s).0 in
    let (early_live, early_bytes, early_gone) =
      remove-gone d.id (evict d.id t) (evict-gone d.id t) in
    let (swept_live, swept_bytes) = expire-Counted now d r s c live due in
    (
      late_live ∙ expired_live ∙ c.live,
      late_bytes ∙ expired_bytes ∙ c.bytes,
      late_gone,
      early_live ∙ swept_live,
      early_bytes ∙ swept_bytes,
      early_gone,
    )
