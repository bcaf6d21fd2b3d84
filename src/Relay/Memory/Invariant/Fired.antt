-- ===== src/Relay/Memory/Invariant/Fired.antt =====
-- The invariant of internal/relay/memory.go through timers that fire, and so through every move.
use burndrop.Common.{
  ℕ, Bytes, lookup, delete, lookup-insert, bytes_eq_refl, ◌≡◌, refl, sym, subst, true, false,
  Option, none, some, List, ◌∷◌, arith, Bool-cases, inl, inr,
}
use burndrop.Relay.Slot.{expired, Drop, is_terminal, tombstone}
use burndrop.Relay.Memory.{Memory, ExpiryEntry, retire}
use burndrop.Relay.Memory.LongPoll.{register, unregister}
use burndrop.Relay.Memory.Sweep.{fire}
use burndrop.Relay.Memory.Accounting.{delete-Balanced, tombstone-state}
use burndrop.Relay.Memory.Schedule.{Scheduled}
use burndrop.Relay.Memory.Schedule.Kept.{removal_terminal, remove-Scheduled, pop-Scheduled}
use burndrop.Relay.Memory.Moves.{Move, filled, retired, registered, fired, Moves, done, more}
use burndrop.Relay.Memory.Invariant.{Inv, retire-Inv, fill-Inv, popped-Inv}

-- What a due timer does to the slot that it names, by the timer's kind and the slot's state.
module _ (e : ExpiryEntry) (es : List ExpiryEntry) (d : Drop) (m : Memory) where
  abbrev popped : Memory
  popped = record m { timers = es }

  fire_removal :
      e.remove ≡ true
      → (fire e (some d) popped).0
        ≡ record popped { drops = delete e.id m.drops; waiters = delete e.id m.waiters }
  unfolding fire
  fire_removal r = ground arith

  fire_ended : e.remove ≡ false → is_terminal d.state ≡ true → (fire e (some d) popped).0 ≡ popped
  unfolding fire
  fire_ended r t = ground arith

  fire_expiry :
      e.remove ≡ false
      → is_terminal d.state ≡ false
      → (fire e (some d) popped).0 ≡ retire expired d.expires_at e.id d popped
  unfolding fire
  fire_expiry r l = ground arith

  module _ (v : Inv m) (s : Scheduled m.opts.tombstone_grace m.drops (e ∷ es))
      (here : lookup e.id m.drops ≡ some d) where
    fire_removal-Inv : e.remove ≡ true → Inv (fire e (some d) popped).0
    fire_removal-Inv r = subst Inv (sym (fire_removal r)) (record {
      grace = v.grace;
      consistent =
          delete-Balanced e.id d m.drops m.live m.bytes v.consistent here
            (removal_terminal m.opts.tombstone_grace m.drops e es d v.grace s r here);
      scheduled = remove-Scheduled m.opts.tombstone_grace m.drops e es d v.grace s r here;
      within = record { slots = v.within.slots; bytes = v.within.bytes };
    })

    fire_ended-Inv : e.remove ≡ false → is_terminal d.state ≡ true → Inv (fire e (some d) popped).0
    fire_ended-Inv r t = subst Inv (sym (fire_ended r t)) (
        popped-Inv m es v
          (pop-Scheduled m.opts.tombstone_grace m.drops e es s r (λ f h. ground arith)))

  fire_expiry-Inv :
      Inv m
      → m.timers ≡ e ∷ es
      → lookup e.id m.drops ≡ some d
      → e.remove ≡ false
      → is_terminal d.state ≡ false
      → Inv (fire e (some d) popped).0
  unfolding retire is_terminal
  fire_expiry-Inv v h here r l =
      let w = retire-Inv expired d.expires_at e.id d m v here refl l in
      subst Inv (sym (fire_expiry r l)) (
        popped-Inv (retire expired d.expires_at e.id d m) es w (
          pop-Scheduled m.opts.tombstone_grace (retire expired d.expires_at e.id d m).drops e es
            (subst (Scheduled m.opts.tombstone_grace (retire expired d.expires_at e.id d m).drops) h
              w.scheduled)
            r
            (λ f g. ground (
              arith,
              lookup-insert e.id e.id (tombstone expired d.expires_at d) m.drops,
              bytes_eq_refl e.id,
              tombstone-state expired d.expires_at d,
            ))))

fire-Inv :
    (e : ExpiryEntry) (es : List ExpiryEntry) (m : Memory) (o : Option Drop)
    → Inv m
    → m.timers ≡ e ∷ es
    → lookup e.id m.drops ≡ o
    → Inv (fire e o (record m { timers = es })).0
fire-Inv e es m none v h here =
    let s = subst (Scheduled m.opts.tombstone_grace m.drops) h v.scheduled in
    cc (s.backed.0.1, here)
fire-Inv e es m (some d) v h here =
    let s = subst (Scheduled m.opts.tombstone_grace m.drops) h v.scheduled in
    elim (Bool-cases e.remove) [
      | inl r ↦ fire_removal-Inv e es d m v s here r
      | inr r ↦ elim (Bool-cases (is_terminal d.state)) [
        | inl t ↦ fire_ended-Inv e es d m v s here r t
        | inr l ↦ fire_expiry-Inv e es d m v h here r l
      ]
    ]

pub Move-Inv : {m n : Memory} → Move m n → Inv m → Inv n
unfolding register
Move-Inv {m} (filled at id ct d here k c fits) v = fill-Inv at id ct d m v here k c fits
Move-Inv {m} (retired s at id d here t l) v = retire-Inv s at id d m v here t l
Move-Inv (registered id chan) v = record {
  grace = v.grace;
  consistent = v.consistent;
  scheduled = v.scheduled;
  within = record { slots = v.within.slots; bytes = v.within.bytes };
}
Move-Inv {m} (fired e es h) v = fire-Inv e es m (lookup e.id m.drops) v h refl

-- Every sequence of moves keeps the invariant.
pub Moves-Inv : {m n : Memory} → Moves m n → Inv m → Inv n
Moves-Inv done v = v
Moves-Inv (more s t) v = Move-Inv t (Moves-Inv s v)

pub unregister-Inv : (id : Bytes) (chan : ℕ) (m : Memory) → Inv m → Inv (unregister id chan m)
unfolding unregister
unregister-Inv id chan m v = record {
  grace = v.grace;
  consistent = v.consistent;
  scheduled = v.scheduled;
  within = record { slots = v.within.slots; bytes = v.within.bytes };
}
