-- ===== src/Relay/Memory/Invariant.antt =====
-- The invariant of internal/relay/memory.go: what every move, and so every method, keeps.
pub mod Fired
use burndrop.Common.{
  ℕ, ◌+◌, ◌≤◌, ◌<◌, Bytes, lookup, delete, lookup-insert, bytes_eq_refl, ◌≡◌, refl, sym, subst,
  true, false, Option, none, some, List, ◌∷◌, arith, length, total, Bool-cases, inl, inr,
}
use burndrop.Relay.Slot.{
  State, uploaded, expired, Drop, is_drop, is_created, is_terminal, tombstone,
}
use burndrop.Relay.Memory.{Memory, StoreOptions, ExpiryEntry, new_memory, add, over, retire}
use burndrop.Relay.Memory.Methods.{fill}
use burndrop.Relay.Memory.LongPoll.{register, unregister}
use burndrop.Relay.Memory.Sweep.{fire}
use burndrop.Relay.Memory.Accounting.{
  IsSound, IsConsistent, insert-Balanced, delete-Balanced, retire-IsConsistent, tombstone-state,
}
use burndrop.Relay.Memory.Schedule.{Scheduled}
use burndrop.Relay.Memory.Schedule.Kept.{
  removal_terminal, remove-Scheduled, write-Scheduled, pop-Scheduled, add-Scheduled,
}
use burndrop.Relay.Memory.Moves.{
  IsNew, Room, Move, filled, retired, registered, fired, Moves, done, more,
}

-- A capacity of 0 is no limit.
pub record IsWithin (m : Memory) : Type 0 where
  pub slots : 0 < m.opts.max_live → m.live ≤ m.opts.max_live
  pub bytes : 0 < m.opts.max_bytes → m.bytes ≤ m.opts.max_bytes

pub record Inv (m : Memory) : Type 0 where
  pub grace : 0 < m.opts.tombstone_grace
  pub consistent : IsConsistent m
  pub scheduled : Scheduled m.opts.tombstone_grace m.drops m.timers
  pub within : IsWithin m

pub new_memory-Inv : (o : StoreOptions) → Inv (new_memory o)
unfolding new_memory lookup total
new_memory-Inv o = record {
  grace = ground arith;
  consistent = record { keyed = tt; slots = λ k d h. cc; counted = refl; sized = refl };
  scheduled = record { sorted = tt; backed = tt; removals = λ k d h. cc; expiries = λ k d h l. cc };
  within = record { slots = λ p. omega arith; bytes = λ p. omega arith };
}

tombstone-expires_at :
    (s : State) (at : ℕ) (d : Drop) → (tombstone s at d).expires_at ≡ d.expires_at
unfolding tombstone
tombstone-expires_at s at d = ground arith

retire-Inv :
    (s : State) (at : ℕ) (id : Bytes) (d : Drop) (m : Memory)
    → Inv m
    → lookup id m.drops ≡ some d
    → is_terminal s ≡ true
    → is_terminal d.state ≡ false
    → Inv (retire s at id d m)
unfolding retire
retire-Inv s at id d m v here t l = record {
  grace = v.grace;
  consistent = retire-IsConsistent s at id d m v.consistent here t l;
  scheduled =
      write-Scheduled m.opts.tombstone_grace m.drops m.timers id d (tombstone s at d) v.scheduled
        here (tombstone-expires_at s at d) (λ _. l);
  within = record {
    slots = λ p. omega (arith, v.within.slots p);
    bytes = λ p. omega (arith, v.within.bytes p);
  };
}

module _ (at : ℕ) (id ct : Bytes) (d : Drop) (m : Memory) (v : Inv m)
    (here : lookup id m.drops ≡ some d) (k : is_drop d.kind ≡ true)
    (c : is_created d.state ≡ true) where
  abbrev filled_slot : Drop
  filled_slot = record d { ciphertext = ct; state = uploaded; uploaded_at = at }

  created-live : is_terminal d.state ≡ false
  unfolding is_terminal is_created
  created-live = ground arith

  filled_slot-IsSound : IsSound id filled_slot
  unfolding is_terminal is_created
  filled_slot-IsSound = record {
    keyed = (v.consistent.slots id d here).keyed;
    emptied = λ e. cc;
    unfilled = λ p q. cc;
  }

  fill-Inv : over m.opts.max_bytes (m.bytes + length ct) ≡ false → Inv (fill at id ct d m)
  unfolding fill over is_terminal
  fill-Inv fits = record {
    grace = v.grace;
    consistent =
        insert-Balanced id filled_slot m.drops m.live m.bytes v.consistent m.live
          (m.bytes + length ct) filled_slot-IsSound (rw (here, created-live))
          (rw (here, (v.consistent.slots id d here).unfilled k c) (omega arith));
    scheduled =
        write-Scheduled m.opts.tombstone_grace m.drops m.timers id d filled_slot v.scheduled here
          refl (λ _. created-live);
    within = record { slots = v.within.slots; bytes = λ p. ground arith };
  }

module _ (d : Drop) (m : Memory) (v : Inv m) (n : IsNew d) where
  new-live : is_terminal d.state ≡ false
  unfolding is_terminal
  new-live = rw n.state

  new-IsSound : IsSound d.id d
  new-IsSound = record { keyed = refl; emptied = λ e. cc new-live; unfilled = λ k _. n.unfilled k }

  pub add-Inv : lookup d.id m.drops ≡ none → Room d m → Inv (add d m)
  unfolding add over
  add-Inv free room = record {
    grace = v.grace;
    consistent =
        insert-Balanced d.id d m.drops m.live m.bytes v.consistent (m.live + 1)
          (m.bytes + length d.ciphertext) new-IsSound (rw (free, new-live) (omega arith))
          (rw free (omega arith));
    scheduled = add-Scheduled m.opts.tombstone_grace m.drops m.timers d v.scheduled free new-live;
    within = record { slots = λ p. ground arith; bytes = λ p. ground arith };
  }

popped-Inv :
    (m : Memory) (es : List ExpiryEntry)
    → Inv m
    → Scheduled m.opts.tombstone_grace m.drops es
    → Inv (record m { timers = es })
popped-Inv m es v s = record {
  grace = v.grace;
  consistent = v.consistent;
  scheduled = s;
  within = record { slots = v.within.slots; bytes = v.within.bytes };
}
