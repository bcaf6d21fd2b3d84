-- ===== src/Relay/Memory/Wakeup/Attended.antt =====
-- A long poll of internal/relay/memory.go, through every call, until it ends.
use burndrop.Common.{
  ℕ, Bytes, lookup, delete, lookup-insert, lookup-delete, bytes_eq_iff, bytes_eq_refl, ◌≡◌, ◌≢◌,
  refl, subst, Bool, true, false, not, Option, none, some, List, arith, inl, inr, ◌==◌,
  if◌then◌else◌,
}
use burndrop.Relay.Slot.{State, uploaded, expired, Drop, state_eq, is_terminal, tombstone}
use burndrop.Relay.Memory.{Memory, ExpiryEntry, add, retire, get, notify, write}
use burndrop.Relay.Memory.Methods.{fill}
use burndrop.Relay.Memory.LongPoll.{waiting, or_empty, register, unregister, wait_slot, wait_begin}
use burndrop.Relay.Memory.Sweep.{fire}
use burndrop.Relay.Memory.Schedule.{All}
use burndrop.Relay.Memory.Moves.{Move, filled, retired, registered, fired, lookup-get}
use burndrop.Relay.Memory.History.{Call, Kept, Allowed, keep_run, run}
use burndrop.Relay.Memory.Gone.{Other}
use burndrop.Relay.Memory.Wakeup.{
  listens, woken, woken-signal, listens-signal, without-other, polls, polls-notify, polls-register,
  polls-unregister, Attends,
}

module _ (id : Bytes) (chan : ℕ) (current : State) where
  -- A write to a slot, followed by `notify`.
  notify-Attends :
      (k : Bytes) (d f : Drop) (m : Memory)
      → Attends id chan current m
      → lookup k m.drops ≡ some f
      → Attends id chan current (notify k (write k d m))
  unfolding notify write
  notify-Attends k d f m a here = record {
    listening = λ e h. ground (
      arith,
      lookup-insert k id d m.drops,
      bytes_eq_iff k id,
      polls-notify id k m.waiters,
      listens-signal chan (polls id m.waiters),
      a.listening e,
      a.listening f,
    );
    awake = λ e h. ground (
      arith,
      lookup-insert k id d m.drops,
      bytes_eq_iff k id,
      polls-notify id k m.waiters,
      woken-signal chan (polls id m.waiters),
      a.listening e,
      a.listening f,
      a.awake e,
    );
  }

  retire-Attends :
      (s : State) (at : ℕ) (k : Bytes) (d : Drop) (m : Memory)
      → lookup k m.drops ≡ some d
      → Attends id chan current m
      → Attends id chan current (retire s at k d m)
  unfolding retire
  retire-Attends s at k d m here a =
      let n = notify-Attends k (tombstone s at d) d m a here in
      record { listening = n.listening; awake = n.awake }

  fill-Attends :
      (at : ℕ) (k ct : Bytes) (d : Drop) (m : Memory)
      → lookup k m.drops ≡ some d
      → Attends id chan current m
      → Attends id chan current (fill at k ct d m)
  unfolding fill
  fill-Attends at k ct d m here a =
      let n =
        notify-Attends k (record d { ciphertext = ct; state = uploaded; uploaded_at = at }) d m a
          here in
      record { listening = n.listening; awake = n.awake }

  remove-Attends :
      (k : Bytes) (m : Memory)
      → Attends id chan current m
      → Attends id chan current
          (record m { drops = delete k m.drops; waiters = delete k m.waiters })
  unfolding or_empty
  remove-Attends k m a = record {
    listening = λ e h.
        ground (arith, lookup-delete k id m.drops, lookup-delete k id m.waiters, a.listening e);
    awake =
        λ e h. ground (arith, lookup-delete k id m.drops, lookup-delete k id m.waiters, a.awake e);
  }

  fire-Attends :
      (e : ExpiryEntry) (o : Option Drop) (m : Memory)
      → lookup e.id m.drops ≡ o
      → Attends id chan current m
      → Attends id chan current (fire e o m).0
  unfolding fire
  fire-Attends e none m h a = a
  fire-Attends e (some d) m h a = by_kind e.remove (is_terminal d.state)
    where
      by_kind :
          (r t : Bool)
          → Attends id chan current
              (if◌then◌else◌ {A = Memory × ℕ} r
                (record m { drops = delete e.id m.drops; waiters = delete e.id m.waiters }, 1)
                (if◌then◌else◌ {A = Memory × ℕ}
                  (not t)
                  (retire expired d.expires_at e.id d m, 1)
                  (m, 0))).0
      by_kind true t = remove-Attends e.id m a
      by_kind false true = a
      by_kind false false = retire-Attends expired d.expires_at e.id d m h a

  register-Attends :
      (k : Bytes) (c : ℕ) (m : Memory)
      → Attends id chan current m
      → Attends id chan current (register k c m)
  unfolding register listens woken
  register-Attends k c m a = record {
    listening = λ e h. ground (arith, polls-register id k m.waiters c, a.listening e);
    awake = λ e h. ground (arith, polls-register id k m.waiters c, a.awake e);
  }

  Move-Attends : {m n : Memory} → Move m n → Attends id chan current m → Attends id chan current n
  Move-Attends {m} (filled at k ct d here kind c fits) a = fill-Attends at k ct d m here a
  Move-Attends {m} (retired s at k d here t l) a = retire-Attends s at k d m here a
  Move-Attends {m} (registered k c) a = register-Attends k c m a
  Move-Attends {m} (fired e es h) a =
      fire-Attends e (lookup e.id m.drops) (record m { timers = es }) refl
        (record { listening = a.listening; awake = a.awake })

  -- Another long poll.
  abbrev pub Another : ℕ → Type 0
  Another c = (c == chan) ≡ false

  Attends-Kept : Kept (Attends id chan current) (Other id) Another
  unfolding add unregister
  Attends-Kept = record {
    by_move = Move-Attends;
    by_add = λ d m n free room a. record {
      listening = λ e h. ground (arith, lookup-insert d.id id d m.drops, a.listening e);
      awake = λ e h. ground (arith, lookup-insert d.id id d m.drops, a.awake e);
    };
    by_end = λ k c m b a. record {
      listening = λ e h. ground (
        arith,
        polls-unregister id k m.waiters c,
        without-other c chan (polls id m.waiters) b,
        a.listening e,
      );
      awake = λ e h. ground (
        arith,
        polls-unregister id k m.waiters c,
        without-other c chan (polls id m.waiters) b,
        a.awake e,
      );
    };
  }

state_eq-eq : (s t : State) → state_eq s t ≡ true → s ≡ t
unfolding state_eq
state_eq-eq s t h = ground arith

wait_slot-Attends :
    (id : Bytes) (current : State) (waits : Bool) (chan : ℕ) (m : Memory) (o : Option Drop)
    → lookup id m.drops ≡ o
    → (wait_slot id current waits chan o m).0 ≡ waiting
    → Attends id chan current (wait_slot id current waits chan o m).1
unfolding wait_slot register listens
wait_slot-Attends id current waits chan m none here h = cc
wait_slot-Attends id current waits chan m (some d) here h =
    subst (Attends id chan current) (ground arith) held
  where
    held : Attends id chan current (register id chan m)
    held = record {
      listening = λ e p. ground (arith, polls-register id id m.waiters chan, bytes_eq_refl id);
      awake = λ e p. ground (arith, state_eq-eq d.state current);
    }

-- A long poll that blocks is registered, in a slot of the state that it was told of.
wait_begin-Attends :
    (now : ℕ) (id : Bytes) (current : State) (waits : Bool) (chan : ℕ) (m : Memory)
    → (wait_begin now id current waits chan m).0 ≡ waiting
    → Attends id chan current (wait_begin now id current waits chan m).1
unfolding wait_begin
wait_begin-Attends now id current waits chan m h =
    wait_slot-Attends id current waits chan (get now id m).1 (get now id m).0 (lookup-get now id m)
      h

-- After a long poll blocked, whatever calls follow, as long as no slot of the same identifier is
-- created and the poll does not end: if the slot is known and its state is no longer the one that
-- the poll waits on, then the poll has been woken.
pub no_lost_wakeup :
    (now : ℕ) (id : Bytes) (current : State) (waits : Bool) (chan : ℕ) (m : Memory) (cs : List Call)
    (d : Drop)
    → (wait_begin now id current waits chan m).0 ≡ waiting
    → All (Allowed (Other id) (Another id chan current)) cs
    → lookup id (run cs (wait_begin now id current waits chan m).1).drops ≡ some d
    → d.state ≢ current
    → woken chan (polls id (run cs (wait_begin now id current waits chan m).1).waiters) ≡ true
no_lost_wakeup now id current waits chan m cs d h a here changed =
    elim ((keep_run (Attends id chan current) (Attends-Kept id chan current) cs _ a
        (wait_begin-Attends now id current waits chan m h)).awake
      d here) [ inl w ↦ w | inr same ↦ absurd (changed same) ]
