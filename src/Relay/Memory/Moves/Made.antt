-- ===== src/Relay/Memory/Moves/Made.antt =====
-- The methods of internal/relay/memory.go as sequences of moves.
use burndrop.Common.{
  ℕ, Bytes, lookup, ◌≡◌, refl, subst, ◌∙◌, Bool, Option, none, some, List, [], ◌∷◌, arith, ltb,
  Bool-cases, inl, inr,
}
use burndrop.Relay.Slot.{State, Drop, Hash}
use burndrop.Relay.Memory.{Memory, ExpiryEntry, retire}
use burndrop.Relay.Memory.Methods.{fill, upload, fetch, open_reveal, revoke, status}
use burndrop.Relay.Memory.LongPoll.{register, unregister, wait_slot, wait_begin, wait_end}
use burndrop.Relay.Memory.Sweep.{fire, sweep_loop, sweep}
use burndrop.Relay.Memory.Moves.{
  Move, filled, retired, registered, fired, Moves, done, more, Moves-append, once, either,
  get-Moves, lookup-get, upload_slot-Moves, fetch_slot-Moves, open_slot-Moves, revoke_slot-Moves,
  lookup, some,
}

module _ (now at : ℕ) (id : Bytes) (token : Hash) (m : Memory) where
  pub upload-Moves : (commitment ct : Bytes) → Moves m (upload now at id token commitment ct m).1
  unfolding upload
  upload-Moves commitment ct =
      Moves-append (get-Moves now id m)
        (upload_slot-Moves at id token _ commitment ct _ (lookup-get now id m))

  pub fetch-Moves : Moves m (fetch now at id token m).1
  unfolding fetch
  fetch-Moves =
      Moves-append (get-Moves now id m) (fetch_slot-Moves at id token _ _ (lookup-get now id m))

  pub open_reveal-Moves : Moves m (open_reveal now at id token m).1
  unfolding open_reveal
  open_reveal-Moves =
      Moves-append (get-Moves now id m) (open_slot-Moves at id token _ _ (lookup-get now id m))

  pub revoke-Moves : Moves m (revoke now at id token m).1
  unfolding revoke
  revoke-Moves =
      Moves-append (get-Moves now id m) (revoke_slot-Moves at id token _ _ (lookup-get now id m))

pub status-Moves : (now : ℕ) (id : Bytes) (m : Memory) → Moves m (status now id m).1
unfolding status
status-Moves now id m = get-Moves now id m

wait_slot-Moves :
    (id : Bytes) (current : State) (waits : Bool) (chan : ℕ) (m : Memory) (o : Option Drop)
    → Moves m (wait_slot id current waits chan o m).1
unfolding wait_slot
wait_slot-Moves id current waits chan m none = done
wait_slot-Moves id current waits chan m (some d) =
    either {P = Unit {0}} _ (register id chan m) (ground arith) (λ _. registered id chan)

pub wait_begin-Moves :
    (now : ℕ) (id : Bytes) (current : State) (waits : Bool) (chan : ℕ) (m : Memory)
    → Moves m (wait_begin now id current waits chan m).1
unfolding wait_begin
wait_begin-Moves now id current waits chan m =
    Moves-append (get-Moves now id m) (wait_slot-Moves id current waits chan _ _)

pub wait_end-Moves :
    (now : ℕ) (id : Bytes) (chan : ℕ) (m : Memory)
    → Moves (unregister id chan m) (wait_end now id chan m).1
unfolding wait_end
wait_end-Moves now id chan m = get-Moves now id (unregister id chan m)

pub timers-fire :
    (e : ExpiryEntry) (o : Option Drop) (m : Memory) → (fire e o m).0.timers ≡ m.timers
unfolding fire retire
timers-fire e none m = refl
timers-fire e (some d) m = ground arith

sweep_loop-Moves :
    (now : ℕ) (es : List ExpiryEntry) (m : Memory) (n : ℕ)
    → m.timers ≡ es
    → Moves m (sweep_loop now es m n).0
unfolding sweep_loop
sweep_loop-Moves now [] m n h = subst (λ t. Moves m (record m { timers = t })) h done
sweep_loop-Moves now (e ∷ es) m n h = elim (Bool-cases (ltb now e.at)) [
  | inl later ↦ rw later (subst (λ t. Moves m (record m { timers = t })) h done)
  | inr due ↦ rw due (
      Moves-append (once (fired e es h))
        (sweep_loop-Moves now es _ _ (timers-fire e (lookup e.id m.drops) _)))
]

pub sweep-Moves : (now : ℕ) (m : Memory) → Moves m (sweep now m).0
unfolding sweep
sweep-Moves now m = sweep_loop-Moves now m.timers m 0 refl

opts-fire : (e : ExpiryEntry) (o : Option Drop) (m : Memory) → (fire e o m).0.opts ≡ m.opts
unfolding fire retire
opts-fire e none m = refl
opts-fire e (some d) m = ground arith

pub Move-opts : {m n : Memory} → Move m n → n.opts ≡ m.opts
unfolding fill retire register
Move-opts (filled at id ct d here k c fits) = refl
Move-opts (retired s at id d here t l) = refl
Move-opts (registered id chan) = refl
Move-opts {m} (fired e es h) = opts-fire e (lookup e.id m.drops) (record m { timers = es })

-- No method changes the options.
pub Moves-opts : {m n : Memory} → Moves m n → n.opts ≡ m.opts
Moves-opts done = refl
Moves-opts (more s t) = Move-opts t ∙ Moves-opts s
