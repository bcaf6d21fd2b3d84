-- ===== src/Relay/Memory/History.antt =====
-- Histories of the memory store: any calls of internal/relay/memory.go, one after another, as the
-- mutex orders them, and a rule for what all of them keep.
use burndrop.Common.{ℕ, Bytes, lookup, ◌≡◌, none, Bool, List, [], ◌∷◌}
use burndrop.Relay.Slot.{State, Hash, Drop}
use burndrop.Relay.Memory.{Memory, add, create}
use burndrop.Relay.Memory.Methods.{upload, fetch, open_reveal, revoke, status}
use burndrop.Relay.Memory.LongPoll.{unregister, wait_begin, wait_end}
use burndrop.Relay.Memory.Sweep.{sweep}
use burndrop.Relay.Memory.Schedule.{All}
use burndrop.Relay.Memory.Moves.{IsNew, Room, Move, Moves, done, more, create-cases}
use burndrop.Relay.Memory.Moves.Made.{
  upload-Moves, fetch-Moves, open_reveal-Moves, revoke-Moves, status-Moves, wait_begin-Moves,
  wait_end-Moves, sweep-Moves,
}
use burndrop.Relay.Memory.Invariant.{Inv, add-Inv}
use burndrop.Relay.Memory.Invariant.Fired.{Move-Inv, unregister-Inv}

pub data Call : Type 0 where
  creates : Drop → Call
  uploads : ℕ → ℕ → Bytes → Hash → Bytes → Bytes → Call
  fetches opens revokes : ℕ → ℕ → Bytes → Hash → Call
  statuses : ℕ → Bytes → Call
  wait_begins : ℕ → Bytes → State → Bool → ℕ → Call
  wait_ends : ℕ → Bytes → ℕ → Call
  sweeps : ℕ → Call

unfoldable pub step : Call → Memory → Memory
step (creates d) m = (create d m).1
step (uploads now at id token commitment ct) m = (upload now at id token commitment ct m).1
step (fetches now at id token) m = (fetch now at id token m).1
step (opens now at id token) m = (open_reveal now at id token m).1
step (revokes now at id token) m = (revoke now at id token m).1
step (statuses now id) m = (status now id m).1
step (wait_begins now id current waits chan) m = (wait_begin now id current waits chan m).1
step (wait_ends now id chan) m = (wait_end now id chan m).1
step (sweeps now) m = (sweep now m).0

unfoldable pub run : List Call → Memory → Memory
unfolding step
run [] m = m
run (c ∷ cs) m = run cs (step c m)

-- What is kept by each move, by each new slot that `New` allows, and by the end of each long poll
-- that `Ends` allows, is kept by a history of calls that are so allowed.
pub record Kept {ℓ} (P : Memory → Type ℓ) (New : Drop → Type 0) (Ends : ℕ → Type 0) : Type ℓ where
  pub by_move : {m n : Memory} → Move m n → P m → P n
  pub by_add :
      (d : Drop) (m : Memory) → New d → lookup d.id m.drops ≡ none → Room d m → P m → P (add d m)
  pub by_end : (id : Bytes) (chan : ℕ) (m : Memory) → Ends chan → P m → P (unregister id chan m)

abbrev pub Allowed : (Drop → Type 0) → (ℕ → Type 0) → Call → Type 0
Allowed New Ends (creates d) = New d
Allowed New Ends (wait_ends now id chan) = Ends chan
Allowed New Ends _ = Unit

module _ {ℓ} (P : Memory → Type ℓ) {New : Drop → Type 0} {Ends : ℕ → Type 0}
    (k : Kept P New Ends) where
  pub keep_moves : {m n : Memory} → Moves m n → P m → P n
  keep_moves done p = p
  keep_moves (more s t) p = k.by_move t (keep_moves s p)

  keep_step : (c : Call) (m : Memory) → Allowed New Ends c → P m → P (step c m)
  unfolding step
  keep_step (creates d) m a p = create-cases P d m p (λ free room. k.by_add d m a free room p)
  keep_step (uploads now at id token commitment ct) m a p =
      keep_moves (upload-Moves now at id token m commitment ct) p
  keep_step (fetches now at id token) m a p = keep_moves (fetch-Moves now at id token m) p
  keep_step (opens now at id token) m a p = keep_moves (open_reveal-Moves now at id token m) p
  keep_step (revokes now at id token) m a p = keep_moves (revoke-Moves now at id token m) p
  keep_step (statuses now id) m a p = keep_moves (status-Moves now id m) p
  keep_step (wait_begins now id current waits chan) m a p =
      keep_moves (wait_begin-Moves now id current waits chan m) p
  keep_step (wait_ends now id chan) m a p =
      keep_moves (wait_end-Moves now id chan m) (k.by_end id chan m a p)
  keep_step (sweeps now) m a p = keep_moves (sweep-Moves now m) p

  pub keep_run : (cs : List Call) (m : Memory) → All (Allowed New Ends) cs → P m → P (run cs m)
  unfolding run
  keep_run [] m a p = p
  keep_run (c ∷ cs) m a p = keep_run cs (step c m) a.1 (keep_step c m a.0 p)

abbrev pub Always : ℕ → Type 0
Always chan = Unit {0}

Inv-Kept : Kept Inv IsNew Always
Inv-Kept = record {
  by_move = Move-Inv;
  by_add = λ d m n free room v. add-Inv d m v n free room;
  by_end = λ id chan m a v. unregister-Inv id chan m v;
}

-- From any store that satisfies the invariant, every history keeps it.
pub run-Inv : (cs : List Call) (m : Memory) → All (Allowed IsNew Always) cs → Inv m → Inv (run cs m)
run-Inv = keep_run Inv Inv-Kept
