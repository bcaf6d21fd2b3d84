-- ===== src/Relay/Memory/Sweep.antt =====
-- `Sweep`, `Stats` and `Close` of internal/relay/memory.go.
use burndrop.Common.{
  ℕ, ◌+◌, lookup, delete, not, Option, none, some, List, [], ◌∷◌, length, ltb, if◌then◌else◌,
}
use burndrop.Relay.Slot.{Drop, Stats, is_terminal}
use burndrop.Relay.Memory.{Memory, ExpiryEntry, expire}

-- One timer of `Sweep` that is due, for the slot that its id names: the store, and how many slots
-- it touched.
unfoldable pub fire : ExpiryEntry → Option Drop → Memory → Memory × ℕ
unfolding expire
fire e none m = (m, 0)
fire e (some d) m =
    if e.remove
    then (record m { drops = delete e.id m.drops; waiters = delete e.id m.waiters }, 1)
    else if not (is_terminal d.state)
    then (expire e.id d m, 1)
    else (m, 0)

-- The loop of `Sweep`: the timers left, the rest of the store, and the slots touched so far.
unfoldable pub sweep_loop : ℕ → List ExpiryEntry → Memory → ℕ → Memory × ℕ
unfolding fire
sweep_loop now [] m touched = (record m { timers = [] }, touched)
sweep_loop now (e ∷ es) m touched =
    let popped = record m { timers = es } in
    let (m', n) = fire e (lookup e.id popped.drops) popped in
    let rest = sweep_loop now es m' (touched + n) in
    if ltb now e.at then (record m { timers = e ∷ es }, touched) else rest

unfoldable pub sweep : ℕ → Memory → Memory × ℕ
unfolding sweep_loop
sweep now m = sweep_loop now m.timers m 0

unfoldable pub stats : Memory → Stats
stats m = record { live = m.live; bytes = m.bytes; total = length m.drops }

unfoldable pub close : Memory → Memory
close m = record m { drops = []; live = 0; bytes = 0 }
