-- ===== src/Relay/Memory/Sweeping.antt =====
-- What `Sweep` of internal/relay/memory.go leaves behind, and what it does not change.
use burndrop.Common.{
  ℕ, ◌+◌, ◌≤◌, ◌<◌, Bytes, Map, lookup, lookup-insert, lookup-delete, bytes_eq_iff, ◌≡◌, refl, sym,
  subst, ◌∙◌, ap, Bool, true, false, Option, none, some, List, [], ◌∷◌, arith, ◌⊎◌, inl, inr, ltb,
  Bool-cases, if◌then◌else◌,
}
use burndrop.Relay.Slot.{expired, Drop, is_terminal, tombstone}
use burndrop.Relay.Memory.{Memory, StoreOptions, ExpiryEntry, get, refresh, is_due, retire}
use burndrop.Relay.Memory.Methods.{status, status_slot}
use burndrop.Relay.Memory.Sweep.{fire, sweep_loop, sweep}
use burndrop.Relay.Memory.Accounting.{tombstone-state}
use burndrop.Relay.Memory.Schedule.{All, Backed, Scheduled, count, From, IsSorted}
use burndrop.Relay.Memory.Moves.{Move, fired}
use burndrop.Relay.Memory.Moves.Made.{timers-fire, sweep-Moves, Moves-opts, Move-opts}
use burndrop.Relay.Memory.Invariant.{Inv}
use burndrop.Relay.Memory.Invariant.Fired.{Move-Inv, Moves-Inv}

abbrev Later : ℕ → List ExpiryEntry → Type 0
Later now es = All (λ e. now < e.at) es

From-Later : (now a : ℕ) (es : List ExpiryEntry) → now < a → From a es → Later now es
From-Later now a [] h f = tt
From-Later now a (e ∷ es) h f = (omega arith, From-Later now a es h f.1)

-- The loop stops at the first timer that is not due.
sweep_loop-Later :
    (now : ℕ) (es : List ExpiryEntry) (m : Memory) (n : ℕ)
    → IsSorted es
    → Later now (sweep_loop now es m n).0.timers
unfolding sweep_loop
sweep_loop-Later now [] m n s = tt
sweep_loop-Later now (e ∷ es) m n s = elim (Bool-cases (ltb now e.at)) [
  | inl later ↦ rw later (ground arith, From-Later now e.at es (ground arith) s.0)
  | inr due ↦ rw due (sweep_loop-Later now es _ _ s.1)
]

-- A slot with a timer among later ones is due later.
timer-Later :
    (k : Bytes) (r : Bool) (now : ℕ) (d : Drop) (drops : Map Drop) (grace : ℕ)
    (es : List ExpiryEntry)
    → lookup k drops ≡ some d
    → Later now es
    → All (Backed drops grace) es
    → count k r es ≡ 1
    → now < (if r then d.expires_at + grace else d.expires_at)
unfolding count
timer-Later k r now d drops grace [] here l b c = absurd (omega arith)
timer-Later k r now d drops grace (e ∷ es) here l b c =
    ground (arith, bytes_eq_iff e.id k, timer-Later k r now d drops grace es here l.1 b.1)

-- After a sweep of a store that satisfies the invariant, every slot that is left is within its grace
-- period, and every live one has not reached its expiry.
pub sweep_complete :
    (now : ℕ) (m : Memory) (k : Bytes) (d : Drop)
    → Inv m
    → lookup k (sweep now m).0.drops ≡ some d
    → (now < d.expires_at + m.opts.tombstone_grace)
      × ((is_terminal d.state ≡ true) ⊎ (now < d.expires_at))
unfolding sweep
sweep_complete now m k d v here =
    let n = (sweep now m).0 in
    let w = Moves-Inv (sweep-Moves now m) v in
    let late : Later now n.timers = sweep_loop-Later now m.timers m 0 v.scheduled.sorted in
    (
      omega (
        arith,
        timer-Later k true now d n.drops n.opts.tombstone_grace n.timers here late
            w.scheduled.backed (w.scheduled.removals k d here),
        ap (λ (o : StoreOptions). o.tombstone_grace) (Moves-opts (sweep-Moves now m)),
      ),
      elim (Bool-cases (is_terminal d.state)) [
        | inl t ↦ inl t
        | inr l ↦ inr (
            timer-Later k false now d n.drops n.opts.tombstone_grace n.timers here late
              w.scheduled.backed (w.scheduled.expiries k d here l))
      ],
    )

-- What `get` makes of the slot that the map holds.
abbrev aged : ℕ → Option Drop → Option Drop
aged now none = none
aged now (some d) = if is_due now d then some (tombstone expired d.expires_at d) else some d

get-aged : (now : ℕ) (k : Bytes) (m : Memory) → (get now k m).0 ≡ aged now (lookup k m.drops)
unfolding get refresh
get-aged now k m = ground arith

pub tombstone-expires_at : (d : Drop) → (tombstone expired d.expires_at d).expires_at ≡ d.expires_at
unfolding tombstone
tombstone-expires_at d = refl

module _ (now : ℕ) (k : Bytes) where
  -- A due timer leaves a slot within its grace alone, or expires it when it is due.
  pub fire-kept :
      (e : ExpiryEntry) (es : List ExpiryEntry) (m : Memory) (o : Option Drop) (f : Drop)
      → Scheduled m.opts.tombstone_grace m.drops (e ∷ es)
      → e.at ≤ now
      → lookup e.id m.drops ≡ o
      → lookup k m.drops ≡ some f
      → now < f.expires_at + m.opts.tombstone_grace
      → (lookup k (fire e o (record m { timers = es })).0.drops ≡ some f)
        ⊎ ((lookup k (fire e o (record m { timers = es })).0.drops
              ≡ some (tombstone expired f.expires_at f))
            × (is_due now f ≡ true))
  unfolding fire retire is_due
  fire-kept e es m none f s due h here grace = inl here
  fire-kept e es m (some g) f s due h here grace = ground (
    arith,
    s.backed.0,
    lookup-delete e.id k m.drops,
    lookup-insert e.id k (tombstone expired g.expires_at g) m.drops,
    bytes_eq_iff e.id k,
  )

  aged-tombstone :
      (f : Drop)
      → is_due now f ≡ true
      → aged now (some (tombstone expired f.expires_at f)) ≡ aged now (some f)
  unfolding is_due is_terminal
  aged-tombstone f h = ground (arith, tombstone-state expired f.expires_at f)

  sweep_loop-aged :
      (es : List ExpiryEntry) (m : Memory) (n : ℕ) (f : Drop)
      → Inv m
      → m.timers ≡ es
      → lookup k m.drops ≡ some f
      → now < f.expires_at + m.opts.tombstone_grace
      → aged now (lookup k (sweep_loop now es m n).0.drops) ≡ aged now (some f)
  unfolding sweep_loop
  sweep_loop-aged [] m n f v h here grace = ap (aged now) here
  sweep_loop-aged (e ∷ es) m n f v h here grace =
      let m' = (fire e (lookup e.id m.drops) (record m { timers = es })).0 in
      let t = timers-fire e (lookup e.id m.drops) (record m { timers = es }) in
      let step : Move m m' = fired e es h in
      let o = ap (λ (x : StoreOptions). x.tombstone_grace) (Move-opts step) in
      let w = Move-Inv step v in
      let s = subst (Scheduled m.opts.tombstone_grace m.drops) h v.scheduled in
      elim (Bool-cases (ltb now e.at)) [
        | inl later ↦ rw later (ap (aged now) here)
        | inr due ↦
            rw due
              (elim (fire-kept e es m (lookup e.id m.drops) f s (ground arith) refl here grace) [
                | inl same ↦ sweep_loop-aged es m' _ f w t same (omega (arith, o))
                | inr (moved, d) ↦
                    sweep_loop-aged es m' _ (tombstone expired f.expires_at f) w t moved
                      (omega (arith, o, tombstone-expires_at f))
                    ∙ aged-tombstone f d
              ])
      ]

-- In a store that satisfies the invariant, for every slot within its grace period, a status query at
-- the same time answers alike before and after a sweep.
pub status-sweep :
    (now : ℕ) (k : Bytes) (m : Memory) (d : Drop)
    → Inv m
    → lookup k m.drops ≡ some d
    → now < d.expires_at + m.opts.tombstone_grace
    → (status now k (sweep now m).0).0 ≡ (status now k m).0
unfolding status sweep
status-sweep now k m d v here grace = ap status_slot (
    get-aged now k (sweep now m).0
    ∙ sweep_loop-aged now k m.timers m 0 d v refl here grace
    ∙ ap (aged now) (sym here)
    ∙ sym (get-aged now k m))
