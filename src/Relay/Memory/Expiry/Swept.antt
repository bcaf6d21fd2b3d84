-- ===== src/Relay/Memory/Expiry/Swept.antt =====
-- A drop whose time has passed, before and after `Sweep` of internal/relay/memory.go.
use burndrop.Common.{
  ℕ, ◌+◌, ◌≤◌, ◌<◌, Bytes, lookup, lookup-insert, lookup-delete, bytes_eq_iff, ◌≡◌, ◌⊎◌, inl, inr,
  refl, subst, ◌∙◌, ap, true, false, Option, none, some, List, [], ◌∷◌, ltb, Bool-cases,
  if◌then◌else◌, arith,
}
use burndrop.Relay.Slot.{
  expired, Hash, Drop, not_found, wrong_kind, state_error, is_drop, is_terminal, tombstone,
}
use burndrop.Relay.Memory.{Memory, StoreOptions, ExpiryEntry, retire}
use burndrop.Relay.Memory.Sweep.{fire, sweep_loop, sweep}
use burndrop.Relay.Memory.Schedule.{Scheduled}
use burndrop.Relay.Memory.Moves.{Move, fired}
use burndrop.Relay.Memory.Moves.Made.{timers-fire, Move-opts}
use burndrop.Relay.Memory.Invariant.{Inv}
use burndrop.Relay.Memory.Invariant.Fired.{Move-Inv}
use burndrop.Relay.Memory.Sweeping.{tombstone-expires_at, fire-kept, sweep_complete}
use burndrop.Relay.Memory.Expiry.{Refuses, unknown-Refuses, due-Refuses, tombstone-Refuses}

tombstone_twice :
    (f : Drop)
    → tombstone expired
        (tombstone expired f.expires_at f).expires_at
        (tombstone expired f.expires_at f)
      ≡ tombstone expired f.expires_at f
unfolding tombstone
tombstone_twice f = refl

module _ (now : ℕ) (k : Bytes) where
  -- A slot as it was, or its tombstone.
  abbrev KeptAs : Drop → Option Drop → Type 0
  KeptAs f o = (o ≡ some f) ⊎ (o ≡ some (tombstone expired f.expires_at f))

  KeptAs-tombstone :
      (f : Drop) (o : Option Drop) → KeptAs (tombstone expired f.expires_at f) o → KeptAs f o
  KeptAs-tombstone f o (inl e) = inr e
  KeptAs-tombstone f o (inr e) = inr (e ∙ ap some (tombstone_twice f))

  -- The loop keeps a slot within its grace.
  sweep_loop-KeptAs :
      (es : List ExpiryEntry) (m : Memory) (n : ℕ) (f : Drop)
      → Inv m
      → m.timers ≡ es
      → lookup k m.drops ≡ some f
      → now < f.expires_at + m.opts.tombstone_grace
      → KeptAs f (lookup k (sweep_loop now es m n).0.drops)
  unfolding sweep_loop
  sweep_loop-KeptAs [] m n f v h here grace = inl here
  sweep_loop-KeptAs (e ∷ es) m n f v h here grace =
      let m' = (fire e (lookup e.id m.drops) (record m { timers = es })).0 in
      let t = timers-fire e (lookup e.id m.drops) (record m { timers = es }) in
      let step : Move m m' = fired e es h in
      let o = ap (λ (x : StoreOptions). x.tombstone_grace) (Move-opts step) in
      let w = Move-Inv step v in
      let s = subst (Scheduled m.opts.tombstone_grace m.drops) h v.scheduled in
      elim (Bool-cases (ltb now e.at)) [
        | inl later ↦ rw later (inl here)
        | inr due ↦
            rw due
              (elim (fire-kept now k e es m (lookup e.id m.drops) f s (ground arith) refl here
                grace) [
                  | inl same ↦ sweep_loop-KeptAs es m' _ f w t same (omega (arith, o))
                  | inr (moved, d) ↦ KeptAs-tombstone f _ (
                      sweep_loop-KeptAs es m' _ (tombstone expired f.expires_at f) w t moved
                        (omega (arith, o, tombstone-expires_at f)))
                ])
      ]

  -- A timer does not change when the slot of an identifier expires.
  fire-expires_at :
      (t : ℕ) (e : ExpiryEntry) (m : Memory) (o : Option Drop) (g : Drop)
      → ((f : Drop) → lookup k m.drops ≡ some f → f.expires_at ≡ t)
      → lookup e.id m.drops ≡ o
      → lookup k (fire e o m).0.drops ≡ some g
      → g.expires_at ≡ t
  unfolding fire retire
  fire-expires_at t e m none g dated h left = dated g left
  fire-expires_at t e m (some f) g dated h left = ground (
    arith,
    dated f,
    dated g,
    lookup-delete e.id k m.drops,
    lookup-insert e.id k (tombstone expired f.expires_at f) m.drops,
    bytes_eq_iff e.id k,
    tombstone-expires_at f,
  )

  sweep_loop-expires_at :
      (t : ℕ) (es : List ExpiryEntry) (m : Memory) (n : ℕ) (g : Drop)
      → ((f : Drop) → lookup k m.drops ≡ some f → f.expires_at ≡ t)
      → lookup k (sweep_loop now es m n).0.drops ≡ some g
      → g.expires_at ≡ t
  unfolding sweep_loop
  sweep_loop-expires_at t [] m n g dated = dated g
  sweep_loop-expires_at t (e ∷ es) m n g dated = elim (Bool-cases (ltb now e.at)) [
    | inl later ↦ rw later (dated g)
    | inr due ↦ rw due (
        sweep_loop-expires_at t es _ _ g
          (λ f. fire-expires_at t e (record m { timers = es }) (lookup e.id m.drops) f dated refl))
  ]

  -- A sweep at the end of the grace removes the slot.
  swept_gone :
      (m : Memory) (d : Drop)
      → Inv m
      → lookup k m.drops ≡ some d
      → d.expires_at + m.opts.tombstone_grace ≤ now
      → lookup k (sweep now m).0.drops ≡ none
  unfolding sweep
  swept_gone m d v here late = by_lookup (lookup k (sweep now m).0.drops) refl
    where
      dated : (f : Drop) → lookup k m.drops ≡ some f → f.expires_at ≡ d.expires_at
      dated f h = cc (h, here)

      by_lookup :
          (o : Option Drop)
          → lookup k (sweep now m).0.drops ≡ o
          → lookup k (sweep now m).0.drops ≡ none
      by_lookup none e = e
      by_lookup (some g) e = absurd (
          omega (
            arith,
            (sweep_complete now m k g v e).0,
            sweep_loop-expires_at d.expires_at m.timers m 0 g dated e,
          ))

-- In a store that satisfies the invariant, a live drop whose time has passed answers fetch, upload and
-- revoke with `expired` and its expiry, and open with a wrong kind. After a sweep at any time, it
-- answers the same if the sweep came before the end of the grace period, and all four with not found if
-- the sweep came then or later.
pub expired_drop :
    (now at swept : ℕ) (id : Bytes) (token : Hash) (commitment ct : Bytes) (m : Memory) (d : Drop)
    → Inv m
    → lookup id m.drops ≡ some d
    → is_terminal d.state ≡ false
    → d.expires_at ≤ now
    → is_drop d.kind ≡ true
    → Refuses now at id token commitment ct m (state_error expired d.expires_at) wrong_kind
      × Refuses now at id token commitment ct
          (sweep swept m).0
          (if ltb swept (d.expires_at + m.opts.tombstone_grace)
            then state_error expired d.expires_at
            else not_found)
          (if ltb swept (d.expires_at + m.opts.tombstone_grace) then wrong_kind else not_found)
unfolding sweep
expired_drop now at swept id token commitment ct m d v here live late k = (
  due-Refuses now at id token commitment ct m d here live late k,
  elim (Bool-cases (ltb swept (d.expires_at + m.opts.tombstone_grace))) [
    | inl within ↦
        rw within (elim (sweep_loop-KeptAs swept id m.timers m 0 d v refl here (ground arith)) [
          | inl same ↦
              due-Refuses now at id token commitment ct (sweep swept m).0 d same live late k
          | inr ended ↦ tombstone-Refuses now at id token commitment ct (sweep swept m).0 d ended k
        ])
    | inr over ↦ rw over (
        unknown-Refuses now at id token commitment ct (sweep swept m).0
          (swept_gone swept id m d v here (ground arith)))
  ],
)
