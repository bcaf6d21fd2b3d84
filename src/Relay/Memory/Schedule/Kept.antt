-- ===== src/Relay/Memory/Schedule/Kept.antt =====
-- The timers of internal/relay/memory.go stay in step with the slots through every change of a slot.
use burndrop.Common.{
  ℕ, ◌+◌, ◌<◌, Bytes, Map, lookup, insert, delete, lookup-insert, lookup-delete, bytes_eq_iff,
  bytes_eq_refl, ◌≡◌, refl, Bool, true, false, none, some, List, [], ◌∷◌, arith,
}
use burndrop.Relay.Slot.{Drop, is_terminal}
use burndrop.Relay.Memory.{ExpiryEntry, push}
use burndrop.Relay.Memory.Schedule.{
  Backed, All, count, Scheduled, All-push, push-IsSorted, count-push, Backed-insert, Backed-delete,
  count-expiry_zero,
}

-- The slot of a removal that is due before every other timer has ended.
pub removal_terminal :
    (grace : ℕ) (drops : Map Drop) (e : ExpiryEntry) (es : List ExpiryEntry) (d : Drop)
    → 0 < grace
    → Scheduled grace drops (e ∷ es)
    → e.remove ≡ true
    → lookup e.id drops ≡ some d
    → is_terminal d.state ≡ true
unfolding count
removal_terminal grace drops e es d pos s r here = ground (
  arith,
  s.expiries e.id d here,
  bytes_eq_refl e.id,
  count-expiry_zero e.id d drops grace e.at es here,
  s.sorted.0,
  s.backed.1,
)

pub remove-Scheduled :
    (grace : ℕ) (drops : Map Drop) (e : ExpiryEntry) (es : List ExpiryEntry) (d : Drop)
    → 0 < grace
    → Scheduled grace drops (e ∷ es)
    → e.remove ≡ true
    → lookup e.id drops ≡ some d
    → Scheduled grace (delete e.id drops) es
unfolding count
remove-Scheduled grace drops e es d pos s r here = record {
  sorted = s.sorted.1;
  backed =
      Backed-delete e.id drops grace es (ground (arith, s.removals e.id d here, bytes_eq_refl e.id))
        (count-expiry_zero e.id d drops grace e.at es here (ground arith) s.sorted.0 s.backed.1)
        s.backed.1;
  removals = λ k f h. ground (arith, lookup-delete e.id k drops, s.removals k f);
  expiries = λ k f h l. ground (arith, lookup-delete e.id k drops, s.expiries k f);
}

-- A write over a slot, where a live slot stays scheduled.
pub write-Scheduled :
    (grace : ℕ) (drops : Map Drop) (es : List ExpiryEntry) (k : Bytes) (d f : Drop)
    → Scheduled grace drops es
    → lookup k drops ≡ some d
    → f.expires_at ≡ d.expires_at
    → (is_terminal f.state ≡ false → is_terminal d.state ≡ false)
    → Scheduled grace (insert k f drops) es
write-Scheduled grace drops es k d f s here same live = record {
  sorted = s.sorted;
  backed = Backed-insert k drops grace f (λ e h. ground arith) es s.backed;
  removals = λ j e h.
      ground
        (arith, lookup-insert k j f drops, bytes_eq_iff k j, s.removals k d here, s.removals j e);
  expiries = λ j e h l.
      ground
        (arith, lookup-insert k j f drops, bytes_eq_iff k j, s.expiries k d here, s.expiries j e);
}

-- The expiry of a slot that has ended, or ends now, is no longer needed.
pub pop-Scheduled :
    (grace : ℕ) (drops : Map Drop) (e : ExpiryEntry) (es : List ExpiryEntry)
    → Scheduled grace drops (e ∷ es)
    → e.remove ≡ false
    → ((d : Drop) → lookup e.id drops ≡ some d → is_terminal d.state ≡ true)
    → Scheduled grace drops es
unfolding count
pop-Scheduled grace drops e es s r ended = record {
  sorted = s.sorted.1;
  backed = s.backed.1;
  removals = λ k d h. ground (arith, s.removals k d h);
  expiries = λ k d h l. ground (arith, s.expiries k d h l, bytes_eq_iff e.id k, ended d);
}

-- A slot that is not there has no timers.
count-none :
    (k : Bytes) (r : Bool) (drops : Map Drop) (grace : ℕ) (es : List ExpiryEntry)
    → lookup k drops ≡ none
    → All (Backed drops grace) es
    → count k r es ≡ 0
unfolding count
count-none k r drops grace [] new b = refl
count-none k r drops grace (e ∷ es) new b =
    ground (arith, bytes_eq_iff e.id k, count-none k r drops grace es new b.1)

-- Two timers start with a slot.
pub add-Scheduled :
    (grace : ℕ) (drops : Map Drop) (es : List ExpiryEntry) (d : Drop)
    → Scheduled grace drops es
    → lookup d.id drops ≡ none
    → is_terminal d.state ≡ false
    → Scheduled grace (insert d.id d drops) (
        push
          (record { at = d.expires_at + grace; id = d.id; remove = true })
          (push (record { at = d.expires_at; id = d.id; remove = false }) es))
unfolding count
add-Scheduled grace drops es d s new live = record {
  sorted = push-IsSorted removal (push expiry es) (push-IsSorted expiry es s.sorted);
  backed =
      All-push (Backed drops' grace) removal (push expiry es) (d, here, refl)
        (All-push (Backed drops' grace) expiry es (d, here, refl)
          (Backed-insert d.id drops grace d (λ e h. cc (new, h)) es s.backed));
  removals = λ k e h. ground (
    arith,
    lookup-insert d.id k d drops,
    bytes_eq_iff d.id k,
    count-push k true removal (push expiry es),
    count-push k true expiry es,
    count-none k true drops grace es,
    s.backed,
    s.removals k e,
  );
  expiries = λ k e h l. ground (
    arith,
    lookup-insert d.id k d drops,
    bytes_eq_iff d.id k,
    count-push k false removal (push expiry es),
    count-push k false expiry es,
    count-none k false drops grace es,
    s.backed,
    s.expiries k e,
  );
}
  where
    expiry : ExpiryEntry
    expiry = record { at = d.expires_at; id = d.id; remove = false }

    removal : ExpiryEntry
    removal = record { at = d.expires_at + grace; id = d.id; remove = true }

    drops' : Map Drop
    drops' = insert d.id d drops

    here : lookup d.id drops' ≡ some d
    here = rw (lookup-insert, bytes_eq_refl d.id)
