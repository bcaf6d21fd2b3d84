-- ===== src/Relay/Memory/Once.antt =====
-- Read exactly once: what `Fetch` and `Open` of internal/relay/memory.go hand out, over histories.
use burndrop.Common.{
  ℕ, Bytes, lookup-insert, bytes_eq_refl, ◌≡◌, ◌≢◌, refl, subst, true, Option, none, some, List,
  arith,
}
use burndrop.Relay.Slot.{State, fetched, opened, revoked, Hash, Drop, ok, is_terminal, tombstone}
use burndrop.Relay.Memory.{Memory, retire, get}
use burndrop.Relay.Memory.Methods.{fetch_slot, fetch, open_slot, open_reveal, revoke_slot, revoke}
use burndrop.Relay.Memory.Accounting.{tombstone-state}
use burndrop.Relay.Memory.Schedule.{All}
use burndrop.Relay.Memory.History.{Call, Allowed, Always, keep_run, run}
use burndrop.Relay.Memory.Gone.{IsGone, Other, IsGone-Kept, gone-fetch, gone-open}

-- Retiring a slot ends it.
retire-ends :
    (s : State) (at : ℕ) (id : Bytes) (d : Drop) (m : Memory)
    → is_terminal s ≡ true
    → IsGone id (retire s at id d m)
unfolding retire
retire-ends s at id d m t = record {
  ended = λ e h. ground (
    arith,
    lookup-insert id id (tombstone s at d) m.drops,
    bytes_eq_refl id,
    tombstone-state s at d,
  );
}

module _ (now at : ℕ) (id : Bytes) (token : Hash) (m : Memory) where
  fetch-IsGone :
      (r : Bytes × ℕ) → (fetch now at id token m).0 ≡ ok r → IsGone id (fetch now at id token m).1
  unfolding fetch fetch_slot is_terminal
  fetch-IsGone r h = go (get now id m).0 h
    where
      go :
          (o : Option Drop)
          → (fetch_slot at id token o (get now id m).1).0 ≡ ok r
          → IsGone id (fetch_slot at id token o (get now id m).1).1
      go none e = ground arith
      go (some d) e =
          subst (IsGone id) (ground arith) (retire-ends fetched at id d (get now id m).1 refl)

  open-IsGone :
      (r : Bytes × ℕ)
      → (open_reveal now at id token m).0 ≡ ok r
      → IsGone id (open_reveal now at id token m).1
  unfolding open_reveal open_slot is_terminal
  open-IsGone r h = go (get now id m).0 h
    where
      go :
          (o : Option Drop)
          → (open_slot at id token o (get now id m).1).0 ≡ ok r
          → IsGone id (open_slot at id token o (get now id m).1).1
      go none e = ground arith
      go (some d) e =
          subst (IsGone id) (ground arith) (retire-ends opened at id d (get now id m).1 refl)

  revoke-IsGone : (revoke now at id token m).0 ≡ ok tt → IsGone id (revoke now at id token m).1
  unfolding revoke revoke_slot is_terminal
  revoke-IsGone h = go (get now id m).0 h
    where
      go :
          (o : Option Drop)
          → (revoke_slot at id token o (get now id m).1).0 ≡ ok tt
          → IsGone id (revoke_slot at id token o (get now id m).1).1
      go none e = ground arith
      go (some d) e =
          subst (IsGone id) (ground arith) (retire-ends revoked at id d (get now id m).1 refl)

-- Nobody reads the slot, at any time and with any token.
abbrev pub Unreadable : Bytes → Memory → Type 0
Unreadable id m =
    (now at : ℕ) (token : Hash) (r : Bytes × ℕ)
    → ((fetch now at id token m).0 ≢ ok r) × ((open_reveal now at id token m).0 ≢ ok r)

IsGone-Unreadable : (id : Bytes) (m : Memory) → IsGone id m → Unreadable id m
IsGone-Unreadable id m g now at token r =
    (gone-fetch id now at token m g r, gone-open id now at token m g r)

-- After a fetch that succeeded, whatever calls follow, as long as no slot of the same identifier is
-- created, no fetch and no open of the slot succeeds.
pub fetch_once :
    (now at : ℕ) (id : Bytes) (token : Hash) (m : Memory) (r : Bytes × ℕ) (cs : List Call)
    → (fetch now at id token m).0 ≡ ok r
    → All (Allowed (Other id) Always) cs
    → Unreadable id (run cs (fetch now at id token m).1)
fetch_once now at id token m r cs h a =
    IsGone-Unreadable id _
      (keep_run (IsGone id) (IsGone-Kept id) cs _ a (fetch-IsGone now at id token m r h))

-- After an open that succeeded, whatever calls follow, as long as no slot of the same identifier is
-- created, no open and no fetch of the slot succeeds.
pub open_once :
    (now at : ℕ) (id : Bytes) (token : Hash) (m : Memory) (r : Bytes × ℕ) (cs : List Call)
    → (open_reveal now at id token m).0 ≡ ok r
    → All (Allowed (Other id) Always) cs
    → Unreadable id (run cs (open_reveal now at id token m).1)
open_once now at id token m r cs h a =
    IsGone-Unreadable id _
      (keep_run (IsGone id) (IsGone-Kept id) cs _ a (open-IsGone now at id token m r h))

-- After a revocation that succeeded, whatever calls follow, as long as no slot of the same
-- identifier is created, the slot is never read.
pub revoke_final :
    (now at : ℕ) (id : Bytes) (token : Hash) (m : Memory) (cs : List Call)
    → (revoke now at id token m).0 ≡ ok tt
    → All (Allowed (Other id) Always) cs
    → Unreadable id (run cs (revoke now at id token m).1)
revoke_final now at id token m cs h a =
    IsGone-Unreadable id _
      (keep_run (IsGone id) (IsGone-Kept id) cs _ a (revoke-IsGone now at id token m h))
