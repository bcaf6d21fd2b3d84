-- ===== src/Relay/Memory/Gone.antt =====
-- Slots of internal/relay/memory.go that have ended: they stay so, and are not handed out.
use burndrop.Common.{
  ℕ, Bytes, lookup, lookup-insert, lookup-delete, bytes_eq, bytes_eq_iff, ◌≡◌, ◌≢◌, refl, ◌∙◌, true,
  false, Option, none, some, arith, inl, inr, Option-cases,
}
use burndrop.Relay.Slot.{
  State, uploaded, expired, Hash, Drop, ok, is_created, is_terminal, tombstone,
}
use burndrop.Relay.Memory.{Memory, ExpiryEntry, add, retire, get}
use burndrop.Relay.Memory.Methods.{fetch_slot, fetch, open_slot, open_reveal, fill}
use burndrop.Relay.Memory.LongPoll.{register, unregister}
use burndrop.Relay.Memory.Sweep.{fire}
use burndrop.Relay.Memory.Accounting.{tombstone-state}
use burndrop.Relay.Memory.Moves.{Move, filled, retired, registered, fired, lookup-get, get-Moves}
use burndrop.Relay.Memory.History.{Kept, Always, keep_moves}

-- The slot is a tombstone, or no longer known.
pub record IsGone (id : Bytes) (m : Memory) : Type 0 where
  pub ended : (d : Drop) → lookup id m.drops ≡ some d → is_terminal d.state ≡ true

-- A slot of another identifier.
abbrev pub Other : Bytes → Drop → Type 0
Other id d = bytes_eq d.id id ≡ false

module _ (id : Bytes) where
  retire-IsGone :
      (s : State) (at : ℕ) (k : Bytes) (d : Drop) (m : Memory)
      → is_terminal s ≡ true
      → IsGone id m
      → IsGone id (retire s at k d m)
  unfolding retire
  retire-IsGone s at k d m t g = record {
    ended = λ e h.
        ground
          (arith, lookup-insert k id (tombstone s at d) m.drops, tombstone-state s at d, g.ended e);
  }

  fill-IsGone :
      (at : ℕ) (k ct : Bytes) (d : Drop) (m : Memory)
      → lookup k m.drops ≡ some d
      → is_created d.state ≡ true
      → IsGone id m
      → IsGone id (fill at k ct d m)
  unfolding fill is_created is_terminal
  fill-IsGone at k ct d m here c g = record {
    ended = λ e h. ground (
      arith,
      lookup-insert k id (record d { ciphertext = ct; state = uploaded; uploaded_at = at }) m.drops,
      bytes_eq_iff k id,
      g.ended d,
      g.ended e,
    );
  }

  fire-IsGone :
      (e : ExpiryEntry) (o : Option Drop) (m : Memory)
      → lookup e.id m.drops ≡ o
      → IsGone id m
      → IsGone id (fire e o m).0
  unfolding fire retire is_terminal
  fire-IsGone e none m h g = g
  fire-IsGone e (some d) m h g = record {
    ended = λ f p. ground (
      arith,
      lookup-delete e.id id m.drops,
      lookup-insert e.id id (tombstone expired d.expires_at d) m.drops,
      tombstone-state expired d.expires_at d,
      g.ended f,
    );
  }

  Move-IsGone : {m n : Memory} → Move m n → IsGone id m → IsGone id n
  unfolding register
  Move-IsGone {m} (filled at k ct d here kind c fits) g = fill-IsGone at k ct d m here c g
  Move-IsGone {m} (retired s at k d here t l) g = retire-IsGone s at k d m t g
  Move-IsGone (registered k chan) g = record { ended = g.ended }
  Move-IsGone {m} (fired e es h) g =
      fire-IsGone e (lookup e.id m.drops) (record m { timers = es }) refl
        (record { ended = g.ended })

  pub IsGone-Kept : Kept (IsGone id) (Other id) Always
  unfolding add unregister
  IsGone-Kept = record {
    by_move = Move-IsGone;
    by_add = λ d m n free room g. record {
      ended = λ e h. ground (arith, lookup-insert d.id id d m.drops, g.ended e);
    };
    by_end = λ k chan m a g. record { ended = g.ended };
  }

  get-ended :
      (now : ℕ) (m : Memory)
      → IsGone id m
      → (d : Drop) → (get now id m).0 ≡ some d
      → is_terminal d.state ≡ true
  get-ended now m g d h =
      (keep_moves (IsGone id) IsGone-Kept (get-Moves now id m) g).ended d (lookup-get now id m ∙ h)

  -- What is gone is not handed out.
  pub gone-fetch :
      (now at : ℕ) (token : Hash) (m : Memory)
      → IsGone id m
      → (r : Bytes × ℕ) → (fetch now at id token m).0 ≢ ok r
  unfolding fetch fetch_slot
  gone-fetch now at token m g r e = elim (Option-cases (get now id m).0) [
    | inl miss ↦ ground arith
    | inr (d, hit) ↦ ground (arith, get-ended now m g d hit)
  ]

  pub gone-open :
      (now at : ℕ) (token : Hash) (m : Memory)
      → IsGone id m
      → (r : Bytes × ℕ) → (open_reveal now at id token m).0 ≢ ok r
  unfolding open_reveal open_slot
  gone-open now at token m g r e = elim (Option-cases (get now id m).0) [
    | inl miss ↦ ground arith
    | inr (d, hit) ↦ ground (arith, get-ended now m g d hit)
  ]
