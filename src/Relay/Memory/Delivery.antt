-- ===== src/Relay/Memory/Delivery.antt =====
-- What `Fetch` of internal/relay/memory.go delivers is what `Upload` stored.
use burndrop.Common.{
  ℕ, Bytes, lookup, lookup-insert, lookup-delete, bytes_eq_iff, bytes_eq_refl, ◌≡◌, refl, subst,
  ◌∙◌, true, false, Option, none, some, List, arith, inl, inr, ◌⊎◌, Option-cases,
}
use burndrop.Relay.Slot.{
  State, uploaded, expired, Hash, Drop, ok, is_created, is_terminal, tombstone,
}
use burndrop.Relay.Memory.{Memory, ExpiryEntry, add, retire, get}
use burndrop.Relay.Memory.Methods.{fetch_slot, fetch, upload_slot, upload, fill}
use burndrop.Relay.Memory.LongPoll.{register, unregister}
use burndrop.Relay.Memory.Sweep.{fire}
use burndrop.Relay.Memory.Accounting.{tombstone-state}
use burndrop.Relay.Memory.Schedule.{All}
use burndrop.Relay.Memory.Moves.{Move, filled, retired, registered, fired, lookup-get, get-Moves}
use burndrop.Relay.Memory.History.{Call, Kept, Allowed, Always, keep_run, keep_moves, run}
use burndrop.Relay.Memory.Gone.{Other}

-- The slot is as it was, or it has ended.
pub record Holds (id : Bytes) (d : Drop) (m : Memory) : Type 0 where
  pub at_id : (e : Drop) → lookup id m.drops ≡ some e → (e ≡ d) ⊎ (is_terminal e.state ≡ true)

module _ (id : Bytes) (d : Drop) (full : is_created d.state ≡ false) where
  retire-Holds :
      (s : State) (at : ℕ) (k : Bytes) (f : Drop) (m : Memory)
      → is_terminal s ≡ true
      → Holds id d m
      → Holds id d (retire s at k f m)
  unfolding retire
  retire-Holds s at k f m t g = record {
    at_id = λ e h.
        ground
          (arith, lookup-insert k id (tombstone s at f) m.drops, tombstone-state s at f, g.at_id e);
  }

  fill-Holds :
      (at : ℕ) (k ct : Bytes) (f : Drop) (m : Memory)
      → lookup k m.drops ≡ some f
      → is_created f.state ≡ true
      → Holds id d m
      → Holds id d (fill at k ct f m)
  unfolding fill is_created is_terminal
  fill-Holds at k ct f m here c g = record {
    at_id = λ e h. ground (
      arith,
      lookup-insert k id (record f { ciphertext = ct; state = uploaded; uploaded_at = at }) m.drops,
      bytes_eq_iff k id,
      g.at_id f,
      g.at_id e,
    );
  }

  fire-Holds :
      (e : ExpiryEntry) (o : Option Drop) (m : Memory) → Holds id d m → Holds id d (fire e o m).0
  unfolding fire retire is_terminal
  fire-Holds e none m g = g
  fire-Holds e (some f) m g = record {
    at_id = λ x p. ground (
      arith,
      lookup-delete e.id id m.drops,
      lookup-insert e.id id (tombstone expired f.expires_at f) m.drops,
      tombstone-state expired f.expires_at f,
      g.at_id x,
    );
  }

  Move-Holds : {m n : Memory} → Move m n → Holds id d m → Holds id d n
  unfolding register
  Move-Holds {m} (filled at k ct f here kind c fits) g = fill-Holds at k ct f m here c g
  Move-Holds {m} (retired s at k f here t l) g = retire-Holds s at k f m t g
  Move-Holds (registered k chan) g = record { at_id = g.at_id }
  Move-Holds {m} (fired e es h) g =
      fire-Holds e (lookup e.id m.drops) (record m { timers = es }) (record { at_id = g.at_id })

  Holds-Kept : Kept (Holds id d) (Other id) Always
  unfolding add unregister
  Holds-Kept = record {
    by_move = Move-Holds;
    by_add = λ f m n free room g. record {
      at_id = λ e h. ground (arith, lookup-insert f.id id f m.drops, g.at_id e);
    };
    by_end = λ k chan m a g. record { at_id = g.at_id };
  }

  -- A fetch that succeeds on such a slot delivers its ciphertext and the time of its upload.
  fetch-Holds :
      (now at : ℕ) (token : Hash) (m : Memory) (r : Bytes × ℕ)
      → Holds id d m
      → (fetch now at id token m).0 ≡ ok r
      → r ≡ (d.ciphertext, d.uploaded_at)
  unfolding fetch fetch_slot
  fetch-Holds now at token m r g h = elim (Option-cases (get now id m).0) [
    | inl miss ↦ ground arith
    | inr (e, hit) ↦ ground (
      arith,
      (keep_moves (Holds id d) Holds-Kept (get-Moves now id m) g).at_id e
          (lookup-get now id m ∙ hit),
    )
  ]

fill-Holds_self :
    (at : ℕ) (id ct : Bytes) (d : Drop) (m : Memory)
    → Holds id
        (record d { ciphertext = ct; state = uploaded; uploaded_at = at })
        (fill at id ct d m)
unfolding fill
fill-Holds_self at id ct d m = record {
  at_id = λ e h. ground (
    arith,
    lookup-insert id id (record d { ciphertext = ct; state = uploaded; uploaded_at = at }) m.drops,
    bytes_eq_refl id,
  );
}

-- The slot that a successful upload leaves.
upload-Holds :
    (now at : ℕ) (id : Bytes) (token : Hash) (commitment ct : Bytes) (m : Memory)
    → (upload now at id token commitment ct m).0 ≡ ok tt
    → (d : Drop) × (is_created d.state ≡ false)
      × (d.ciphertext ≡ ct)
      × (d.uploaded_at ≡ at)
      × Holds id d (upload now at id token commitment ct m).1
unfolding upload upload_slot is_created
upload-Holds now at id token commitment ct m h = go (get now id m).0 h
  where
    m' : Memory
    m' = (get now id m).1

    go :
        (o : Option Drop)
        → (upload_slot at id token commitment ct o m').0 ≡ ok tt
        → (d : Drop) × (is_created d.state ≡ false)
          × (d.ciphertext ≡ ct)
          × (d.uploaded_at ≡ at)
          × Holds id d (upload_slot at id token commitment ct o m').1
    go none e = ground arith
    go (some d) e = (
      record d { ciphertext = ct; state = uploaded; uploaded_at = at },
      refl,
      refl,
      refl,
      subst (Holds id _) (ground arith) (fill-Holds_self at id ct d m'),
    )

-- After an upload that succeeded, whatever calls follow, as long as no slot of the same identifier
-- is created, a fetch that succeeds returns the uploaded bytes and the time of the upload.
pub fetch-upload :
    (now at now' at' : ℕ) (id : Bytes) (token token' : Hash) (commitment ct : Bytes) (m : Memory)
    (cs : List Call) (r : Bytes × ℕ)
    → (upload now at id token commitment ct m).0 ≡ ok tt
    → All (Allowed (Other id) Always) cs
    → (fetch now' at' id token' (run cs (upload now at id token commitment ct m).1)).0 ≡ ok r
    → r ≡ (ct, at)
fetch-upload now at now' at' id token token' commitment ct m cs r h a e =
    let (d, full, c, u, holds) = upload-Holds now at id token commitment ct m h in
    ground (
      arith,
      fetch-Holds id d full now' at' token' _ r
          (keep_run (Holds id d) (Holds-Kept id d full) cs _ a holds) e,
    )
