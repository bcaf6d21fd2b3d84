-- ===== src/Relay/Memory/Moves.antt =====
-- What the methods of internal/relay/memory.go do to the store, as a step relation: each method is
-- a sequence of the moves below, so an invariant is proved once for each move. `Create` and the
-- first step of the second half of `Wait` stand apart.
pub mod Made
use burndrop.Common.{
  ℕ, ◌+◌, Bytes, lookup, ◌≡◌, refl, sym, subst, ◌∙◌, Bool, true, false, ◌&&◌, Option, none, some,
  List, [], ◌∷◌, arith, length, ltb, leb, lookup-insert, bytes_eq_refl, Bool-cases, ◌⊎◌, inl, inr,
}
use burndrop.Relay.Slot.{
  State, created, fetched, opened, revoked, expired, Drop, Hash, is_terminal, tombstone, is_drop,
  is_created,
}
use burndrop.Relay.Memory.{
  Memory, ExpiryEntry, add, create, create_if_new, over, retire, refresh, get,
}
use burndrop.Relay.Memory.Methods.{
  fill, upload_slot, upload, fetch_slot, fetch, open_slot, open_reveal, revoke_slot, revoke, status,
}
use burndrop.Relay.Memory.LongPoll.{register, unregister, wait_slot, wait_begin, wait_end}
use burndrop.Relay.Memory.Sweep.{fire, sweep_loop, sweep}

-- What the two callers of `Create` pass: a slot in state `created`, a drop without ciphertext.
pub record IsNew (d : Drop) : Type 0 where
  pub state : d.state ≡ created
  pub unfilled : is_drop d.kind ≡ true → d.ciphertext ≡ []

pub data Move (m : Memory) : Memory → Type 0 where
  filled :
      (at : ℕ) (id ct : Bytes) (d : Drop)
      → lookup id m.drops ≡ some d
      → is_drop d.kind ≡ true
      → is_created d.state ≡ true
      → over m.opts.max_bytes (m.bytes + length ct) ≡ false
      → Move m (fill at id ct d m)
  retired :
      (s : State) (at : ℕ) (id : Bytes) (d : Drop)
      → lookup id m.drops ≡ some d
      → is_terminal s ≡ true
      → is_terminal d.state ≡ false
      → Move m (retire s at id d m)
  registered : (id : Bytes) (chan : ℕ) → Move m (register id chan m)
  fired :
      (e : ExpiryEntry) (es : List ExpiryEntry)
      → m.timers ≡ e ∷ es
      → Move m (fire e (lookup e.id m.drops) (record m { timers = es })).0

pub data Moves (m : Memory) : Memory → Type 0 where
  done : Moves m m
  more : {n p : Memory} → Moves m n → Move n p → Moves m p

pub Moves-append : {m n p : Memory} → Moves m n → Moves n p → Moves m p
Moves-append a done = a
Moves-append a (more b s) = more (Moves-append a b) s

once : {m n : Memory} → Move m n → Moves m n
once s = more done s

-- A call that leaves the store alone, or makes one move under a condition that its guards checked.
module _ {m : Memory} where
  either : {P : Type 0} (r n : Memory) → (r ≡ m) ⊎ ((r ≡ n) × P) → (P → Move m n) → Moves m r
  either r n (inl same) f = subst (Moves m) (sym same) done
  either r n (inr (moved, p)) f = subst (Moves m) (sym moved) (once (f p))

-- `Create` refuses, or adds the slot under the conditions that it checked.
abbrev pub Room : Drop → Memory → Type 0
Room d m =
    (ltb 0 m.opts.max_live && leb m.opts.max_live m.live ≡ false)
    × (over m.opts.max_bytes (m.bytes + length d.ciphertext) ≡ false)

module _ {ℓ} (P : Memory → Type ℓ) (d : Drop) (m : Memory) (refused : P m)
    (grown : lookup d.id m.drops ≡ none → Room d m → P (add d m)) where
  create_effect :
      (lookup d.id m.drops ≡ none)
      → ((create_if_new d m none).1 ≡ m) ⊎ (((create_if_new d m none).1 ≡ add d m) × Room d m)
  unfolding create_if_new
  create_effect h = ground arith

  create_if_new-cases : (o : Option Drop) → lookup d.id m.drops ≡ o → P (create_if_new d m o).1
  unfolding create_if_new
  create_if_new-cases (some e) h = refused
  create_if_new-cases none h = elim (create_effect h) [
    | inl same ↦ subst P (sym same) refused
    | inr (new, room) ↦ subst P (sym new) (grown h room)
  ]

  pub create-cases : P (create d m).1
  unfolding create
  create-cases = create_if_new-cases (lookup d.id m.drops) refl

refresh-Moves :
    (now : ℕ) (id : Bytes) (m : Memory) (o : Option Drop)
    → lookup id m.drops ≡ o
    → Moves m (refresh now id m o).1
unfolding refresh is_terminal
refresh-Moves now id m none h = done
refresh-Moves now id m (some d) h =
    either _ (retire expired d.expires_at id d m) (ground arith)
      (λ (p : is_terminal d.state ≡ false). retired expired d.expires_at id d h refl p)

pub get-Moves : (now : ℕ) (id : Bytes) (m : Memory) → Moves m (get now id m).1
unfolding get
get-Moves now id m = refresh-Moves now id m (lookup id m.drops) refl

-- What `get` returns is what the map holds when it returns.
lookup-refresh :
    (now : ℕ) (id : Bytes) (m : Memory) (o : Option Drop)
    → lookup id m.drops ≡ o
    → lookup id (refresh now id m o).1.drops ≡ (refresh now id m o).0
unfolding refresh retire
lookup-refresh now id m none h = h
lookup-refresh now id m (some d) h =
    ground (arith, lookup-insert id id (tombstone expired d.expires_at d) m.drops, bytes_eq_refl id)

pub lookup-get :
    (now : ℕ) (id : Bytes) (m : Memory) → lookup id (get now id m).1.drops ≡ (get now id m).0
unfolding get
lookup-get now id m = lookup-refresh now id m (lookup id m.drops) refl

-- The part of a method after `get`, where the slot is the one in the map.
module _ (at : ℕ) (id : Bytes) (token : Hash) (m : Memory) where
  upload_slot-Moves :
      (commitment ct : Bytes) (o : Option Drop)
      → lookup id m.drops ≡ o
      → Moves m (upload_slot at id token commitment ct o m).1
  unfolding upload_slot
  upload_slot-Moves commitment ct none h = done
  upload_slot-Moves commitment ct (some d) h =
      either
        {P = (is_drop d.kind ≡ true)
          × (is_created d.state ≡ true)
          × (over m.opts.max_bytes (m.bytes + length ct) ≡ false)}
        _ (fill at id ct d m) (ground arith) (λ p. filled at id ct d h p.0 p.1 p.2)

  fetch_slot-Moves :
      (o : Option Drop) → lookup id m.drops ≡ o → Moves m (fetch_slot at id token o m).1
  unfolding fetch_slot is_terminal
  fetch_slot-Moves none h = done
  fetch_slot-Moves (some d) h =
      either _ (retire fetched at id d m) (ground arith) (retired fetched at id d h refl)

  open_slot-Moves :
      (o : Option Drop) → lookup id m.drops ≡ o → Moves m (open_slot at id token o m).1
  unfolding open_slot is_terminal
  open_slot-Moves none h = done
  open_slot-Moves (some d) h =
      either _ (retire opened at id d m) (ground arith) (retired opened at id d h refl)

  revoke_slot-Moves :
      (o : Option Drop) → lookup id m.drops ≡ o → Moves m (revoke_slot at id token o m).1
  unfolding revoke_slot is_terminal
  revoke_slot-Moves none h = done
  revoke_slot-Moves (some d) h =
      either _ (retire revoked at id d m) (ground arith) (retired revoked at id d h refl)
