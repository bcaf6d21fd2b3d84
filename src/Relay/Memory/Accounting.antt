-- ===== src/Relay/Memory/Accounting.antt =====
-- The counters `live` and `bytes` of internal/relay/memory.go against the slots of the map.
use burndrop.Common.{
  ℕ, ◌+◌, ◌-◌, ◌≤◌, Bytes, Map, lookup, insert, delete, total, weight, Keyed, lookup-insert,
  lookup-delete, total-insert, total-delete, weight-le-total, Keyed-insert, Keyed-delete, ◌≡◌, true,
  false, some, [], arith, length, bytes_eq_iff, if◌then◌else◌,
}
use burndrop.Relay.Slot.{State, Drop, is_drop, is_created, is_terminal, tombstone}
use burndrop.Relay.Memory.{Memory, retire}

abbrev pub live_weight : Drop → ℕ
live_weight d = if is_terminal d.state then 0 else 1

abbrev pub byte_weight : Drop → ℕ
byte_weight d = length d.ciphertext

-- A slot stands under its own identifier, and a tombstone or a drop before its upload holds no
-- ciphertext.
pub record IsSound (k : Bytes) (d : Drop) : Type 0 where
  pub keyed : d.id ≡ k
  pub emptied : is_terminal d.state ≡ true → d.ciphertext ≡ []
  pub unfilled : is_drop d.kind ≡ true → is_created d.state ≡ true → d.ciphertext ≡ []

pub record Balanced (drops : Map Drop) (live bytes : ℕ) : Type 0 where
  pub keyed : Keyed drops
  pub slots : (k : Bytes) (d : Drop) → lookup k drops ≡ some d → IsSound k d
  pub counted : live ≡ total live_weight drops
  pub sized : bytes ≡ total byte_weight drops

abbrev pub IsConsistent : Memory → Type 0
IsConsistent m = Balanced m.drops m.live m.bytes

module _ (k : Bytes) (d : Drop) (drops : Map Drop) (live bytes : ℕ)
    (v : Balanced drops live bytes) where
  insert-slots :
      IsSound k d → (j : Bytes) (e : Drop) → lookup j (insert k d drops) ≡ some e → IsSound j e
  insert-slots sound j e h =
      ground (arith, lookup-insert k j d drops, bytes_eq_iff k j, v.slots j e)

  -- A write that moves the counters by what the slot under `k` gains and loses.
  pub insert-Balanced :
      (l b : ℕ)
      → IsSound k d
      → l + weight live_weight (lookup k drops) ≡ live + live_weight d
      → b + weight byte_weight (lookup k drops) ≡ bytes + byte_weight d
      → Balanced (insert k d drops) l b
  insert-Balanced l b sound hl hb = record {
    keyed = Keyed-insert k d drops v.keyed;
    slots = insert-slots sound;
    counted = omega (arith, total-insert live_weight k d drops, v.counted);
    sized = omega (arith, total-insert byte_weight k d drops, v.sized);
  }

  -- Removing a tombstone leaves the counters right.
  pub delete-Balanced :
      lookup k drops ≡ some d → is_terminal d.state ≡ true → Balanced (delete k drops) live bytes
  delete-Balanced here t = record {
    keyed = Keyed-delete k drops v.keyed;
    slots = λ j e h. ground (arith, lookup-delete k j drops, v.slots j e);
    counted = ground (arith, total-delete live_weight k drops v.keyed, v.counted);
    sized = ground (arith, total-delete byte_weight k drops v.keyed, v.sized, v.slots k d here);
  }

  -- A live slot is counted, so taking it out of the counters does not pass 0.
  live_counted :
      lookup k drops ≡ some d
      → is_terminal d.state ≡ false
      → (1 ≤ live) × (length d.ciphertext ≤ bytes)
  live_counted here l = ground (
    arith,
    rw here at (weight-le-total live_weight k drops),
    rw here at (weight-le-total byte_weight k drops),
    v.counted,
    v.sized,
  )

tombstone-IsSound :
    (k : Bytes) (s : State) (at : ℕ) (d : Drop) → d.id ≡ k → IsSound k (tombstone s at d)
unfolding tombstone
tombstone-IsSound k s at d h = record {
  keyed = ground arith;
  emptied = ground arith;
  unfilled = ground arith;
}

pub tombstone-state : (s : State) (at : ℕ) (d : Drop) → (tombstone s at d).state ≡ s
unfolding tombstone
tombstone-state s at d = ground arith

live_weight-tombstone :
    (s : State) (at : ℕ) (d : Drop) → is_terminal s ≡ true → live_weight (tombstone s at d) ≡ 0
live_weight-tombstone s at d t = rw (tombstone-state, t)

byte_weight-tombstone : (s : State) (at : ℕ) (d : Drop) → byte_weight (tombstone s at d) ≡ 0
unfolding tombstone
byte_weight-tombstone s at d = ground arith

pub retire-IsConsistent :
    (s : State) (at : ℕ) (id : Bytes) (d : Drop) (m : Memory)
    → IsConsistent m
    → lookup id m.drops ≡ some d
    → is_terminal s ≡ true
    → is_terminal d.state ≡ false
    → IsConsistent (retire s at id d m)
unfolding retire
retire-IsConsistent s at id d m v here t l =
    let fits = live_counted id d m.drops m.live m.bytes v here l in
    insert-Balanced id (tombstone s at d) m.drops m.live m.bytes v (m.live - 1)
      (m.bytes - length d.ciphertext) (tombstone-IsSound id s at d (v.slots id d here).keyed)
      (rw (here, l) (omega (arith, fits.0, live_weight-tombstone s at d t)))
      (rw here (omega (arith, fits.1, byte_weight-tombstone s at d)))
