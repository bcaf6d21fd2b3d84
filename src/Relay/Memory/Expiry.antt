-- ===== src/Relay/Memory/Expiry.antt =====
-- Expiry in internal/relay/memory.go: what a slot whose time has passed still answers, and what
-- `Sweep` leaves behind.
pub mod Swept
use burndrop.Common.{
  ℕ, ◌≤◌, ◌<◌, Bytes, lookup, bytes_eq_iff, ◌≡◌, ◌≢◌, ◌↔◌, refl, true, false, none, some, arith,
  inl, inr, Bool-cases,
}
use burndrop.Relay.Slot.{
  expired, Hash, Drop, StoreError, ok, err, not_found, state_error, wrong_kind, is_drop,
  is_uploaded, is_terminal, tombstone, state_error_of,
}
use burndrop.Relay.Memory.{Memory, get, refresh, is_due, expire}
use burndrop.Relay.Memory.Methods.{
  fetch_slot, fetch, open_slot, open_reveal, revoke_slot, revoke, upload_slot, upload,
}

tombstone-expired :
    (d : Drop)
    → (is_terminal (tombstone expired d.expires_at d).state ≡ true)
      × (state_error_of (tombstone expired d.expires_at d) ≡ state_error expired d.expires_at)
      × ((tombstone expired d.expires_at d).kind ≡ d.kind)
unfolding tombstone is_terminal state_error_of
tombstone-expired d = (refl, refl, refl)

module _ (now : ℕ) (id : Bytes) (m : Memory) (d : Drop) (here : lookup id m.drops ≡ some d) where
  get_fresh : is_due now d ≡ false → get now id m ≡ (some d, m)
  unfolding get refresh
  get_fresh f = rw (here, f)

  get_due :
      is_due now d ≡ true → get now id m ≡ (some (tombstone expired d.expires_at d), expire id d m)
  unfolding get refresh
  get_due f = rw (here, f)

module _ (now at : ℕ) (id : Bytes) (token : Hash) (m : Memory) (d : Drop)
    (here : lookup id m.drops ≡ some d) where
  fetch_fresh : is_due now d ≡ false → fetch now at id token m ≡ fetch_slot at id token (some d) m
  unfolding fetch
  fetch_fresh f = rw (get_fresh now id m d here f)

  fetch_due :
      is_due now d ≡ true
      → is_drop d.kind ≡ true
      → (fetch now at id token m).0 ≡ err (state_error expired d.expires_at)
  unfolding fetch fetch_slot
  fetch_due f k = rw (get_due now id m d here f) (ground (arith, tombstone-expired d))

  -- A fetch on a drop that is not due succeeds exactly if it is uploaded and the token is right.
  fetch_slot_iff :
      is_due now d ≡ false
      → ((fetch_slot at id token (some d) m).0 ≡ ok (d.ciphertext, d.uploaded_at)) ↔ (
          (is_drop d.kind ≡ true)
          × (is_uploaded d.state ≡ true)
          × (now < d.expires_at)
          × (d.token_b ≡ token))
  unfolding fetch_slot is_uploaded is_due is_terminal
  fetch_slot_iff f = (
    λ h. ground (arith, bytes_eq_iff d.token_b token),
    λ h. ground (arith, bytes_eq_iff d.token_b token),
  )

  fetch_due-ne-ok : is_due now d ≡ true → (r : Bytes × ℕ) → (fetch now at id token m).0 ≢ ok r
  unfolding fetch fetch_slot
  fetch_due-ne-ok f r e = ground (arith, rw (get_due now id m d here f) at e, tombstone-expired d)

  -- A fetch of a known slot returns the slot's ciphertext exactly if the slot is a drop, is
  -- uploaded, has not expired, and the token is its fetch token.
  pub fetch_succeeds : ((fetch now at id token m).0 ≡ ok (d.ciphertext, d.uploaded_at)) ↔ (
      (is_drop d.kind ≡ true)
      × (is_uploaded d.state ≡ true)
      × (now < d.expires_at)
      × (d.token_b ≡ token))
  unfolding is_due is_terminal is_uploaded
  fetch_succeeds = elim (Bool-cases (is_due now d)) [
    | inl f ↦ ((λ h. absurd (fetch_due-ne-ok f (d.ciphertext, d.uploaded_at) h)), λ h. ground arith)
    | inr f ↦ rw (fetch_fresh f) (fetch_slot_iff f)
  ]

-- What the four methods answer for a slot.
abbrev pub Refuses :
    ℕ → ℕ → Bytes → Hash → Bytes → Bytes → Memory → StoreError → StoreError → Type 0
Refuses now at id token commitment ct m e opened =
    ((fetch now at id token m).0 ≡ err e)
    × ((upload now at id token commitment ct m).0 ≡ err e)
    × ((revoke now at id token m).0 ≡ err e)
    × ((open_reveal now at id token m).0 ≡ err opened)

module _ (now at : ℕ) (id : Bytes) (token : Hash) (commitment ct : Bytes) (m : Memory) where
  pub unknown-Refuses :
      lookup id m.drops ≡ none → Refuses now at id token commitment ct m not_found not_found
  unfolding fetch fetch_slot upload upload_slot revoke revoke_slot open_reveal open_slot get refresh
  unknown-Refuses gone = rw gone (refl, refl, refl, refl)

  pub due-Refuses :
      (d : Drop)
      → lookup id m.drops ≡ some d
      → is_terminal d.state ≡ false
      → d.expires_at ≤ now
      → is_drop d.kind ≡ true
      → Refuses now at id token commitment ct m (state_error expired d.expires_at) wrong_kind
  unfolding fetch fetch_slot upload upload_slot revoke revoke_slot open_reveal open_slot is_due
  due-Refuses d here l late k =
      let due : is_due now d ≡ true = ground arith in
      rw (get_due now id m d here due) (
        ground (arith, tombstone-expired d),
        ground (arith, tombstone-expired d),
        ground (arith, tombstone-expired d),
        ground (arith, tombstone-expired d),
      )

  pub tombstone-Refuses :
      (d : Drop)
      → lookup id m.drops ≡ some (tombstone expired d.expires_at d)
      → is_drop d.kind ≡ true
      → Refuses now at id token commitment ct m (state_error expired d.expires_at) wrong_kind
  unfolding fetch fetch_slot upload upload_slot revoke revoke_slot open_reveal open_slot is_due
  tombstone-Refuses d here k =
      let t = tombstone expired d.expires_at d in
      let fresh : is_due now t ≡ false = ground (arith, tombstone-expired d) in
      rw (get_fresh now id m t here fresh) (
        ground (arith, tombstone-expired d),
        ground (arith, tombstone-expired d),
        ground (arith, tombstone-expired d),
        ground (arith, tombstone-expired d),
      )
