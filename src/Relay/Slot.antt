-- ===== src/Relay/Slot.antt =====
-- internal/relay/types.go: slots, their states and the errors of a store. A time is a number of
-- nanoseconds, and 0 is Go's zero time.
use burndrop.Common.{ℕ, Bytes, Bool, true, false, [], replicate}

pub data Kind : Type 0 where
  drop reveal : Kind

pub data State : Type 0 where
  created uploaded fetched opened revoked expired : State

pub Kind-discrete : Discrete Kind
Kind-discrete = hlevel

unfoldable pub is_drop : Kind → Bool
is_drop drop = true
is_drop reveal = false

unfoldable pub is_created : State → Bool
is_created created = true
is_created _ = false

unfoldable pub is_uploaded : State → Bool
is_uploaded uploaded = true
is_uploaded _ = false

-- Go's comparison of two states.
unfoldable pub state_eq : State → State → Bool
state_eq created created = true
state_eq uploaded uploaded = true
state_eq fetched fetched = true
state_eq opened opened = true
state_eq revoked revoked = true
state_eq expired expired = true
state_eq _ _ = false

unfoldable pub is_terminal : State → Bool
is_terminal fetched = true
is_terminal opened = true
is_terminal revoked = true
is_terminal expired = true
is_terminal _ = false

-- A SHA-256 digest.
abbrev pub Hash : Type 0
Hash = Bytes

abbrev pub zero_hash : Hash
zero_hash = replicate 32 0

pub record Drop : Type 0 where
  pub id : Bytes
  pub kind : Kind
  pub state : State
  pub ciphertext : Bytes
  pub commitment : Bytes
  pub token_a : Hash
  pub token_b : Hash
  pub agent_key_id : Bytes
  pub created_at : ℕ
  pub expires_at : ℕ
  pub uploaded_at : ℕ
  pub fetched_at : ℕ
  pub revoked_at : ℕ

pub record Status : Type 0 where
  pub id : Bytes
  pub kind : Kind
  pub state : State
  pub created_at : ℕ
  pub expires_at : ℕ
  pub uploaded_at : ℕ
  pub fetched_at : ℕ
  pub revoked_at : ℕ

pub record Stats : Type 0 where
  pub live : ℕ
  pub bytes : ℕ
  pub total : ℕ

pub data StoreError : Type 0 where
  not_found bad_token commitment_mismatch full wrong_kind : StoreError
  state_error : State → ℕ → StoreError

pub data Result {ℓ} (A : Type ℓ) : Type ℓ where
  ok : A → Result A
  err : StoreError → Result A

unfoldable pub status_of : Drop → Status
status_of d = record {
  id = d.id;
  kind = d.kind;
  state = d.state;
  created_at = d.created_at;
  expires_at = d.expires_at;
  uploaded_at = d.uploaded_at;
  fetched_at = d.fetched_at;
  revoked_at = d.revoked_at;
}

-- When the slot entered its state.
unfoldable pub entered_at : Drop → State → ℕ
entered_at d created = d.created_at
entered_at d uploaded = d.uploaded_at
entered_at d fetched = d.fetched_at
entered_at d opened = d.fetched_at
entered_at d revoked = d.revoked_at
entered_at d expired = d.expires_at

unfoldable pub state_error_of : Drop → StoreError
unfolding entered_at
state_error_of d = state_error d.state (entered_at d d.state)

-- The second switch of `tombstone`: which timestamp the new state sets.
unfoldable pub stamp : State → ℕ → Drop → Drop
stamp fetched at d = record d { fetched_at = at }
stamp opened at d = record d { fetched_at = at }
stamp revoked at d = record d { revoked_at = at }
stamp _ at d = d

unfoldable pub tombstone : State → ℕ → Drop → Drop
unfolding stamp
tombstone s at d = stamp s at (record d {
  ciphertext = [];
  commitment = [];
  token_a = zero_hash;
  token_b = zero_hash;
  state = s;
})
