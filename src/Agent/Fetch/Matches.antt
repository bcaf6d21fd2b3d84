-- ===== src/Agent/Fetch/Matches.antt =====
-- What an envelope must say, by the checks of `checkEnvelope` in internal/agent/agent.go.
use burndrop.Common.{
  ℕ, suc, Bytes, codes, bytes_eq, bytes_eq_iff, Bool, true, false, not, ◌&&◌, ◌||◌, some, [], ◌∷◌,
  length, ◌==◌, if◌then◌else◌, ◌≡◌, inl, inr, refl, ap, arith, Bool-cases,
}
use burndrop.Crypto.Envelope.{Envelope, valid_envelope, matches_groups, valid_secret}
use burndrop.Crypto.Text.{valid_name, valid_text, valid_retention}
use burndrop.Crypto.Sealed.{key_from_bytes}
use burndrop.Agent.Exec.{Result, done, stopped}
use burndrop.Agent.Fetch.{FetchOutput, check_envelope}
use burndrop.Agent.Records.{describe_storage}
use burndrop.Agent.World.{PendingRecord}

-- Whether a call of `Fetch` answers that it stored a value.
unfoldable pub is_stored : {W : Type 0} → Result FetchOutput × W → Bool
is_stored (done out, w) = bytes_eq out.status (codes "stored")
is_stored (stopped e, w) = false

-- An envelope that says what the request said.
pub record Matches (e : Envelope) (r : PendingRecord) : Type 0 where
  pub kind : e.kind ≡ codes "drop"
  pub name : e.name ≡ r.name
  pub fingerprint : e.fingerprint ≡ r.fingerprint
  pub retention : e.retention ≡ r.retention
  pub purpose : e.purpose ≡ r.purpose
  pub storage : e.storage ≡ describe_storage r.storage

bytes_eq-true : (a b : Bytes) → bytes_eq a b ≡ true → a ≡ b
bytes_eq-true a b h = (bytes_eq_iff a b).0 h

passed : (c x : Bool) → (if c then false else x) ≡ true → (c ≡ false) × (x ≡ true)
passed c x h = elim (Bool-cases c) [ inl t ↦ absurd (ground arith) | inr f ↦ (f, ground arith) ]

passes : (c x : Bool) → c ≡ false → x ≡ true → (if c then false else x) ≡ true
passes c x n h = ground arith

equal : (a b : Bytes) → a ≡ b → not (bytes_eq a b) ≡ false
equal a b h = ap not ((bytes_eq_iff a b).1 h)

or_equal : (c : Bool) (a b : Bytes) → a ≡ b → (not c && not (bytes_eq a b)) ≡ false
or_equal true a b h = refl
or_equal false a b h = equal a b h

same : (a b : Bytes) → not (bytes_eq a b) ≡ false → a ≡ b
same a b h = bytes_eq-true a b (ground arith)

same_unless_empty :
    (a b : Bytes)
    → (length a == 0) ≡ false
    → (not (length a == 0) && not (bytes_eq a b)) ≡ false
    → a ≡ b
same_unless_empty a b n h = bytes_eq-true a b (ground arith)

pub key_same : (k a : Bytes) → key_from_bytes k ≡ some a → a ≡ k
unfolding key_from_bytes
key_same k a h = elim (Bool-cases (length k == 32)) [
  | inl t ↦ ground arith
  | inr f ↦ absurd (ground arith)
]

suc_nonzero : (n : ℕ) → (suc n == 0) ≡ false
suc_nonzero n = ground arith

matches_groups-empty : (s : Bytes) → matches_groups 3 s ≡ true → (length s == 0) ≡ false
unfolding matches_groups
matches_groups-empty [] h = absurd cc
matches_groups-empty (c ∷ s) h = suc_nonzero (length s)

groups : (drop a b c x : Bool) → drop ≡ true → (if drop then a && b && c else x) ≡ true → b ≡ true
groups drop a b c x d h = ground arith

valid_drop-fingerprint :
    (f : Bytes → Bool) (e : Envelope)
    → valid_envelope f e ≡ true
    → e.kind ≡ codes "drop"
    → (length e.fingerprint == 0) ≡ false
unfolding valid_envelope
valid_drop-fingerprint f e h kind =
    let (v, h1) = passed (not (e.v == 1)) _ h in
    let (k, h2) =
      passed (not (bytes_eq e.kind (codes "drop") || bytes_eq e.kind (codes "reveal"))) _ h1 in
    let (g, h3) =
      passed (not (bytes_eq e.format (codes "text") || bytes_eq e.format (codes "base64"))) _ h2 in
    let (n, h4) = passed (not (valid_name e.name)) _ h3 in
    let (t, h5) = passed (not (valid_text e.purpose) || not (valid_text e.storage)) _ h4 in
    matches_groups-empty e.fingerprint (
      groups (bytes_eq e.kind (codes "drop")) (valid_retention f e.retention)
        (matches_groups 3 e.fingerprint) (valid_secret e) _
        ((bytes_eq_iff e.kind (codes "drop")).1 kind) h5)

-- The converse: an envelope that says what the request said passes.
pub matching_passes : (e : Envelope) (r : PendingRecord) → Matches e r → check_envelope e r ≡ true
unfolding check_envelope
matching_passes e r m = passes (not (bytes_eq e.kind (codes "drop"))) _ (equal _ _ m.kind) (
    passes (not (bytes_eq e.name r.name)) _ (equal _ _ m.name) (
      passes (not (length e.fingerprint == 0) && not (bytes_eq e.fingerprint r.fingerprint)) _
        (or_equal (length e.fingerprint == 0) _ _ m.fingerprint)
        (passes (not (bytes_eq e.retention r.retention)) _ (equal _ _ m.retention) (
          passes (not (bytes_eq e.purpose r.purpose)) _ (equal _ _ m.purpose) (
            passes (not (bytes_eq e.storage (describe_storage r.storage))) _ (equal _ _ m.storage)
              refl)))))

pub check_envelope-Matches :
    (f : Bytes → Bool) (e : Envelope) (r : PendingRecord)
    → valid_envelope f e ≡ true
    → check_envelope e r ≡ true
    → Matches e r
unfolding check_envelope
check_envelope-Matches f e r v h =
    let (kind, h1) = passed _ _ h in
    let (name, h2) = passed _ _ h1 in
    let (fingerprint, h3) = passed _ _ h2 in
    let (retention, h4) = passed _ _ h3 in
    let (purpose, h5) = passed _ _ h4 in
    let (storage, h6) = passed _ _ h5 in
    record {
      kind = same _ _ kind;
      name = same _ _ name;
      fingerprint =
          same_unless_empty _ _ (valid_drop-fingerprint f e v (same _ _ kind)) fingerprint;
      retention = same _ _ retention;
      purpose = same _ _ purpose;
      storage = same _ _ storage;
    }
