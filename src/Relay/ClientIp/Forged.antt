-- ===== src/Relay/ClientIp/Forged.antt =====
-- What a client writes into X-Forwarded-For is not taken for its address (internal/relay/ratelimit.go).
use burndrop.Common.{
  ℕ, Bytes, false, List, [], ◌∷◌, ◌++◌, length, ◌==◌, inl, inr, Bool-cases, ◌≡◌, ◌≢◌, refl, ap, ◌∙◌,
  arith,
}
use burndrop.Relay.Auth.{onto_first, split_at}
use burndrop.Relay.ClientIp.{
  Net, Found, only_trusted, malformed, untrusted, or_entry, rightmost, client_ip,
}

onto_first-append :
    (c : ℕ) (p : Bytes) (ps qs : List Bytes)
    → onto_first c ((p ∷ ps) ++ qs) ≡ onto_first c (p ∷ ps) ++ qs
unfolding onto_first
onto_first-append c p ps qs = refl

-- A split text has a first part.
split_at-first : (d : ℕ) (s : Bytes) → (p : Bytes) × (ps : List Bytes) × (split_at d s ≡ p ∷ ps)
unfolding split_at onto_first
split_at-first d [] = ([], [], refl)
split_at-first d (c ∷ s) = elim (Bool-cases (c == d)) [
  | inl e ↦ rw e ([], split_at d s, refl)
  | inr e ↦ let (p, ps, same) = split_at-first d s in rw (e, same) (c ∷ p, ps, refl)
]

split_at-append : (d : ℕ) (s t : Bytes) → split_at d (s ++ (d ∷ t)) ≡ split_at d s ++ split_at d t
unfolding split_at
split_at-append d [] t = ground arith
split_at-append d (c ∷ s) t =
    let (p, ps, same) = split_at-first d s in
    let ih : split_at d (s ++ (d ∷ t)) ≡ (p ∷ ps) ++ split_at d t =
      split_at-append d s t ∙ ap (λ l. l ++ split_at d t) same in
    elim (Bool-cases (c == d)) [
      | inl e ↦ rw (e, split_at-append d s t) refl
      | inr e ↦ rw (e, ih, same) (onto_first-append c p ps (split_at d t))
    ]

module _ {Ip IpNet : Type 0} (net : Net Ip IpNet) (trusted : List IpNet) where
  or_entry-found : (p : Bytes) (o : Found) → o ≢ only_trusted → or_entry net trusted p o ≡ o
  unfolding or_entry
  or_entry-found p only_trusted h = absurd (h refl)
  or_entry-found p malformed h = refl
  or_entry-found p (untrusted ip) h = refl

  rightmost-append :
      (ps qs : List Bytes)
      → rightmost net trusted qs ≢ only_trusted
      → rightmost net trusted (ps ++ qs) ≡ rightmost net trusted qs
  unfolding rightmost
  rightmost-append [] qs h = refl
  rightmost-append (p ∷ ps) qs h =
      ap (or_entry net trusted p) (rightmost-append ps qs h)
      ∙ or_entry-found p (rightmost net trusted qs) h

  length-append_comma : (s t : Bytes) → (length (s ++ (b',' ∷ t)) == 0) ≡ false
  length-append_comma [] t = ground arith
  length-append_comma (c ∷ s) t = ground arith

  -- When the proxies' part of the header is not empty and has an entry that is not a trusted proxy, whatever
  -- stands before it in the header does not change the address.
  pub client_ip-append :
      (remote forged real : Bytes)
      → (length real == 0) ≡ false
      → rightmost net trusted (split_at b',' real) ≢ only_trusted
      → client_ip net trusted remote (forged ++ (b',' ∷ real)) ≡ client_ip net trusted remote real
  unfolding client_ip
  client_ip-append remote forged real some_text h =
      rw
        (
          length-append_comma forged real,
          some_text,
          split_at-append b',' forged real,
          rightmost-append (split_at b',' forged) (split_at b',' real) h,
        )
        refl
