-- ===== src/Relay/ClientIp/Tests.antt =====
-- A client behind one proxy (internal/relay/ratelimit.go).
use burndrop.Crypto.Text.{rune_at}
use burndrop.Crypto.Trim.{trim_space}
use burndrop.Common.{Bytes, codes, bytes_eq, Option, none, some, [], ◌∷◌, ◌++◌, ◌≡◌, refl, sym, ◌∙◌}
use burndrop.Relay.ClientIp.{Net, client_ip, rightmost, untrusted}
use burndrop.Relay.Auth.{split_at}
use burndrop.Relay.ClientIp.Forged.{client_ip-append}

abbrev not_empty : Bytes → Option Bytes
not_empty [] = none
not_empty (c ∷ s) = some (c ∷ s)

-- A stand-in for the package net: every text but the empty one is an address.
abbrev texts_net : Net Bytes Bytes
texts_net = record {
  split_host = λ s. none;
  parse_ip = not_empty;
  show_ip = λ ip. ip;
  has_ip = bytes_eq;
}

abbrev real : Bytes
real = codes "1.2.3.4, 10.0.0.1"

client_ip_runs :
    client_ip texts_net (codes "10.0.0.1" ∷ []) (codes "10.0.0.1") (codes "9.9.9.9," ++ real)
    ≡ codes "1.2.3.4"
unfolding client_ip bytes_eq trim_space rune_at
client_ip_runs = refl

real_found :
    rightmost texts_net (codes "10.0.0.1" ∷ []) (split_at b',' real) ≡ untrusted (codes "1.2.3.4")
unfolding rightmost split_at trim_space rune_at bytes_eq
real_found = refl

client_ip-append_example :
    client_ip texts_net
      (codes "10.0.0.1" ∷ [])
      (codes "10.0.0.1")
      (codes "9.9.9.9" ++ (b',' ∷ real))
    ≡ client_ip texts_net (codes "10.0.0.1" ∷ []) (codes "10.0.0.1") real
client_ip-append_example =
    client_ip-append texts_net (codes "10.0.0.1" ∷ []) (codes "10.0.0.1") (codes "9.9.9.9") real
      refl (λ e. let found = sym real_found ∙ e in absurd cc)
