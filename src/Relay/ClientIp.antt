-- ===== src/Relay/ClientIp.antt =====
-- `ClientIP` of internal/relay/ratelimit.go. The package net is a parameter: the host of an address, an
-- address read from text and written, and whether a network contains it.
pub mod Forged
mod Tests
use burndrop.Common.{
  ℕ, Bytes, Bool, true, false, not, ◌||◌, Option, none, some, List, [], ◌∷◌, length, ◌==◌,
  if◌then◌else◌,
}
use burndrop.Crypto.Trim.{trim_space}
use burndrop.Relay.Auth.{split_at}

pub record Net (Ip IpNet : Type 0) : Type 0 where
  pub split_host : Bytes → Option Bytes
  pub parse_ip : Bytes → Option Ip
  pub show_ip : Ip → Bytes
  pub has_ip : IpNet → Ip → Bool

-- What the loop from the right has found.
pub data Found : Type 0 where
  only_trusted : Found
  malformed : Found
  untrusted : Bytes → Found

module _ {Ip IpNet : Type 0} (net : Net Ip IpNet) where
  unfoldable pub ip_in : Ip → List IpNet → Bool
  ip_in ip [] = false
  ip_in ip (n ∷ ns) = net.has_ip n ip || ip_in ip ns

  unfoldable pub read_ip : List IpNet → Option Ip → Found
  unfolding ip_in
  read_ip trusted none = malformed
  read_ip trusted (some ip) =
      if not (ip_in ip trusted) then untrusted (net.show_ip ip) else only_trusted

  -- An entry in front of those that the loop has passed.
  unfoldable pub or_entry : List IpNet → Bytes → Found → Found
  unfolding read_ip
  or_entry trusted part only_trusted = read_ip trusted (net.parse_ip (trim_space part))
  or_entry trusted part malformed = malformed
  or_entry trusted part (untrusted ip) = untrusted ip

  unfoldable pub rightmost : List IpNet → List Bytes → Found
  unfolding or_entry
  rightmost trusted [] = only_trusted
  rightmost trusted (p ∷ ps) = or_entry trusted p (rightmost trusted ps)

  unfoldable pub address_or : Bytes → Found → Bytes
  address_or peer only_trusted = peer
  address_or peer malformed = peer
  address_or peer (untrusted ip) = ip

  unfoldable pub is_trusted : List IpNet → Option Ip → Bool
  unfolding ip_in
  is_trusted trusted none = false
  is_trusted trusted (some ip) = ip_in ip trusted

  unfoldable pub host_or : Bytes → Option Bytes → Bytes
  host_or remote none = remote
  host_or remote (some host) = host

  unfoldable pub peer_of : Bytes → Bytes
  unfolding host_or
  peer_of remote = host_or remote (net.split_host remote)

  unfoldable pub client_ip : List IpNet → Bytes → Bytes → Bytes
  unfolding peer_of is_trusted address_or rightmost split_at
  client_ip trusted remote forwarded =
      if not (is_trusted trusted (net.parse_ip (peer_of remote)))
      then peer_of remote
      else if length forwarded == 0
      then peer_of remote
      else address_or (peer_of remote) (rightmost trusted (split_at b',' forwarded))
