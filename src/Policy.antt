-- ===== src/Policy.antt =====
-- What litewayd/src/main.rs decides from certificates and from the headers of IP packets.
pub mod Grants
pub mod Headers
mod Tests
use liteway.Common.{
  ℕ, ◌-◌, ◌/◌, ◌^◌, ◌%◌, Bool, true, false, not, ◌&&◌, ◌||◌, Option, none, some, List, [], ◌∷◌,
  ◌++◌, ltb, leb, ◌==◌, if◌then◌else◌, length, take, any, ◌>>=◌,
}
use Prim.Native.Nat.{bit_or}
use liteway.Common.Bytes.{from_be}
use liteway.Crypto.{Crates}
use liteway.Net.{Text, text, text_eqb, IpAddr, v4, v6, ip_eqb, IpNetworks}
use liteway.Cert.{Cert, NodeAddresses}
use liteway.Peer.{PeerState}
use liteway.Wire.{at, slice}

-- `ROUTE_ALL_GRANT` and `ROUTE_GRANT_PREFIX`
abbrev pub route_all_grant : Text
route_all_grant = text "route:*"

abbrev pub route_grant_prefix : Text
route_grant_prefix = text "route:"

unfoldable pub node_id_from_cert : Crates → Cert → ℕ
node_id_from_cert c cert = from_be (
    take 4 (
      c.hash
        (text "liteway-node-id-v1" ++ (cert.body.keys.ed25519_pk ++ cert.body.keys.ml_dsa_pk))))

abbrev pub strip_prefix : Text → Text → Option Text
strip_prefix [] s = some s
strip_prefix (p ∷ ps) [] = none
strip_prefix (p ∷ ps) (b ∷ s) = if p == b then strip_prefix ps s else none

-- The order of `IpAddr`: IPv4 comes before IPv6.
abbrev pub ip_ltb : IpAddr → IpAddr → Bool
ip_ltb (v4 a) (v4 b) = ltb a b
ip_ltb (v4 a) (v6 b) = true
ip_ltb (v6 a) (v4 b) = false
ip_ltb (v6 a) (v6 b) = ltb a b

-- The order of the keys `(route.ip(), route.prefix())`.
abbrev pub key_ltb : IpAddr × ℕ → IpAddr × ℕ → Bool
key_ltb a b = ip_ltb a.0 b.0 || (ip_eqb a.0 b.0 && ltb a.1 b.1)

-- `first` of a slice, shifted by four bits.
abbrev pub version : List ℕ → Option ℕ
version [] = none
version (b ∷ rest) = some (b / 16)

-- The address of a packet, at one offset in each version of the header.
abbrev pub address_at : ℕ → ℕ → List ℕ → ℕ → Option IpAddr
address_at at_v4 at_v6 packet ver =
    if ver == 4 && leb 20 (length packet)
    then some (v4 (from_be (slice packet at_v4 4)))
    else if ver == 6 && leb 40 (length packet)
    then some (v6 (from_be (slice packet at_v6 16)))
    else none

unfoldable pub parse_source_ip : List ℕ → Option IpAddr
parse_source_ip packet = do ver ← version packet; address_at 12 8 packet ver

unfoldable pub parse_dest_ip : List ℕ → Option IpAddr
parse_dest_ip packet = do ver ← version packet; address_at 16 24 packet ver

-- 169.254.0.0/16 and fe80::/10, as the standard library has them.
unfoldable pub is_link_local : IpAddr → Bool
is_link_local (v4 a) = a / 2 ^ 16 == 0xa9fe
is_link_local (v6 a) = a / 2 ^ 118 == 0x3fa

abbrev pub host_prefix : IpAddr → ℕ
host_prefix (v4 a) = 32
host_prefix (v6 a) = 128

module _ (n : IpNetworks) where
  open n use {Net, contains, prefix, ip, network, make, parse, eqb}

  -- An error of `host_route` and of the next but one is only logged: it is `none` here.
  unfoldable pub host_route : Text → Option Net
  host_route addr = do net ← parse addr; make (ip net) (host_prefix (ip net))

  abbrev primary : Option NodeAddresses → Option IpAddr
  primary none = none
  primary (some addrs) = do net ← parse addrs.ip; some (ip net)

  unfoldable pub primary_cert_ip : Cert → Option IpAddr
  primary_cert_ip cert = primary cert.body.addresses

  abbrev discovered : Net → Option (Option Net)
  discovered net =
      if prefix net == 0 || leb (host_prefix (ip net)) (prefix net)
      then some none
      else (do route ← make (network net) (prefix net); some (some route))

  unfoldable pub discovery_route_from_interface_addr : Text → Option (Option Net)
  discovery_route_from_interface_addr addr = do net ← parse addr; discovered net

  -- What one group of a certificate grants.
  abbrev pub granted_by : Net → Option Net → Bool
  granted_by route none = false
  granted_by route (some granted) =
      contains granted (ip route) && leb (prefix granted) (prefix route)

  abbrev pub grants : Net → Text → Bool
  grants route group =
      if text_eqb group route_all_grant
      then true
      else granted_by route (do grant ← strip_prefix route_grant_prefix group; parse grant)

  unfoldable pub route_granted_by_cert : Cert → Net → Bool
  route_granted_by_cert cert route = any (grants route) cert.body.meta.groups

  unfoldable pub is_default_route : Net → Bool
  is_default_route route = prefix route == 0

  -- The loop over the subnets.
  abbrev pub accepted : Cert → Option Net → List Net
  accepted cert none = []
  accepted cert (some route) =
      if is_default_route route
      then []
      else if not (route_granted_by_cert cert route)
      then []
      else route ∷ []

  abbrev pub subnet_routes : Cert → List Text → List Net
  subnet_routes cert [] = []
  subnet_routes cert (subnet ∷ rest) = accepted cert (parse subnet) ++ subnet_routes cert rest

  abbrev key : Net → IpAddr × ℕ
  key route = (ip route, prefix route)

  -- `sort_by_key` is stable; `dedup` drops an item that equals the one before it.
  unfoldable pub insert_sorted : Net → List Net → List Net
  insert_sorted r [] = r ∷ []
  insert_sorted r (s ∷ rest) =
      let more = insert_sorted r rest in if key_ltb (key s) (key r) then s ∷ more else r ∷ s ∷ rest

  unfoldable pub sort_by_key : List Net → List Net
  sort_by_key [] = []
  sort_by_key (r ∷ rest) = insert_sorted r (sort_by_key rest)

  abbrev pub skip_repeat : Net → List Net → List Net
  skip_repeat r [] = r ∷ []
  skip_repeat r (s ∷ more) = if eqb r s then s ∷ more else r ∷ s ∷ more

  unfoldable pub dedup : List Net → List Net
  dedup [] = []
  dedup (r ∷ rest) = skip_repeat r (dedup rest)

  abbrev pub or_empty : Option Net → List Net
  or_empty none = []
  or_empty (some route) = route ∷ []

  abbrev pub advertised : Cert → Option NodeAddresses → List Net
  advertised cert none = []
  advertised cert (some addrs) =
      dedup (sort_by_key (or_empty (host_route addrs.ip) ++ subnet_routes cert addrs.subnets))

  unfoldable pub authorized_peer_routes : Cert → List Net
  authorized_peer_routes cert = advertised cert cert.body.addresses

  abbrev pub from_routes : List Net → Option IpAddr → Bool
  from_routes routes none = false
  from_routes routes (some src_ip) = any (λ route. contains route src_ip) routes

  unfoldable pub peer_allows_ip_packet_source : PeerState Net → List ℕ → Bool
  peer_allows_ip_packet_source peer packet = from_routes peer.routes (parse_source_ip packet)

  -- `u32::MAX >> prefix`
  abbrev host_mask : ℕ → ℕ
  host_mask p = (2 ^ 32 - 1) / 2 ^ p

  abbrev is_broadcast_of : ℕ → IpAddr → ℕ → Bool
  is_broadcast_of dst (v6 a) p = false
  is_broadcast_of dst (v4 a) p = if leb 32 p then false else dst == bit_or a (host_mask p)

  unfoldable pub is_overlay_broadcast : IpAddr → List Net → Bool
  is_overlay_broadcast (v6 a) networks = false
  is_overlay_broadcast (v4 dst) networks =
      any (λ net. is_broadcast_of dst (network net) (prefix net)) networks
