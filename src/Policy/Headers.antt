-- ===== src/Policy/Headers.antt =====
-- The addresses in the headers of IP packets.
use mathlib.Core.Path.{subst}
use liteway.Common.{
  sym, ℕ, suc, ◌/◌, ◌^◌, ◌<◌, ◌≡◌, ap, ◌∙◌, ◌↔◌, true, some, List, ◌∷◌, ◌++◌, arith, leb, length,
  drop, length-append, drop_exact, drop_more,
}
use liteway.Common.Bytes.{be_bytes, from_be-be_bytes}
use liteway.Net.{IpAddr, v4, v6, IpNetworks}
use liteway.Routes.Longest.{In}
use liteway.Peer.{PeerState}
use liteway.Policy.{
  parse_source_ip, parse_dest_ip, peer_allows_ip_packet_source, from_routes, authorized_peer_routes,
}
use liteway.Policy.Grants.{any_iff, Authorized, authorized_peer_routes_iff}

-- The source of an IPv4 packet is in the bytes 12 to 15 and its destination in the bytes 16 to 19,
-- highest byte first, whatever else the packet holds.
pub parse_ip_v4 :
    (b : ℕ) (front : List ℕ) (source dest : ℕ) (rest : List ℕ)
    → b / 16 ≡ 4
    → length front ≡ 11
    → source < 2 ^ 32
    → dest < 2 ^ 32
    → let packet = b ∷ (front ++ (be_bytes 4 source ++ (be_bytes 4 dest ++ rest))) in
      (parse_source_ip packet ≡ some (v4 source)) × (parse_dest_ip packet ≡ some (v4 dest))
unfolding parse_source_ip parse_dest_ip
parse_ip_v4 b front source dest rest ver l hs hd =
    let tail = be_bytes 4 dest ++ rest in
    let packet = b ∷ (front ++ (be_bytes 4 source ++ tail)) in
    let long : leb 20 (length packet) ≡ true =
      ground (arith, length-append front (be_bytes 4 source ++ tail)) in
    let at_source : drop 12 packet ≡ be_bytes 4 source ++ tail =
      drop_exact 12 (b ∷ front) (be_bytes 4 source ++ tail) (ap suc l) in
    let at_dest : drop 16 packet ≡ tail = drop_more 12 4 packet ∙ ap (drop 4) at_source in
    rw (ver, long, at_source, at_dest)
      (
        ap (λ x. some (v4 x)) (from_be-be_bytes 4 source hs),
        ap (λ x. some (v4 x)) (from_be-be_bytes 4 dest hd),
      )

-- The source of an IPv6 packet is in the bytes 8 to 23 and its destination in the bytes 24 to 39,
-- highest byte first, whatever else the packet holds.
pub parse_ip_v6 :
    (b : ℕ) (front : List ℕ) (source dest : ℕ) (rest : List ℕ)
    → b / 16 ≡ 6
    → length front ≡ 7
    → source < 2 ^ 128
    → dest < 2 ^ 128
    → let packet = b ∷ (front ++ (be_bytes 16 source ++ (be_bytes 16 dest ++ rest))) in
      (parse_source_ip packet ≡ some (v6 source)) × (parse_dest_ip packet ≡ some (v6 dest))
unfolding parse_source_ip parse_dest_ip
parse_ip_v6 b front source dest rest ver l hs hd =
    let tail = be_bytes 16 dest ++ rest in
    let packet = b ∷ (front ++ (be_bytes 16 source ++ tail)) in
    let long : leb 40 (length packet) ≡ true =
      ground (arith, length-append front (be_bytes 16 source ++ tail)) in
    let at_source : drop 8 packet ≡ be_bytes 16 source ++ tail =
      drop_exact 8 (b ∷ front) (be_bytes 16 source ++ tail) (ap suc l) in
    let at_dest : drop 24 packet ≡ tail = drop_more 8 16 packet ∙ ap (drop 16) at_source in
    rw (ver, long, at_source, at_dest)
      (
        ap (λ x. some (v6 x)) (from_be-be_bytes 16 source hs),
        ap (λ x. some (v6 x)) (from_be-be_bytes 16 dest hd),
      )

-- An IP packet and the source that its header names.
pub data HasSource : List ℕ → IpAddr → Type 0 where
  in_v4 :
      (b : ℕ) (front : List ℕ) (source dest : ℕ) (rest : List ℕ)
      → b / 16 ≡ 4
      → length front ≡ 11
      → source < 2 ^ 32
      → dest < 2 ^ 32
      → HasSource (b ∷ (front ++ (be_bytes 4 source ++ (be_bytes 4 dest ++ rest)))) (v4 source)
  in_v6 :
      (b : ℕ) (front : List ℕ) (source dest : ℕ) (rest : List ℕ)
      → b / 16 ≡ 6
      → length front ≡ 7
      → source < 2 ^ 128
      → dest < 2 ^ 128
      → HasSource (b ∷ (front ++ (be_bytes 16 source ++ (be_bytes 16 dest ++ rest)))) (v6 source)

HasSource-parse_source_ip :
    (packet : List ℕ) (src : IpAddr) → HasSource packet src → parse_source_ip packet ≡ some src
HasSource-parse_source_ip _ _ (in_v4 b front source dest rest ver l hs hd) =
    (parse_ip_v4 b front source dest rest ver l hs hd).0
HasSource-parse_source_ip _ _ (in_v6 b front source dest rest ver l hs hd) =
    (parse_ip_v6 b front source dest rest ver l hs hd).0

module _ (n : IpNetworks) where
  open n use {Net, contains}

  -- A packet whose header names a source is let in from a peer, who has the routes that its
  -- certificate gives, exactly when some network that the certificate authorizes contains the source:
  -- the bytes 12 to 15 of an IPv4 packet, or 8 to 23 of an IPv6 packet, highest first.
  pub peer_allows_ip_packet_source_iff :
      (peer : PeerState Net) (packet : List ℕ) (src : IpAddr)
      → peer.routes ≡ authorized_peer_routes n peer.cert
      → HasSource packet src
      → (peer_allows_ip_packet_source n peer packet ≡ true)
        ↔ ((route : Net) × Authorized n peer.cert route × (contains route src ≡ true))
  unfolding peer_allows_ip_packet_source
  peer_allows_ip_packet_source_iff peer packet src given has =
      let (there, back) = any_iff (λ route. contains route src) peer.routes in
      let read : parse_source_ip packet ≡ some src = HasSource-parse_source_ip packet src has in
      let granted = λ (route : Net).
        subst (λ rs. In route rs ↔ Authorized n peer.cert route) (sym given)
          (authorized_peer_routes_iff n peer.cert route) in
      (
        λ h.
            let (route, i, c) = there (ap (from_routes n peer.routes) (sym read) ∙ h) in
            (route, (granted route).0 i, c),
        λ (route, a, c). ap (from_routes n peer.routes) read ∙ back (route, (granted route).1 a, c),
      )
