-- ===== src/Policy/Tests.antt =====
-- Two headers, the routes of one certificate, and the theorems about them.
use liteway.Common.{
  ℕ, ◌/◌, ◌^◌, ◌-◌, ◌*◌, ◌≡◌, refl, sym, ◌↔◌, Bool, true, false, ◌&&◌, Option, none, some, List, [],
  ◌∷◌, ◌++◌, arith, ◌==◌,
}
use liteway.Common.Bytes.{be_bytes}
use liteway.Net.{Text, text, IpAddr, v4, v6, ip_eqb, ip_eqb_iff, IpNetworks, SocketAddr}
use liteway.Routes.Longest.{In}
use liteway.Cert.{Cert, pos}
use liteway.Peer.{PeerState}
use liteway.Policy.{
  parse_source_ip, parse_dest_ip, is_link_local, is_overlay_broadcast, authorized_peer_routes,
  route_granted_by_cert, is_default_route, host_route, insert_sorted, sort_by_key, dedup,
  peer_allows_ip_packet_source,
}
use liteway.Policy.Grants.{Authorized, authorized_peer_routes_iff}
use liteway.Policy.Headers.{parse_ip_v4, in_v4, peer_allows_ip_packet_source_iff}

abbrev covers : IpAddr × ℕ → IpAddr → Bool
covers (v4 a, p) (v4 b) = a / 2 ^ (32 - p) == b / 2 ^ (32 - p)
covers (v4 a, p) (v6 b) = false
covers (v6 a, p) b = false

abbrev eqb_net : IpAddr × ℕ → IpAddr × ℕ → Bool
eqb_net x y = ip_eqb x.0 y.0 && x.1 == y.1

eqb_net_iff : (x y : IpAddr × ℕ) → (eqb_net x y ≡ true) ↔ (x ≡ y)
eqb_net_iff (a, p) (b, q) = ground (arith, ip_eqb_iff a b)

-- A network of IPv4 is written as its number and its prefix, two characters.
abbrev read : Text → Option (IpAddr × ℕ)
read [] = none
read (a ∷ []) = none
read (a ∷ p ∷ rest) = some (v4 a, p)

abbrev networks : IpNetworks
networks = record {
  Net = IpAddr × ℕ;
  contains = covers;
  prefix = λ x. x.1;
  ip = λ x. x.0;
  network = λ x. x.0;
  make = λ a p. some (a, p);
  parse = read;
  eqb = eqb_net;
  eqb_iff = eqb_net_iff;
}

-- The host 2560/24, a subnet that is granted, one that is not, and a default route.
abbrev cert : Cert
cert = record {
  body = record {
    meta = record {
      name = text "router";
      is_ca = false;
      not_before = pos 0;
      not_after = pos 100;
      groups = text "admin" ∷ (text "route:" ++ (512 ∷ 24 ∷ [])) ∷ [];
    };
    keys = record { ed25519_pk = []; ml_dsa_pk = [] };
    addresses = some (record {
      ip = 2560 ∷ 24 ∷ [];
      subnets = (512 ∷ 28 ∷ []) ∷ (1024 ∷ 24 ∷ []) ∷ (0 ∷ 0 ∷ []) ∷ (512 ∷ 28 ∷ []) ∷ [];
    });
  };
  signature = record { ed25519 = []; ml_dsa = [] };
}

run_of_routes : authorized_peer_routes networks cert ≡ (v4 512, 28) ∷ (v4 2560, 32) ∷ []
unfolding authorized_peer_routes route_granted_by_cert is_default_route host_route insert_sorted
    sort_by_key dedup
run_of_routes = refl

run_of_broadcast :
    (is_overlay_broadcast networks (v4 767) ((v4 512, 24) ∷ []) ≡ true)
    × (is_overlay_broadcast networks (v4 766) ((v4 512, 24) ∷ []) ≡ false)
    × (is_link_local (v4 0xa9fe0001) ≡ true)
    × (is_link_local (v6 (0xfe80 * 2 ^ 112)) ≡ true)
unfolding is_overlay_broadcast is_link_local
run_of_broadcast = (refl, refl, refl, refl)

abbrev front : List ℕ
front = 0 ∷ 0 ∷ 24 ∷ 0 ∷ 0 ∷ 0 ∷ 0 ∷ 64 ∷ 17 ∷ 0 ∷ 0 ∷ []

abbrev packet : List ℕ
packet = 0x45 ∷ (front ++ (be_bytes 4 513 ++ (be_bytes 4 767 ++ (1 ∷ 2 ∷ []))))

abbrev peer : PeerState (IpAddr × ℕ)
peer = record {
  name = [];
  cert = cert;
  tx_key = [];
  rx_key = [];
  addr = SocketAddr.v4 1 2;
  direct_addr = none;
  is_relay = false;
  tx_session_id = 1;
  rx_session_id = 2;
  tx_seq = 0;
  rx_replay = record { initialized = false; highest = 0; seen = 0 };
  last_seen = 0;
  last_ack = 0;
  routes = (v4 512, 28) ∷ (v4 2560, 32) ∷ [];
  handshake_initiator_id = 3;
  keepalive = none;
  relayed = true;
  next_probe = none;
  probe_interval = 5;
  probe_token = none;
}

run_of_source : peer_allows_ip_packet_source networks peer packet ≡ true
unfolding peer_allows_ip_packet_source parse_source_ip
run_of_source = refl

parse_ip_v4_example :
    (parse_source_ip packet ≡ some (v4 513)) × (parse_dest_ip packet ≡ some (v4 767))
parse_ip_v4_example =
    parse_ip_v4 0x45 front 513 767 (1 ∷ 2 ∷ []) refl refl (omega arith) (omega arith)

peer_allows_ip_packet_source_iff_example :
    (peer_allows_ip_packet_source networks peer packet ≡ true)
    ↔ ((route : IpAddr × ℕ) × Authorized networks cert route × (covers route (v4 513) ≡ true))
peer_allows_ip_packet_source_iff_example =
    peer_allows_ip_packet_source_iff networks peer packet (v4 513) (sym run_of_routes)
      (in_v4 0x45 front 513 767 (1 ∷ 2 ∷ []) refl refl (omega arith) (omega arith))

authorized_peer_routes_iff_example :
    In (v4 512, 28) (authorized_peer_routes networks cert) ↔ Authorized networks cert (v4 512, 28)
authorized_peer_routes_iff_example = authorized_peer_routes_iff networks cert (v4 512, 28)
