-- ===== src/Node/Tests.antt =====
-- A node with the keys of the handshake's sample, and the theorems about it.
use liteway.Common.{
  ℕ, ◌*◌, ◌^◌, ◌≡◌, refl, ◌⊎◌, true, false, none, some, List, [], ◌∷◌, ◌++◌, ◌==◌, ==_iff, length,
  replicate,
}
use liteway.Net.{v4, SocketAddr, IpNetworks}
use liteway.Time.{timings_from_secs}
use liteway.Wire.{serialize_packet, derive_traffic_key}
use liteway.Wire.Body.{encrypt_data_packet}
use liteway.Node.{Host, Clock, State}
use liteway.Cert.{Cert, verify, hybrid_verify}
use liteway.Policy.{node_id_from_cert}
use liteway.Node.Invariant.Members.{IsChecked, add_peer-IsValid}
use liteway.Dial.{accept_handshake_session}
use liteway.Policy.{authorized_peer_routes, host_route, insert_sorted, sort_by_key, dedup}
use liteway.Routes
use liteway.Node.Sessions.{
  NewPeer, add_peer, install_peer, new_peer_state, bind_lighthouse, remove_peer,
}
use liteway.Node.Overlay.{tun_poll_backoff}
use liteway.Node.Receive.{receiver_turn, handle_datagram}
use liteway.Node.Steps.{
  resolve_lighthouses, new_node, Reachable, begins, goes_on, receives, Reachable-IsValid,
}
use liteway.Node.Invariant.{IsValid, IsPeer}
use liteway.Node.Deliveries.{Completes, handle_datagram-tun}
use liteway.Node.Deliveries.Sessions.{Admitted}
use liteway.Handshake.Message.Agreement.{first_of}
use liteway.Handshake.Message.Sample.{primitives, crates, ca_key, end_a, end_b, drawn}
use liteway.Wire.{encode_header}
use liteway.Wire.{is_known}
use liteway.Wire.{decode_header}
use liteway.Wire.{packet_aad}
use liteway.Wire.{deserialize_packet}
use liteway.Wire.{mask_network_header}
use liteway.Wire.{unmask_header_bytes}
use liteway.Wire.{unmask_header}
use liteway.Wire.{network_header}
use liteway.Wire.Reader.{read_u8}
use liteway.Wire.Reader.{read_u32}
use liteway.Wire.Reader.{read_u64}
use liteway.Wire.Reader.{read_vec_u32}
use liteway.Wire.Reader.{vec_u32}
use liteway.Wire.Seal.{add_random_padding}
use liteway.Wire.Seal.{seal}
use liteway.Wire.Body.{packet_seq}
use liteway.Wire.Parse.{read_fields}
use liteway.Wire.Parse.{read_body}
use liteway.Wire.Decrypt.{decrypt_packet}
use liteway.Frag.{feed_plain}
use liteway.Frag.{feed}
use liteway.Handshake.{handshake_header_and_payload}
use liteway.Handshake.{check_opened}
use liteway.Handshake.{open_handshake}
use liteway.Node.Receive.{relay_datagram}
use liteway.Node.Receive.{accepts_destination}
use liteway.Node.Receive.{handle_data}
use liteway.Node.Receive.{dispatch}
use liteway.Node.Receive.{handle_session_packet}
use liteway.Policy.{parse_source_ip}
use liteway.Policy.{peer_allows_ip_packet_source}
use liteway.Peer.{mark_seen}
use liteway.Replay
use liteway.Frag
use liteway.Wire.Reader
use liteway.Cache

abbrev networks : IpNetworks
networks = record {
  Net = ℕ;
  contains = λ net ip. true;
  prefix = λ net. 24;
  ip = λ net. v4 net;
  network = λ net. v4 net;
  make = λ ip prefix. some 0;
  parse = λ t. some 0;
  eqb = ◌==◌;
  eqb_iff = ==_iff;
}

abbrev host : Host
host = record {
  networks = networks;
  primitives = primitives;
  packet_draw = λ n. (drawn n).packet;
  fragment_draw = λ n i. (drawn n).packet;
  handshake_draw = λ n. drawn 12;
  random_u32 = λ n. n;
  random_token = λ n. n;
  resolve_socket_addr = λ t. some (SocketAddr.v4 7 7);
  our_id = 9;
  cert = end_b.cert;
  signing_key = end_b.signing_key;
  ca_vk = ca_key;
  network_key = [];
  max_datagram = 1200;
  am_lighthouse = true;
  am_relay = true;
  keepalive_enabled = true;
  timings = timings_from_secs 10 30 5 30 10;
  iface_name = none;
  local_networks = [];
  has_tun = true;
}

abbrev src : SocketAddr
src = SocketAddr.v4 1 1

abbrev clock : Clock
clock = record { now = 0; unix = 500 }

abbrev start : State host
start = new_node host [] 0

-- The node after the first handshake of another has come in.
abbrev joined : State host
joined = receiver_turn host start (some (src, (first_of primitives end_a [] 300).msg)) clock

start_running : start.running ≡ true
unfolding new_node
start_running = refl

comes_to_joined : Reachable host [] 0 joined
comes_to_joined =
    goes_on start joined begins
      (receives start (some (src, (first_of primitives end_a [] 300).msg)) clock start_running)

no_lighthouses : resolve_lighthouses host [] 0 ≡ some []
unfolding resolve_lighthouses
no_lighthouses = refl

Reachable-IsValid_example : IsValid host joined
Reachable-IsValid_example = Reachable-IsValid host [] [] 0 joined no_lighthouses comes_to_joined

run_of_tun_poll_backoff :
    (tun_poll_backoff 64 ≡ 200_000)
    × (tun_poll_backoff 65 ≡ 1_000_000)
    × (tun_poll_backoff 321 ≡ 10_000_000)
unfolding tun_poll_backoff
run_of_tun_poll_backoff = (refl, refl, refl)

abbrev newcomer : ℕ → ℕ → Cert → NewPeer
newcomer id session cert = record {
  id = id;
  session_key = [];
  cert = cert;
  addr = src;
  direct_addr = none;
  relayed = false;
  is_relay = false;
  tx_session_id = 1;
  rx_session_id = session;
  initiator_id = id;
  simultaneous = false;
}

abbrev with_address : Cert
with_address = record end_a.cert {
  body = record end_a.cert.body { addresses = some (record { ip = []; subnets = [] }) };
}

abbrev both : State host
both =
    (add_peer host (add_peer host start (newcomer 3 5 end_a.cert) 0).0 (newcomer 4 5 end_b.cert)
      0).0

-- Two peers under one session id: when the first goes, the second has no session any more.
run_of_remove_peer :
    (both.rx_sessions ≡ (5, 4) ∷ [])
    × ((remove_peer host both 3).rx_sessions ≡ [])
    × (length (remove_peer host both 3).peers ≡ 1)
unfolding add_peer install_peer new_peer_state bind_lighthouse remove_peer new_node
    accept_handshake_session authorized_peer_routes Routes.new
run_of_remove_peer = (refl, refl, refl)

abbrev again : State host
again =
    (add_peer host (add_peer host start (newcomer 3 5 with_address) 0).0 (newcomer 3 6 end_a.cert)
      0).0

-- A peer that comes back with a certificate of no routes is still where its old route leads.
run_of_add_peer :
    (again.routes.routes ≡ (0, 3) ∷ []) × (authorized_peer_routes networks end_a.cert ≡ [])
unfolding add_peer install_peer new_peer_state bind_lighthouse new_node accept_handshake_session
    authorized_peer_routes host_route insert_sorted sort_by_key dedup Routes.new Routes.insert
run_of_add_peer = (refl, refl)

-- A peer who has a route, and an IPv4 packet from it in a packet of its session.
abbrev sender : ℕ
sender = 108 * 2 ^ 24

abbrev with_peer : State host
with_peer = (add_peer host start (newcomer sender 5 with_address) 0).0

abbrev ip_packet : List ℕ
ip_packet = 0x45 ∷ replicate 19 0

abbrev of_session : List ℕ
of_session = serialize_packet (
    encrypt_data_packet crates 1 9 5 ip_packet [] (derive_traffic_key crates [] sender 9)
      (drawn 3).packet)

-- The packet is written to the device.
run_of_handle_datagram : (handle_datagram host with_peer src of_session clock).tun ≡ ip_packet ∷ []
unfolding Reader.run_reader encode_header is_known decode_header packet_aad serialize_packet
    deserialize_packet mask_network_header unmask_header_bytes unmask_header network_header
    derive_traffic_key read_u8 read_u32 read_u64 read_vec_u32 vec_u32 add_random_padding seal
    packet_seq encrypt_data_packet read_fields read_body decrypt_packet feed_plain feed
    handshake_header_and_payload check_opened open_handshake relay_datagram accepts_destination
    handle_data dispatch handle_session_packet handle_datagram new_peer_state bind_lighthouse
    install_peer add_peer new_node parse_source_ip host_route insert_sorted sort_by_key dedup
    authorized_peer_routes peer_allows_ip_packet_source mark_seen accept_handshake_session
    Replay.new Replay.accept Replay.shl Frag.new Routes.new Routes.insert Reader.bytes Cache.new
run_of_handle_datagram = refl

start-IsValid : IsValid host start
start-IsValid = Reachable-IsValid host [] [] 0 start no_lighthouses begins

sender-IsChecked : IsChecked host (newcomer sender 5 with_address)
unfolding node_id_from_cert verify hybrid_verify
sender-IsChecked = record { named = refl; checked_at = 500; verified = refl }

with_peer-IsValid : IsValid host with_peer
with_peer-IsValid =
    add_peer-IsValid host start (newcomer sender 5 with_address) 0 sender-IsChecked start-IsValid

handle_datagram-tun_example :
    let t = handle_datagram host with_peer src of_session clock in
    (t.tun ≡ with_peer.tun)
    ⊎ ((message ip_packet : List ℕ) × (t.tun ≡ with_peer.tun ++ (ip_packet ∷ []))
        × Completes host with_peer src of_session 0 message
        × ((a : Admitted host with_peer t message ip_packet) × IsPeer host a.peer_id a.peer))
handle_datagram-tun_example =
    handle_datagram-tun host with_peer src of_session clock with_peer-IsValid
