-- ===== src/Config/Tests.antt =====
-- The configuration of a node behind a lighthouse, and the theorems about it.
use liteway.Common.{ℕ, ◌+◌, ◌≡◌, refl, ◌↔◌, min, length, true, false, none, some, [], ◌∷◌}
use liteway.Net.{SocketAddr, text}
use liteway.Time.{from_secs}
use liteway.Cert.{Cert, pos}
use liteway.Wire.{serialize_packet}
use liteway.Wire.Body.{encrypt_data_packet}
use liteway.Handshake.Message.Sample.{crates, laws, drawn}
use liteway.Peer.{PeerState, PeerTick, tick}
use liteway.Pending.{PendingHandshake, relay_fallback_due, is_expired}
use liteway.Config.{
  AppConfig, InterfaceConfig, not_positive, empty_address, validate, timings, ip_udp_overhead,
  tunnel_datagram,
}
use liteway.Config.Validity.{
  IsSound, validate-IsSound, relay_in_time-PendingHandshake, repeat_in_time-PeerState,
}
use liteway.Config.Datagrams.{encrypt_data_packet-tunnel_datagram}

abbrev iface : InterfaceConfig
iface = record { name = text "liteway0"; mtu = 600 }

-- The defaults, and one lighthouse.
abbrev config : AppConfig
config = record {
  listen = SocketAddr.v4 0 0;
  ca_cert_path = text "ca.crt";
  node_cert_path = text "node.crt";
  node_key_path = text "node.key";
  network_secret = [];
  lighthouses = record { name = text "l"; address = text "10.0.0.1:4242" } ∷ [];
  interface = some iface;
  am_lighthouse = false;
  am_relay = false;
  punch_interval_secs = 10;
  keepalive_punch = true;
  keepalive_timeout_secs = 30;
  relay_fallback_timeout_secs = 5;
  handshake_timeout_secs = 20;
  keepalive_interval_secs = 10;
  direct_probe_interval_secs = 5;
}

abbrev started : PendingHandshake
started = record {
  initiate = record { msg = []; eph_x25519_sk = []; eph_mlkem_sk = []; my_rx_session_id = 5 };
  direct_addr = SocketAddr.v4 1 2;
  relay_addr = none;
  peer_id = some 9;
  peer_name = [];
  created_at = 0;
  next_attempt = 0;
  attempts = 1;
}

abbrev cert : Cert
cert = record {
  body = record {
    meta = record { name = []; is_ca = false; not_before = pos 0; not_after = pos 1; groups = [] };
    keys = record { ed25519_pk = []; ml_dsa_pk = [] };
    addresses = none;
  };
  signature = record { ed25519 = []; ml_dsa = [] };
}

-- A session with a keepalive that has no answer.
abbrev waiting : PeerState ℕ
waiting = record {
  name = [];
  cert = cert;
  tx_key = [];
  rx_key = [];
  addr = SocketAddr.v4 1 2;
  direct_addr = none;
  is_relay = false;
  tx_session_id = 1;
  rx_session_id = 2;
  tx_seq = 0;
  rx_replay = record { initialized = false; highest = 0; seen = 0 };
  last_seen = 0;
  last_ack = 0;
  routes = [];
  handshake_initiator_id = 3;
  keepalive =
      some (record { token = 77; first_sent_at = from_secs 10; last_sent_at = from_secs 10 });
  relayed = true;
  next_probe = none;
  probe_interval = from_secs 5;
  probe_token = none;
}

valid : validate config ≡ none
unfolding validate
valid = refl

run_of_validate :
    (validate (record config { punch_interval_secs = 0 })
      ≡ some (not_positive (text "punch_interval_secs")))
    × (validate
          (record config { lighthouses = record { name = text "l"; address = text " \t" } ∷ [] })
        ≡ some (empty_address (text "l")))
unfolding validate
run_of_validate = (refl, refl)

validate-IsSound_example : (validate config ≡ none) ↔ IsSound config
validate-IsSound_example = validate-IsSound config

relay_in_time-PendingHandshake_example :
    (relay_fallback_due started (from_secs 5) (timings config) ≡ true)
    × (is_expired started (from_secs 5) (timings config) ≡ false)
relay_in_time-PendingHandshake_example =
    relay_in_time-PendingHandshake config started 9 valid refl refl

repeat_in_time-PeerState_example :
    (tick waiting (from_secs 10 + min (from_secs 10) (from_secs 2)) (timings config) 80).1
    ≡ PeerTick.keepalive 77
repeat_in_time-PeerState_example =
    repeat_in_time-PeerState config waiting
      (record { token = 77; first_sent_at = from_secs 10; last_sent_at = from_secs 10 }) 80 valid
      refl refl

encrypt_data_packet-tunnel_datagram_example :
    length (serialize_packet (encrypt_data_packet crates 1 2 3 (9 ∷ 9 ∷ []) [] [] (drawn 3).packet))
      + ip_udp_overhead (SocketAddr.v4 0 0)
    ≡ tunnel_datagram 2 (SocketAddr.v4 0 0) + 13 + 1
encrypt_data_packet-tunnel_datagram_example =
    encrypt_data_packet-tunnel_datagram crates laws.packets 1 2 3 (9 ∷ 9 ∷ []) [] []
      (drawn 3).packet (SocketAddr.v4 0 0)
      (record { mask_nonce_length = refl; nonce_length = refl }) refl
