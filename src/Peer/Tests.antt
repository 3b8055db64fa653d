-- ===== src/Peer/Tests.antt =====
-- A session of two nodes through a relay, and the theorems about it.
use mathlib.Core.List.{reverse}
use liteway.Common.{
  ℕ, ◌+◌, ◌-◌, ◌≤◌, ◌<◌, ◌≡◌, refl, ◌≢◌, ◌↔◌, ◌⊎◌, min, true, false, none, some, List, [], ◌∷◌,
  arith, is_some, if◌then◌else◌,
}
use liteway.Net.{SocketAddr, text}
use liteway.Time.{Timings, from_secs}
use liteway.Cert.{Cert, pos}
use liteway.Replay
use liteway.Replay.History.{offer}
use liteway.Peer.{
  PeerState, KeepalivePending, PeerTick, KeepaliveAck, punch, nothing, idle, keepalive_timeout,
  expired, mark_seen, ack_keepalive, tick, take_path_probe,
}
use liteway.Peer.Events.{Event, ticks, sees, acks, sends, run}
use liteway.Peer.Ticks.{tick-drop_iff, tick-keepalive_iff}
use liteway.Peer.Liveness.{run_dead_drop}
use liteway.Peer.PathChoice.{mark_seen_outcome, run-direct-addr, punch_upgrade}
use liteway.Peer.Sequence.{send_many, send_many-offer}

abbrev relay : SocketAddr
relay = SocketAddr.v4 11 4242

abbrev home : SocketAddr
home = SocketAddr.v4 12 4242

abbrev cert : Cert
cert = record {
  body = record {
    meta = record {
      name = text "laptop";
      is_ca = false;
      not_before = pos 0;
      not_after = pos 100;
      groups = [];
    };
    keys = record { ed25519_pk = []; ml_dsa_pk = [] };
    addresses = none;
  };
  signature = record { ed25519 = []; ml_dsa = [] };
}

abbrev timings : Timings
timings = record {
  keepalive_interval = from_secs 10;
  keepalive_timeout = from_secs 15;
  direct_probe_interval = from_secs 5;
  handshake_timeout = from_secs 15;
  relay_fallback = from_secs 2;
  peer_expiry = from_secs 300;
}

-- A session that is relayed, whose peer's endpoint is known; the type of its routes is ℕ.
abbrev peer : PeerState ℕ
peer = record {
  name = text "laptop";
  cert = cert;
  tx_key = [];
  rx_key = [];
  addr = relay;
  direct_addr = some home;
  is_relay = false;
  tx_session_id = 1;
  rx_session_id = 2;
  tx_seq = 0;
  rx_replay = record { initialized = false; highest = 0; seen = 0 };
  last_seen = 0;
  last_ack = 0;
  routes = [];
  handshake_initiator_id = 3;
  keepalive = none;
  relayed = true;
  next_probe = none;
  probe_interval = from_secs 5;
  probe_token = none;
}

abbrev pending : KeepalivePending
pending = record { token = 77; first_sent_at = from_secs 10; last_sent_at = from_secs 10 }

abbrev waiting : PeerState ℕ
waiting = record peer { keepalive = some pending }

abbrev direct : PeerState ℕ
direct = record peer { relayed = false; addr = home }

abbrev traffic : List (ℕ × Event)
traffic =
    (from_secs 12, ticks 8)
    ∷ (from_secs 13, sees relay true false)
    ∷ (from_secs 14, acks 78)
    ∷ (from_secs 20, sends)
    ∷ []

run_of_ticks :
    ((tick peer (from_secs 9) timings 77).1 ≡ idle)
    × ((tick peer (from_secs 10) timings 77).1 ≡ PeerTick.keepalive 77)
    × ((tick waiting (from_secs 12) timings 80).1 ≡ PeerTick.keepalive 77)
    × ((tick waiting (from_secs 25) timings 80).1 ≡ PeerTick.drop keepalive_timeout)
unfolding tick
run_of_ticks = (refl, refl, refl, refl)

tick-drop_iff_example :
    (((tick waiting (from_secs 25) timings 80).1 ≡ PeerTick.drop keepalive_timeout) ↔ (
      (k : KeepalivePending) × (waiting.keepalive ≡ some k)
      × (from_secs 15 ≤ from_secs 25 - k.first_sent_at)))
    × (((tick waiting (from_secs 25) timings 80).1 ≡ PeerTick.drop expired)
        ↔ ((waiting.keepalive ≡ none) × (from_secs 300 ≤ from_secs 25 - 0)))
tick-drop_iff_example = tick-drop_iff waiting (from_secs 25) timings 80

tick-keepalive_iff_example :
    ((tick waiting (from_secs 12) timings 80).1 ≡ PeerTick.keepalive 77) ↔ (
      ((k : KeepalivePending) × (waiting.keepalive ≡ some k)
        × (from_secs 12 - k.first_sent_at < from_secs 15)
        × (min (from_secs 10) (from_secs 2) ≤ from_secs 12 - k.last_sent_at)
        × (k.token ≡ 77))
      ⊎ ((waiting.keepalive ≡ none)
          × (from_secs 12 - 0 < from_secs 300)
          × (from_secs 10 ≤ from_secs 12 - 0)
          × (◌≡◌ {A = ℕ} 80 77)))
tick-keepalive_iff_example = tick-keepalive_iff waiting (from_secs 12) timings 80 77

run_dead_drop_example :
    (tick (run timings waiting traffic) (from_secs 25) timings 80).1
    ≡ PeerTick.drop keepalive_timeout
run_dead_drop_example =
    run_dead_drop timings waiting traffic (from_secs 25) 77 (from_secs 10) 80
      (tt, (tt, (omega arith, (tt, tt)))) (refl, refl) (omega arith)

sent_at_ten : (tick peer (from_secs 10) timings 77).1 ≡ PeerTick.keepalive 77
unfolding tick
sent_at_ten = refl

mark_seen_outcome_example :
    let q = mark_seen peer home 5 false false in
    ((q.1 ≡ some relay) ↔ (
      (relay ≢ home)
      × (((false ≡ true) × (true ≡ true))
          ⊎ ((false ≡ false) × (¬ ((true ≡ true) × (false ≡ true)))))))
    × (q.1 ≡ (if is_some q.1 then some relay else none))
    × (q.0.addr ≡ (if is_some q.1 then home else relay))
    × (q.0.relayed ≡ (if is_some q.1 then false else true))
mark_seen_outcome_example = mark_seen_outcome peer home 5 false false

run-direct-addr_example : (run timings direct traffic).addr ≡ home
run-direct-addr_example = run-direct-addr timings direct traffic refl (tt, (refl, (tt, (tt, tt))))

punch_upgrade_example :
    let probed = take_path_probe peer 5 timings 40 in
    let moved = mark_seen probed.0 home 6 false false in
    let answered = ack_keepalive moved.0 40 6 in
    (probed.1 ≡ punch home 40)
    × (moved.1 ≡ some relay)
    × (answered.1 ≡ KeepaliveAck.unknown)
    × (answered.0.last_ack ≡ 0)
    × (answered.0.addr ≡ home)
    × (answered.0.relayed ≡ false)
    × ((take_path_probe answered.0 7 timings 41).1 ≡ nothing)
punch_upgrade_example = punch_upgrade timings peer home 5 6 7 40 41 refl refl (λ e. cc e) refl refl

probe_taken : (take_path_probe peer 5 timings 40).1 ≢ nothing
unfolding take_path_probe
probe_taken = λ e. cc e

still_early : 6 < 5 + (take_path_probe peer 5 timings 40).0.probe_interval
unfolding take_path_probe
still_early = omega arith

send_many-offer_example : (offer Replay.new [] (send_many 3 peer)).1 ≡ reverse (send_many 3 peer)
send_many-offer_example = send_many-offer 3 peer refl (omega arith)
