-- ===== src/Node/Maintenance.antt =====
-- `maintenance_tick` of litewayd/src/main.rs: repeated handshakes, keepalives, path probes, and the
-- peers that are dropped.
use liteway.Common.{
  ℕ, suc, ◌+◌, Bool, true, false, not, Option, none, some, List, [], ◌∷◌, ◌++◌, ltb, leb, ◌==◌, ◌*◌,
  length, if◌then◌else◌,
}
use liteway.Common.Keyed
use liteway.Common.Keyed.{nat_eq, option_eqb}
use liteway.Net.{IpAddr, SocketAddr}
use liteway.Time.{duration_since}
use liteway.Cache
use liteway.Pending
use liteway.Pending.{
  PendingHandshake, is_expired, retransmit_due, record_attempt, relay_fallback_due, targets,
}
use liteway.Peer.{
  PeerTick, idle, keepalive, drop, PathProbe, nothing, punch, lookup, next_seq, tick,
  take_path_probe,
}
use liteway.Policy.{primary_cert_ip}
use liteway.Wire.{serialize_packet}
use liteway.Wire.Body.{encrypt_keepalive_packet}
use liteway.Node.{
  Host, State, Peer, crates, discovery_entry_ttl, unwrap_or, send_wire, send_message_with_id,
}
use liteway.Node.Sessions.{remove_peer}
use liteway.Node.Discovery.{request_discovery}

pub record Retransmission : Type 0 where
  pub msg : List ℕ
  pub msg_id : ℕ
  pub targets : List SocketAddr
  pub dst_peer_id : ℕ

-- `relays.iter().find(…)`: the first relay that is not the target itself.
abbrev pub find_relay : Option ℕ → List (ℕ × SocketAddr) → Option SocketAddr
find_relay target [] = none
find_relay target ((relay_id, relay_addr) ∷ rest) =
    if option_eqb ◌==◌ (some relay_id) target then find_relay target rest else some relay_addr

abbrev pub with_relay : PendingHandshake → Option SocketAddr → PendingHandshake
with_relay handshake none = handshake
with_relay handshake (some relay_addr) = record handshake { relay_addr = some relay_addr }

-- What a peer is sent once the lock on the peers is free.
pub data Action : Type 0 where
  send : SocketAddr → List ℕ → Action
  look_up : IpAddr → Action

module _ (h : Host) where
  abbrev pub fall_back : List (ℕ × SocketAddr) → ℕ → PendingHandshake → PendingHandshake
  fall_back relays now handshake =
      if relay_fallback_due handshake now h.timings
      then with_relay handshake (find_relay handshake.peer_id relays)
      else handshake

  abbrev pub relays_of : List (ℕ × Peer h) → List (ℕ × SocketAddr)
  relays_of [] = []
  relays_of ((id, peer) ∷ rest) =
      if peer.is_relay then (id, peer.addr) ∷ relays_of rest else relays_of rest

  abbrev pub retransmission_of : PendingHandshake → Retransmission
  retransmission_of handshake = record {
    msg = handshake.initiate.msg;
    msg_id = handshake.initiate.my_rx_session_id;
    targets = Pending.targets handshake;
    dst_peer_id = unwrap_or 0 handshake.peer_id;
  }

  -- The loop over the handshakes that have not expired: what they become, and what is sent again.
  unfoldable pub retry_each :
      List (ℕ × SocketAddr)
      → ℕ
      → List (ℕ × PendingHandshake)
      → List (ℕ × PendingHandshake) × List Retransmission
  retry_each relays now [] = ([], [])
  retry_each relays now ((session_id, handshake) ∷ rest) =
      let (others, retransmissions) = retry_each relays now rest in
      let tried = fall_back relays now handshake in
      if not (retransmit_due tried now h.timings)
      then ((session_id, tried) ∷ others, retransmissions)
      else let again = record_attempt tried now in
        ((session_id, again) ∷ others, retransmission_of again ∷ retransmissions)

  abbrev pub send_to_targets : State h → List SocketAddr → Retransmission → State h
  send_to_targets s [] r = s
  send_to_targets s (target ∷ rest) r =
      send_to_targets (send_message_with_id h s r.msg target r.dst_peer_id r.msg_id).0 rest r

  abbrev pub send_each : State h → List Retransmission → State h
  send_each s [] = s
  send_each s (r ∷ rest) = send_each (send_to_targets s r.targets r) rest

  unfoldable pub retransmit_handshakes : State h → ℕ → State h
  retransmit_handshakes s now =
      let live = Keyed.retain (λ id p. not (is_expired p now h.timings)) s.pending in
      let (pending, retransmissions) = retry_each (relays_of s.peers) now live in
      send_each (record s { pending = pending }) retransmissions

  -- What the loop of `maintain_peers` does with one peer: the peer it leaves, what is to be sent, and
  -- whether the peer is dropped. The tick and the probe draw one number each.
  pub record Upkeep : Type 0 where
    pub peer : Peer h
    pub actions : List Action
    pub dropped : Bool

  abbrev pub keepalive_to : ℕ → Peer h → SocketAddr → ℕ → ℕ → Peer h × Action
  keepalive_to peer_id peer addr token draw =
      let (numbered, seq) = next_seq peer in
      let pkt =
        encrypt_keepalive_packet (crates h) seq peer_id numbered.tx_session_id token h.network_key
          numbered.tx_key (h.packet_draw draw) in
      (numbered, send addr (serialize_packet pkt))

  abbrev pub look_up_at : Option IpAddr → List Action
  look_up_at none = []
  look_up_at (some ip) = look_up ip ∷ []

  abbrev pub probe_path : ℕ → List Action → ℕ → Peer h × PathProbe → Upkeep
  probe_path peer_id actions draw (peer, nothing) = record {
    peer = peer;
    actions = actions;
    dropped = false;
  }
  probe_path peer_id actions draw (peer, punch direct token) =
      let (numbered, action) = keepalive_to peer_id peer direct token draw in
      record { peer = numbered; actions = actions ++ (action ∷ []); dropped = false }
  probe_path peer_id actions draw (peer, lookup) = record {
    peer = peer;
    actions = actions ++ look_up_at (primary_cert_ip h.networks peer.cert);
    dropped = false;
  }

  abbrev pub probe : ℕ → Peer h → List Action → ℕ → ℕ → Upkeep
  probe peer_id peer actions now draw =
      probe_path peer_id actions (suc draw)
        (take_path_probe peer now h.timings (h.random_token (suc draw)))

  abbrev pub after_tick : ℕ → ℕ → ℕ → Peer h × PeerTick → Upkeep
  after_tick peer_id now draw (peer, drop reason) = record {
    peer = peer;
    actions = [];
    dropped = true;
  }
  after_tick peer_id now draw (peer, keepalive token) =
      let (numbered, action) = keepalive_to peer_id peer peer.addr token draw in
      probe peer_id numbered (action ∷ []) now draw
  after_tick peer_id now draw (peer, idle) = probe peer_id peer [] now draw

  unfoldable pub maintain_peer : ℕ → Peer h → ℕ → ℕ → Upkeep
  maintain_peer peer_id peer now draw =
      if h.keepalive_enabled
      then after_tick peer_id now draw (tick peer now h.timings (h.random_token draw))
      else if leb h.timings.peer_expiry (duration_since now peer.last_seen)
      then record { peer = peer; actions = []; dropped = true }
      else probe peer_id peer [] now draw

  -- The loop over the peers.
  abbrev pub maintain_each : List (ℕ × Peer h) → ℕ → ℕ → List (ℕ × Upkeep)
  maintain_each [] now draw = []
  maintain_each ((peer_id, peer) ∷ rest) now draw =
      (peer_id, maintain_peer peer_id peer now draw) ∷ maintain_each rest now (draw + 2)

  abbrev pub peers_of : List (ℕ × Upkeep) → List (ℕ × Peer h)
  peers_of [] = []
  peers_of ((peer_id, u) ∷ rest) = (peer_id, u.peer) ∷ peers_of rest

  abbrev pub drops_of : List (ℕ × Upkeep) → List ℕ
  drops_of [] = []
  drops_of ((peer_id, u) ∷ rest) = if u.dropped then peer_id ∷ drops_of rest else drops_of rest

  abbrev pub actions_of : List (ℕ × Upkeep) → List Action
  actions_of [] = []
  actions_of ((peer_id, u) ∷ rest) = u.actions ++ actions_of rest

  abbrev pub drop_each : State h → List ℕ → State h
  drop_each s [] = s
  drop_each s (peer_id ∷ rest) = drop_each (remove_peer h s peer_id) rest

  abbrev pub act : State h → Action → ℕ → State h
  act s (send addr wire) now = send_wire h s wire addr
  act s (look_up ip) now = request_discovery h s ip now

  abbrev pub act_each : State h → List Action → ℕ → State h
  act_each s [] now = s
  act_each s (action ∷ rest) now = act_each (act s action now) rest now

  unfoldable pub maintain_peers : State h → ℕ → State h
  maintain_peers s now =
      let upkeep = maintain_each s.peers now s.draws in
      let maintained = record s { peers = peers_of upkeep; draws = s.draws + 2 * length s.peers } in
      act_each (drop_each maintained (drops_of upkeep)) (actions_of upkeep) now

  unfoldable pub maintenance_tick : State h → ℕ → State h
  maintenance_tick s now =
      let t = maintain_peers (retransmit_handshakes s now) now in
      record t {
        discovery_pending =
            Keyed.retain (λ ip last. ltb (duration_since now last) discovery_entry_ttl)
              t.discovery_pending;
        handshake_cache = Cache.cleanup t.handshake_cache now;
      }
