-- ===== src/Node/Accept.antt =====
-- `handle_handshake_1` and `handle_handshake_2` of litewayd/src/main.rs.
use liteway.Common.{
  ℕ, Bool, false, not, ◌||◌, Option, none, some, List, [], ◌∷◌, ◌==◌, take, if◌then◌else◌, is_some,
}
use liteway.Common.Bytes.{from_be}
use liteway.Common.Keyed
use liteway.Common.Keyed.{nat_eq, option_eqb}
use liteway.Net.{SocketAddr, addr_eqb}
use liteway.Cache
use liteway.Cache.{CachedHandshake}
use liteway.Pending.{PendingHandshake}
use liteway.Policy.{node_id_from_cert}
use liteway.Handshake.Result.{Result, ok, err}
use liteway.Handshake.Message.{HandshakeResponse, HandshakeResult}
use liteway.Handshake.Message.Process.{process_handshake_1, process_handshake_2}
use liteway.Node.{
  Host, Clock, State, Peer, crates, or_else, send_message_with_id, drew, addr_is_relay,
}
use liteway.Node.Sessions.{NewPeer, add_peer}
use liteway.Node.Lookup.{note_direct_endpoint}

-- `values().find(|p| p.peer_id == Some(peer_id))`
abbrev pub find_to : ℕ → List (ℕ × PendingHandshake) → Option PendingHandshake
find_to peer_id [] = none
find_to peer_id ((id, p) ∷ rest) =
    if option_eqb ◌==◌ p.peer_id (some peer_id) then some p else find_to peer_id rest

abbrev pub dialled : Option PendingHandshake → Option SocketAddr
dialled none = none
dialled (some p) = some p.direct_addr

-- `handshake.peer_id.is_some_and(|expected| expected != peer_id)`
abbrev pub is_other : Option ℕ → ℕ → Bool
is_other none peer_id = false
is_other (some expected) peer_id = not (expected == peer_id)

module _ (h : Host) where
  abbrev pub new_from_response : State h → SocketAddr → ℕ → HandshakeResponse → NewPeer
  new_from_response s src peer_id response =
      let relayed = addr_is_relay h s src in
      let entry = find_to peer_id s.pending in
      record {
        id = peer_id;
        session_key = response.session_key;
        cert = response.peer_cert;
        addr = src;
        direct_addr = or_else (dialled entry) (if relayed then none else some src);
        relayed = relayed;
        is_relay = response.peer_is_relay;
        tx_session_id = response.peer_rx_session_id;
        rx_session_id = response.my_rx_session_id;
        initiator_id = peer_id;
        simultaneous = is_some entry;
      }

  -- The answer of `process_handshake_1`, remembered, turned into a peer and sent.
  abbrev pub join : State h → SocketAddr → Clock → List ℕ → HandshakeResponse → State h
  join s src clock digest response =
      let peer_id = node_id_from_cert (crates h) response.peer_cert in
      let cached = record s {
        handshake_cache = Cache.insert s.handshake_cache digest response.msg peer_id clock.now;
      } in
      if peer_id == h.our_id
      then s
      else (send_message_with_id h
          (add_peer h cached (new_from_response cached src peer_id response) clock.now).0
          response.msg src peer_id (from_be (take 4 digest))).0

  abbrev pub after_process_1 :
      State h → SocketAddr → Clock → List ℕ → Result HandshakeResponse → State h
  after_process_1 s src clock digest (err e) = s
  after_process_1 s src clock digest (ok response) = join s src clock digest response

  abbrev pub answer_1 :
      State h → SocketAddr → List ℕ → Clock → List ℕ → Option CachedHandshake → State h
  answer_1 s src packet clock digest none = after_process_1 (drew h s) src clock digest (
      process_handshake_1 h.primitives packet h.cert h.signing_key h.network_key h.ca_vk h.am_relay
        clock.unix (h.handshake_draw s.draws))
  answer_1 s src packet clock digest (some entry) =
      (send_message_with_id h (note_direct_endpoint h s entry.peer_id src) entry.response src
        entry.peer_id (from_be (take 4 digest))).0

  unfoldable pub handle_handshake_1 : State h → SocketAddr → List ℕ → Clock → State h
  handle_handshake_1 s src packet clock =
      let digest = (crates h).hash packet in
      answer_1 s src packet clock digest (Cache.get s.handshake_cache digest clock.now)

  abbrev pub begun_by_other : Option (Peer h) → Bool
  begun_by_other none = false
  begun_by_other (some existing) = not (existing.handshake_initiator_id == h.our_id)

  abbrev pub new_from_result : State h → SocketAddr → ℕ → SocketAddr → HandshakeResult → NewPeer
  new_from_result s src peer_id direct_addr result = record {
    id = peer_id;
    session_key = result.session_key;
    cert = result.peer_cert;
    addr = src;
    direct_addr = some direct_addr;
    relayed = not (addr_eqb src direct_addr) || addr_is_relay h s src;
    is_relay = result.peer_is_relay;
    tx_session_id = result.peer_rx_session_id;
    rx_session_id = result.my_rx_session_id;
    initiator_id = h.our_id;
    simultaneous = begun_by_other (Keyed.lookup peer_id s.peers);
  }

  -- The pending state goes when its answer has verified.
  abbrev pub complete :
      State h → SocketAddr → ℕ → Clock → PendingHandshake → HandshakeResult → State h
  complete s src session_id clock handshake result =
      let peer_id = node_id_from_cert (crates h) result.peer_cert in
      let done = record s { pending = Keyed.remove session_id s.pending } in
      if is_other handshake.peer_id peer_id
      then s
      else (add_peer h done (new_from_result done src peer_id handshake.direct_addr result)
          clock.now).0

  abbrev pub after_process_2 :
      State h → SocketAddr → ℕ → Clock → PendingHandshake → Result HandshakeResult → State h
  after_process_2 s src session_id clock handshake (err e) = s
  after_process_2 s src session_id clock handshake (ok result) =
      complete s src session_id clock handshake result

  abbrev pub try_answer :
      State h → SocketAddr → List ℕ → ℕ → Clock → Option PendingHandshake → State h
  try_answer s src packet session_id clock none = s
  try_answer s src packet session_id clock (some handshake) =
      after_process_2 s src session_id clock handshake (
        process_handshake_2 h.primitives packet handshake.initiate h.network_key h.ca_vk clock.unix)

  unfoldable pub handle_handshake_2 : State h → SocketAddr → List ℕ → ℕ → Clock → State h
  handle_handshake_2 s src packet session_id clock =
      try_answer s src packet session_id clock (Keyed.lookup session_id s.pending)
