-- ===== src/Node/Invariant/Datagrams.antt =====
-- The handlers of datagrams keep the maps of the node together.
use liteway.Common.{
  ℕ, ◌≡◌, refl, Bool, true, false, not, ◌&&◌, Option, none, some, List, [], ◌∷◌, ◌==◌, leb,
}
use liteway.Common.Keyed
use liteway.Common.Keyed.{nat_eq}
use liteway.Net.{SocketAddr, addr_eqb}
use liteway.Time.{duration_since, from_secs}
use liteway.Peer.{mark_seen}
use liteway.Replay.{ReplayWindow}
use liteway.Wire.{NetworkHeader, network_header, kind_handshake_1, kind_handshake_2}
use liteway.Wire.Body.{
  PacketBody, data_packet, relay_forward, disconnect, lighthouse_query, lighthouse_response,
  lighthouse_not_found, keepalive_ack,
}
use liteway.Frag
use liteway.Frag.{FragmentAssembler, FeedResult, complete, buffered, not_fragment}
use liteway.Node.{Host, Clock, State, Peer, crates, set_peer}
use liteway.Node.Receive.{
  relay_to, relay_datagram, allowed_from, accepts_destination, handle_data, dispatch, relay_at,
  seen, once, decoded, at_peer, at_session, handle_session_packet, is_for_other, by_kind, assembled,
  routed, handle_datagram, received, receiver_turn, is_keepalive, header_eqb,
}
use liteway.Node.Frame.{Keeps, frame, Keeps-refl, set_peer-Keeps, send_wire-Keeps}
use liteway.Node.Frame.Discovery.{choice-Keeps}
use liteway.Node.Frame.Lookup.{
  handle_lighthouse_query-Keeps, handle_lighthouse_response-Keeps, answer_keepalive-Keeps,
  handle_keepalive_ack-Keeps, mark_seen-SamePeer,
}
use liteway.Node.Invariant.{IsValid, Keeps-IsValid}
use liteway.Node.Invariant.Members.Removal.{remove_peer-IsValid}
use liteway.Node.Invariant.Handlers.{
  choice-IsValid, handle_handshake_1-IsValid, handle_handshake_2-IsValid,
}

module _ (h : Host) where
  relay_to-Keeps :
      (s : State h) (message : List ℕ) (o : Option (Peer h)) → Keeps h s (relay_to h s message o)
  relay_to-Keeps s message none = Keeps-refl h s
  relay_to-Keeps s message (some p) = send_wire-Keeps h s message p.addr

  pub relay_datagram-Keeps :
      (s : State h) (message : List ℕ) (id : ℕ) → Keeps h s (relay_datagram h s message id)
  unfolding relay_datagram
  relay_datagram-Keeps s message id =
      choice-Keeps h _ s s _ (Keeps-refl h s) (relay_to-Keeps s message _)

  -- A packet for the device changes nothing else.
  handle_data-IsValid :
      (s : State h) (id : ℕ) (ip_packet : List ℕ)
      → IsValid h s
      → IsValid h (handle_data h s id ip_packet)
  unfolding handle_data
  handle_data-IsValid s id ip_packet v =
      choice-IsValid h (not (allowed_from h (Keyed.lookup id s.peers) ip_packet)) s _ v (
        choice-IsValid h (not (accepts_destination h ip_packet)) s _ v (
          choice-IsValid h h.has_tun _ s
            (record {
              peers_distinct = v.peers_distinct;
              sessions_distinct = v.sessions_distinct;
              identity = v.identity;
              sessions = v.sessions;
              routed = v.routed;
              bound = v.bound;
            })
            v))

  -- What the body of a packet makes the node do.
  pub dispatch-IsValid :
      (s : State h) (src : SocketAddr) (clock : Clock) (id : ℕ) (body : PacketBody)
      → IsValid h s
      → IsValid h (dispatch h s src clock id body)
  unfolding dispatch
  dispatch-IsValid s src clock id (data_packet seq b) v = handle_data-IsValid s id b v
  dispatch-IsValid s src clock id (lighthouse_query seq ip) v =
      Keeps-IsValid h s _ (handle_lighthouse_query-Keeps h s id ip) v
  dispatch-IsValid s src clock id (lighthouse_response seq ip found addr cert relay) v =
      Keeps-IsValid h s _ (handle_lighthouse_response-Keeps h s clock ip found addr cert) v
  dispatch-IsValid s src clock id (lighthouse_not_found seq ip) v = v
  dispatch-IsValid s src clock id (PacketBody.keepalive seq token) v =
      Keeps-IsValid h s _ (answer_keepalive-Keeps h s id token src) v
  dispatch-IsValid s src clock id (keepalive_ack seq token) v =
      Keeps-IsValid h s _ (handle_keepalive_ack-Keeps h s id token clock.now) v
  dispatch-IsValid s src clock id (relay_forward seq next inner) v =
      choice-IsValid h h.am_relay _ s (Keeps-IsValid h s _ (relay_datagram-Keeps s inner next) v) v
  dispatch-IsValid s src clock id (disconnect seq) v = remove_peer-IsValid h s id v

  seen-IsValid :
      (s : State h) (src : SocketAddr) (clock : Clock) (id : ℕ) (p : Peer h) (body : PacketBody)
      (window : ReplayWindow)
      → Keyed.lookup id s.peers ≡ some p
      → IsValid h s
      → IsValid h (seen h s src clock id p body window)
  seen-IsValid s src clock id p body window e v =
      let moved : Peer h = record p { rx_replay = window } in
      let from_relay = not (addr_eqb p.addr src) && relay_at h id src s.peers in
      let marked = (mark_seen moved src clock.now from_relay (is_keepalive body)).0 in
      let same = mark_seen-SamePeer h moved src clock.now from_relay (is_keepalive body) in
      dispatch-IsValid (set_peer h s id marked) src clock id body (
        Keeps-IsValid h s _
          (set_peer-Keeps h s id p marked e
            (record { cert = same.cert; routes = same.routes; rx_session_id = same.rx_session_id }))
          v)

  once-IsValid :
      (s : State h) (src : SocketAddr) (clock : Clock) (id : ℕ) (p : Peer h) (body : PacketBody)
      (r : ReplayWindow × Bool)
      → Keyed.lookup id s.peers ≡ some p
      → IsValid h s
      → IsValid h (once h s src clock id p body r)
  once-IsValid s src clock id p body (window, false) e v = v
  once-IsValid s src clock id p body (window, true) e v =
      seen-IsValid s src clock id p body window e v

  decoded-IsValid :
      (s : State h) (src : SocketAddr) (clock : Clock) (header : NetworkHeader) (id : ℕ)
      (p : Peer h) (o : Option (NetworkHeader × PacketBody))
      → Keyed.lookup id s.peers ≡ some p
      → IsValid h s
      → IsValid h (decoded h s src clock header id p o)
  decoded-IsValid s src clock header id p none e v = v
  decoded-IsValid s src clock header id p (some (found, body)) e v =
      choice-IsValid h (not (header_eqb found header)) s _ v
        (once-IsValid s src clock id p body _ e v)

  at_peer-IsValid :
      (s : State h) (src : SocketAddr) (packet : List ℕ) (header : NetworkHeader) (clock : Clock)
      (id : ℕ) (o : Option (Peer h))
      → Keyed.lookup id s.peers ≡ o
      → IsValid h s
      → IsValid h (at_peer h s src packet header clock id o)
  at_peer-IsValid s src packet header clock id none e v = v
  at_peer-IsValid s src packet header clock id (some p) e v =
      decoded-IsValid s src clock header id p _ e v

  at_session-IsValid :
      (s : State h) (src : SocketAddr) (packet : List ℕ) (header : NetworkHeader) (clock : Clock)
      (o : Option ℕ)
      → IsValid h s
      → IsValid h (at_session h s src packet header clock o)
  at_session-IsValid s src packet header clock none v = v
  at_session-IsValid s src packet header clock (some id) v =
      at_peer-IsValid s src packet header clock id _ refl v

  handle_session_packet-IsValid :
      (s : State h) (src : SocketAddr) (packet : List ℕ) (header : NetworkHeader) (clock : Clock)
      → IsValid h s
      → IsValid h (handle_session_packet h s src packet header clock)
  unfolding handle_session_packet
  handle_session_packet-IsValid s src packet header clock v =
      at_session-IsValid s src packet header clock _ v

  by_kind-IsValid :
      (s : State h) (src : SocketAddr) (packet : List ℕ) (clock : Clock) (o : Option NetworkHeader)
      → IsValid h s
      → IsValid h (by_kind h s src packet clock o)
  by_kind-IsValid s src packet clock none v = v
  by_kind-IsValid s src packet clock (some header) v =
      choice-IsValid h (header.kind == kind_handshake_1) _ _
        (handle_handshake_1-IsValid h s src packet clock v)
        (choice-IsValid h (header.kind == kind_handshake_2) _ _
          (handle_handshake_2-IsValid h s src packet header.session_id clock v)
          (choice-IsValid h (is_for_other h header) _ _
            (Keeps-IsValid h s _ (relay_datagram-Keeps s packet header.dst_peer_id) v)
            (handle_session_packet-IsValid s src packet header clock v)))

  assembled-IsValid :
      (s : State h) (src : SocketAddr) (message : List ℕ) (clock : Clock)
      (r : FragmentAssembler × FeedResult)
      → IsValid h s
      → IsValid h (assembled h s src message clock r)
  assembled-IsValid s src message clock (a, complete packet) v =
      by_kind-IsValid (record s { assembler = a }) src packet clock
        (network_header (crates h) packet h.network_key)
        (Keeps-IsValid h s _ (frame h s _ refl refl refl refl refl) v)
  assembled-IsValid s src message clock (a, buffered) v =
      Keeps-IsValid h s _ (frame h s _ refl refl refl refl refl) v
  assembled-IsValid s src message clock (a, not_fragment) v =
      by_kind-IsValid (record s { assembler = a }) src message clock
        (network_header (crates h) message h.network_key)
        (Keeps-IsValid h s _ (frame h s _ refl refl refl refl refl) v)

  routed-IsValid :
      (s : State h) (src : SocketAddr) (message : List ℕ) (clock : Clock) (o : Option NetworkHeader)
      → IsValid h s
      → IsValid h (routed h s src message clock o)
  routed-IsValid s src message clock none v =
      assembled-IsValid s src message clock
        (Frag.feed (crates h) s.assembler src message h.network_key clock.now) v
  routed-IsValid s src message clock (some header) v =
      choice-IsValid h (is_for_other h header) _ _
        (Keeps-IsValid h s _ (relay_datagram-Keeps s message header.dst_peer_id) v)
        (assembled-IsValid s src message clock
          (Frag.feed (crates h) s.assembler src message h.network_key clock.now) v)

  -- Whatever datagram comes in, from whomever, the maps still belong together.
  pub handle_datagram-IsValid :
      (s : State h) (src : SocketAddr) (message : List ℕ) (clock : Clock)
      → IsValid h s
      → IsValid h (handle_datagram h s src message clock)
  unfolding handle_datagram
  handle_datagram-IsValid s src message clock v =
      routed-IsValid s src message clock (network_header (crates h) message h.network_key) v

  received-IsValid :
      (s : State h) (o : Option (SocketAddr × List ℕ)) (clock : Clock)
      → IsValid h s
      → IsValid h (received h s o clock)
  received-IsValid s none clock v = v
  received-IsValid s (some (src, [])) clock v = v
  received-IsValid s (some (src, b ∷ message)) clock v =
      handle_datagram-IsValid s src (b ∷ message) clock v

  pub receiver_turn-IsValid :
      (s : State h) (o : Option (SocketAddr × List ℕ)) (clock : Clock)
      → IsValid h s
      → IsValid h (receiver_turn h s o clock)
  unfolding receiver_turn
  receiver_turn-IsValid s o clock v =
      let t = received h s o clock in
      let w = received-IsValid s o clock v in
      choice-IsValid h (leb (from_secs 1) (duration_since clock.now t.last_cleanup)) _ t
        (Keeps-IsValid h t _ (frame h t _ refl refl refl refl refl) w) w
