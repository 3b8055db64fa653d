-- ===== src/Node/Receive.antt =====
-- What the receiver of litewayd/src/main.rs does with a datagram.
use liteway.Common.{
  ℕ, Bool, true, false, not, ◌&&◌, Option, none, some, List, [], ◌∷◌, ◌++◌, any, leb, ◌==◌,
  if◌then◌else◌,
}
use liteway.Common.Keyed
use liteway.Common.Keyed.{nat_eq}
use liteway.Net.{IpAddr, SocketAddr, addr_eqb}
use liteway.Time.{duration_since, from_secs}
use liteway.Peer.{mark_seen}
use liteway.Replay
use liteway.Replay.{ReplayWindow}
use liteway.Policy.{parse_dest_ip, peer_allows_ip_packet_source}
use liteway.Wire.{NetworkHeader, network_header, kind_handshake_1, kind_handshake_2}
use liteway.Wire.Body.{
  PacketBody, data_packet, relay_forward, disconnect, lighthouse_query, lighthouse_response,
  lighthouse_not_found, keepalive, keepalive_ack, packet_seq,
}
use liteway.Wire.Decrypt.{decrypt_packet}
use liteway.Frag
use liteway.Frag.{FragmentAssembler, FeedResult, complete, buffered, not_fragment}
use liteway.Node.{Host, Clock, State, Peer, crates, set_peer, send_wire}
use liteway.Node.Sessions.{remove_peer}
use liteway.Node.Lookup.{
  handle_lighthouse_query, handle_lighthouse_response, answer_keepalive, handle_keepalive_ack,
}
use liteway.Node.Accept.{handle_handshake_1, handle_handshake_2}
use liteway.Node.Overlay.{is_multicast}

-- `decoded_header != header`
abbrev pub header_eqb : NetworkHeader → NetworkHeader → Bool
header_eqb a b =
    a.kind == b.kind
    && (a.frag_index == b.frag_index
        && (a.frag_total == b.frag_total
            && (a.dst_peer_id == b.dst_peer_id && a.session_id == b.session_id)))

abbrev pub is_keepalive : PacketBody → Bool
is_keepalive (keepalive seq token) = true
is_keepalive body = false

module _ (h : Host) where
  abbrev pub relay_to : State h → List ℕ → Option (Peer h) → State h
  relay_to s message none = s
  relay_to s message (some peer) = send_wire h s message peer.addr

  unfoldable pub relay_datagram : State h → List ℕ → ℕ → State h
  relay_datagram s message dst_peer_id =
      if not h.am_relay then s else relay_to s message (Keyed.lookup dst_peer_id s.peers)

  abbrev pub for_local : Option IpAddr → Bool
  for_local none = false
  for_local (some dst) =
      if is_multicast dst then true else any (λ net. h.networks.contains net dst) h.local_networks

  unfoldable pub accepts_destination : List ℕ → Bool
  accepts_destination ip_packet = unless_open h.local_networks
    where
      unless_open : List h.networks.Net → Bool
      unless_open [] = true
      unless_open (net ∷ nets) = for_local (parse_dest_ip ip_packet)

  abbrev pub allowed_from : Option (Peer h) → List ℕ → Bool
  allowed_from none ip_packet = false
  allowed_from (some peer) ip_packet = peer_allows_ip_packet_source h.networks peer ip_packet

  unfoldable pub handle_data : State h → ℕ → List ℕ → State h
  handle_data s peer_id ip_packet =
      if not (allowed_from (Keyed.lookup peer_id s.peers) ip_packet)
      then s
      else if not (accepts_destination ip_packet)
      then s
      else if h.has_tun
      then record s { tun = s.tun ++ (ip_packet ∷ []) }
      else s

  -- The body of a packet of the session, by its kind.
  unfoldable pub dispatch : State h → SocketAddr → Clock → ℕ → PacketBody → State h
  dispatch s src clock peer_id (data_packet seq ip_packet) = handle_data s peer_id ip_packet
  dispatch s src clock peer_id (lighthouse_query seq target_ip) =
      handle_lighthouse_query h s peer_id target_ip
  dispatch s src clock peer_id (lighthouse_response seq target_ip found_id addr cert is_relay) =
      handle_lighthouse_response h s clock target_ip found_id addr cert
  dispatch s src clock peer_id (lighthouse_not_found seq target_ip) = s
  dispatch s src clock peer_id (keepalive seq token) = answer_keepalive h s peer_id token src
  dispatch s src clock peer_id (keepalive_ack seq token) =
      handle_keepalive_ack h s peer_id token clock.now
  dispatch s src clock peer_id (relay_forward seq next_peer_id inner_packet) =
      if h.am_relay then relay_datagram s inner_packet next_peer_id else s
  dispatch s src clock peer_id (disconnect seq) = remove_peer h s peer_id

  abbrev pub relay_at : ℕ → SocketAddr → List (ℕ × Peer h) → Bool
  relay_at peer_id src [] = false
  relay_at peer_id src ((id, other) ∷ rest) =
      if not (id == peer_id) && (other.is_relay && addr_eqb other.addr src)
      then true
      else relay_at peer_id src rest

  -- The window and the path of a peer after one packet of its session.
  abbrev pub seen : State h → SocketAddr → Clock → ℕ → Peer h → PacketBody → ReplayWindow → State h
  seen s src clock peer_id peer body window =
      let src_is_relay = not (addr_eqb peer.addr src) && relay_at peer_id src s.peers in
      let marked =
        (mark_seen (record peer { rx_replay = window }) src clock.now src_is_relay
          (is_keepalive body)).0 in
      dispatch (set_peer h s peer_id marked) src clock peer_id body

  abbrev pub once :
      State h → SocketAddr → Clock → ℕ → Peer h → PacketBody → ReplayWindow × Bool → State h
  once s src clock peer_id peer body (window, false) = s
  once s src clock peer_id peer body (window, true) = seen s src clock peer_id peer body window

  abbrev pub decoded :
      State h
      → SocketAddr
      → Clock
      → NetworkHeader
      → ℕ
      → Peer h
      → Option (NetworkHeader × PacketBody)
      → State h
  decoded s src clock header peer_id peer none = s
  decoded s src clock header peer_id peer (some (decoded_header, body)) =
      if not (header_eqb decoded_header header)
      then s
      else once s src clock peer_id peer body (Replay.accept peer.rx_replay (packet_seq body))

  abbrev pub at_peer :
      State h → SocketAddr → List ℕ → NetworkHeader → Clock → ℕ → Option (Peer h) → State h
  at_peer s src packet header clock peer_id none = s
  at_peer s src packet header clock peer_id (some peer) =
      decoded s src clock header peer_id peer
        (decrypt_packet (crates h) packet h.network_key peer.rx_key)

  abbrev pub at_session : State h → SocketAddr → List ℕ → NetworkHeader → Clock → Option ℕ → State h
  at_session s src packet header clock none = s
  at_session s src packet header clock (some peer_id) =
      at_peer s src packet header clock peer_id (Keyed.lookup peer_id s.peers)

  unfoldable pub handle_session_packet :
      State h → SocketAddr → List ℕ → NetworkHeader → Clock → State h
  handle_session_packet s src packet header clock =
      at_session s src packet header clock (Keyed.lookup header.session_id s.rx_sessions)

  -- A datagram for another node.
  abbrev pub is_for_other : NetworkHeader → Bool
  is_for_other header = not (header.dst_peer_id == 0) && not (header.dst_peer_id == h.our_id)

  abbrev pub by_kind : State h → SocketAddr → List ℕ → Clock → Option NetworkHeader → State h
  by_kind s src packet clock none = s
  by_kind s src packet clock (some header) =
      if header.kind == kind_handshake_1
      then handle_handshake_1 h s src packet clock
      else if header.kind == kind_handshake_2
      then handle_handshake_2 h s src packet header.session_id clock
      else if is_for_other header
      then relay_datagram s packet header.dst_peer_id
      else handle_session_packet s src packet header clock

  abbrev pub whole : State h → SocketAddr → List ℕ → Clock → State h
  whole s src packet clock =
      by_kind s src packet clock (network_header (crates h) packet h.network_key)

  abbrev pub assembled :
      State h → SocketAddr → List ℕ → Clock → FragmentAssembler × FeedResult → State h
  assembled s src message clock (a, complete packet) =
      whole (record s { assembler = a }) src packet clock
  assembled s src message clock (a, buffered) = record s { assembler = a }
  assembled s src message clock (a, not_fragment) =
      whole (record s { assembler = a }) src message clock

  abbrev pub for_us : State h → SocketAddr → List ℕ → Clock → State h
  for_us s src message clock =
      assembled s src message clock
        (Frag.feed (crates h) s.assembler src message h.network_key clock.now)

  -- Whom the datagram is for, as its header says before anything is put together.
  abbrev pub routed : State h → SocketAddr → List ℕ → Clock → Option NetworkHeader → State h
  routed s src message clock none = for_us s src message clock
  routed s src message clock (some header) =
      if is_for_other header
      then relay_datagram s message header.dst_peer_id
      else for_us s src message clock

  unfoldable pub handle_datagram : State h → SocketAddr → List ℕ → Clock → State h
  handle_datagram s src message clock =
      routed s src message clock (network_header (crates h) message h.network_key)

  -- One turn of the loop of `run_receiver`, with the datagram that came, if one did.
  abbrev pub received : State h → Option (SocketAddr × List ℕ) → Clock → State h
  received s none clock = s
  received s (some (src, [])) clock = s
  received s (some (src, b ∷ message)) clock = handle_datagram s src (b ∷ message) clock

  unfoldable pub receiver_turn : State h → Option (SocketAddr × List ℕ) → Clock → State h
  receiver_turn s datagram clock =
      let t = received s datagram clock in
      if leb (from_secs 1) (duration_since clock.now t.last_cleanup)
      then record t { assembler = Frag.cleanup t.assembler clock.now; last_cleanup = clock.now }
      else t
