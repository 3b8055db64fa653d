-- ===== src/Node/Deliveries/Sessions.antt =====
-- What a packet of a session brings to the device: `handle_data`, `dispatch` and `handle_session_packet`
-- of litewayd/src/main.rs.
use liteway.Common.{
  ℕ, arith, ◌≡◌, refl, sym, ap, ◌∙◌, ◌⊎◌, inl, inr, Bool, true, false, not, ◌&&◌, Option, none,
  some, List, [], ◌∷◌, ◌++◌, if◌then◌else◌,
}
use liteway.Common.Keyed
use liteway.Common.Keyed.{nat_eq}
use liteway.Net.{SocketAddr, addr_eqb}
use liteway.Peer.{mark_seen}
use liteway.Policy
use liteway.Policy.{node_id_from_cert, peer_allows_ip_packet_source}
use liteway.Replay
use liteway.Replay.{ReplayWindow}
use liteway.Wire.{NetworkHeader, network_header}
use liteway.Wire.Body.{
  PacketBody, data_packet, relay_forward, disconnect, lighthouse_query, lighthouse_response,
  lighthouse_not_found, keepalive, keepalive_ack, packet_seq,
}
use liteway.Wire.Decrypt.{decrypt_packet}
use liteway.Node.{Host, Clock, State, Peer, crates, set_peer}
use liteway.Node.Sessions.{remove_peer}
use liteway.Node.Receive.{
  allowed_from, accepts_destination, handle_data, dispatch, relay_at, once, decoded, at_peer,
  at_session, handle_session_packet, is_keepalive, header_eqb, is_for_other,
}
use liteway.Node.Frame.{SamePeer}
use liteway.Node.Frame.Lookup.{
  handle_lighthouse_query-Keeps, handle_lighthouse_response-Keeps, answer_keepalive-Keeps,
  handle_keepalive_ack-Keeps, mark_seen-SamePeer,
}
use liteway.Node.Invariant.Members.Removal.{lookup-insert_self}
use liteway.Node.Invariant.Datagrams.{relay_datagram-Keeps}
use liteway.Node.Deliveries.Handshakes.{choice-tun, remove_found-tun}

-- Headers that the test of the receiver finds the same are the same.
header_eqb-same : (a b : NetworkHeader) → header_eqb a b ≡ true → a ≡ b
header_eqb-same a b e = ground arith

module _ (h : Host) where
  -- An IP packet that was let through to the device: the message is for this node, its header names
  -- a session that the node has, it opens under the key of that session's peer, with that header and a
  -- number that the peer's window takes, and the packet is from an address that the peer may send from,
  -- to one that this node takes packets for. Afterwards the window of the peer has taken the number.
  pub record Admitted (s t : State h) (message ip_packet : List ℕ) : Type 0 where
    pub header : NetworkHeader
    pub named : network_header (crates h) message h.network_key ≡ some header
    pub not_other : is_for_other h header ≡ false
    pub seq : ℕ
    pub peer_id : ℕ
    pub peer : Peer h
    pub in_session : Keyed.lookup header.session_id s.rx_sessions ≡ some peer_id
    pub known : Keyed.lookup peer_id s.peers ≡ some peer
    pub opened :
        decrypt_packet (crates h) message h.network_key peer.rx_key
        ≡ some (header, data_packet seq ip_packet)
    pub unseen : (Replay.accept peer.rx_replay seq).1 ≡ true
    pub may_send : peer_allows_ip_packet_source h.networks peer ip_packet ≡ true
    pub for_here : accepts_destination h ip_packet ≡ true
    pub after : Peer h
    pub still_known : Keyed.lookup peer_id t.peers ≡ some after
    pub recorded : after.rx_replay ≡ (Replay.accept peer.rx_replay seq).0

  -- The device is written nothing, or one packet that was let through.
  abbrev pub Outcome : State h → State h → List ℕ → Type 0
  Outcome s t message =
      (t.tun ≡ s.tun)
      ⊎ ((ip_packet : List ℕ) × (t.tun ≡ s.tun ++ (ip_packet ∷ []))
          × Admitted s t message ip_packet)

  -- What `handle_data` writes.
  abbrev Written : State h → State h → ℕ → List ℕ → Type 0
  Written s t id b =
      (t.tun ≡ s.tun)
      ⊎ ((t.tun ≡ s.tun ++ (b ∷ []))
          × (t.peers ≡ s.peers)
          × (allowed_from h (Keyed.lookup id s.peers) b ≡ true)
          × (accepts_destination h b ≡ true))

  gates :
      (allowed here has_tun : Bool) (s : State h) (b : List ℕ)
      → let t =
          if not allowed
          then s
          else if not here
          then s
          else if has_tun
          then record s { tun = s.tun ++ (b ∷ []) }
          else s in
        (t.tun ≡ s.tun)
        ⊎ ((t.tun ≡ s.tun ++ (b ∷ [])) × (t.peers ≡ s.peers) × (allowed ≡ true) × (here ≡ true))
  gates false here has_tun s b = inl refl
  gates true false has_tun s b = inl refl
  gates true true false s b = inl refl
  gates true true true s b = inr (refl, refl, refl, refl)

  handle_data-Written : (s : State h) (id : ℕ) (b : List ℕ) → Written s (handle_data h s id b) id b
  unfolding handle_data
  handle_data-Written s id b =
      gates (allowed_from h (Keyed.lookup id s.peers) b) (accepts_destination h b) h.has_tun s b

  -- What a packet writes that has been found fresh: only one of data can.
  abbrev Dispatched : State h → State h → ℕ → PacketBody → Type 0
  Dispatched s t id (data_packet seq b) = Written s t id b
  Dispatched s t id body = t.tun ≡ s.tun

  dispatch-Dispatched :
      (s : State h) (src : SocketAddr) (clock : Clock) (id : ℕ) (body : PacketBody)
      → Dispatched s (dispatch h s src clock id body) id body
  unfolding dispatch remove_peer
  dispatch-Dispatched s src clock id (data_packet seq b) = handle_data-Written s id b
  dispatch-Dispatched s src clock id (lighthouse_query seq ip) =
      (handle_lighthouse_query-Keeps h s id ip).tun
  dispatch-Dispatched s src clock id (lighthouse_response seq ip found addr cert relay) =
      (handle_lighthouse_response-Keeps h s clock ip found addr cert).tun
  dispatch-Dispatched s src clock id (lighthouse_not_found seq ip) = refl
  dispatch-Dispatched s src clock id (keepalive seq token) =
      (answer_keepalive-Keeps h s id token src).tun
  dispatch-Dispatched s src clock id (keepalive_ack seq token) =
      (handle_keepalive_ack-Keeps h s id token clock.now).tun
  dispatch-Dispatched s src clock id (relay_forward seq next inner) =
      choice-tun h h.am_relay s _ s (relay_datagram-Keeps h s inner next).tun refl
  dispatch-Dispatched s src clock id (disconnect seq) =
      remove_found-tun h s id (Keyed.lookup id s.peers)

  -- The session that a packet belongs to, and what it opens to.
  record InSession (s : State h) (message : List ℕ) (body : PacketBody) : Type 0 where
    header : NetworkHeader
    named : network_header (crates h) message h.network_key ≡ some header
    not_other : is_for_other h header ≡ false
    peer_id : ℕ
    peer : Peer h
    in_session : Keyed.lookup header.session_id s.rx_sessions ≡ some peer_id
    known : Keyed.lookup peer_id s.peers ≡ some peer
    opened : decrypt_packet (crates h) message h.network_key peer.rx_key ≡ some (header, body)

  allowed-routes :
      (p q : Peer h) (b : List ℕ)
      → SamePeer p q
      → peer_allows_ip_packet_source h.networks q b ≡ peer_allows_ip_packet_source h.networks p b
  unfolding peer_allows_ip_packet_source
  allowed-routes p q b same =
      ap (λ routes. Policy.from_routes h.networks routes (Policy.parse_source_ip b)) same.routes

  -- The peer as it is left: still the peer that was found, with a window that has taken the number.
  record IsMarked (peer marked : Peer h) (seq : ℕ) : Type 0 where
    same : SamePeer peer marked
    unseen : (Replay.accept peer.rx_replay seq).1 ≡ true
    recorded : marked.rx_replay ≡ (Replay.accept peer.rx_replay seq).0

  data-Outcome :
      (s t : State h) (message : List ℕ) (marked : Peer h) (seq : ℕ) (b : List ℕ)
      (i : InSession s message (data_packet seq b))
      → IsMarked i.peer marked seq
      → Written (set_peer h s i.peer_id marked) t i.peer_id b
      → Outcome s t message
  data-Outcome s t message marked seq b i m (inl e) = inl e
  data-Outcome s t message marked seq b i m (inr (e, kept, allowed, here)) =
      let found : Keyed.lookup i.peer_id (Keyed.insert i.peer_id marked s.peers) ≡ some marked =
        lookup-insert_self i.peer_id marked s.peers in
      let sent : peer_allows_ip_packet_source h.networks marked b ≡ true =
        ap (λ o. allowed_from h o b) (sym found) ∙ allowed in
      inr (
        b,
        e,
        record {
          header = i.header;
          named = i.named;
          not_other = i.not_other;
          seq = seq;
          peer_id = i.peer_id;
          peer = i.peer;
          in_session = i.in_session;
          known = i.known;
          opened = i.opened;
          unseen = m.unseen;
          may_send = sym (allowed-routes i.peer marked b m.same) ∙ sent;
          for_here = here;
          after = marked;
          still_known = ap (Keyed.lookup i.peer_id) kept ∙ found;
          recorded = m.recorded;
        },
      )

  Dispatched-Outcome :
      (s t : State h) (message : List ℕ) (marked : Peer h) (body : PacketBody)
      (i : InSession s message body)
      → IsMarked i.peer marked (packet_seq body)
      → Dispatched (set_peer h s i.peer_id marked) t i.peer_id body
      → Outcome s t message
  unfolding packet_seq
  Dispatched-Outcome s t message marked (data_packet seq b) i m d =
      data-Outcome s t message marked seq b i m d
  Dispatched-Outcome s t message marked (relay_forward seq next inner) i m d = inl d
  Dispatched-Outcome s t message marked (disconnect seq) i m d = inl d
  Dispatched-Outcome s t message marked (lighthouse_query seq ip) i m d = inl d
  Dispatched-Outcome s t message marked (lighthouse_response seq ip f addr cert relay) i m d = inl d
  Dispatched-Outcome s t message marked (lighthouse_not_found seq ip) i m d = inl d
  Dispatched-Outcome s t message marked (keepalive seq token) i m d = inl d
  Dispatched-Outcome s t message marked (keepalive_ack seq token) i m d = inl d

  mark_seen-rx_replay :
      (p : Peer h) (src : SocketAddr) (now : ℕ) (from_relay is_kept : Bool)
      → (mark_seen p src now from_relay is_kept).0.rx_replay ≡ p.rx_replay
  unfolding mark_seen
  mark_seen-rx_replay p src now from_relay is_kept = ground arith

  once-Outcome :
      (s : State h) (src : SocketAddr) (message : List ℕ) (clock : Clock) (body : PacketBody)
      (i : InSession s message body) (r : ReplayWindow × Bool)
      → Replay.accept i.peer.rx_replay (packet_seq body) ≡ r
      → Outcome s (once h s src clock i.peer_id i.peer body r) message
  once-Outcome s src message clock body i (window, false) e = inl refl
  once-Outcome s src message clock body i (window, true) e =
      let moved : Peer h = record i.peer { rx_replay = window } in
      let from_relay = not (addr_eqb i.peer.addr src) && relay_at h i.peer_id src s.peers in
      let marked = (mark_seen moved src clock.now from_relay (is_keepalive body)).0 in
      let same = mark_seen-SamePeer h moved src clock.now from_relay (is_keepalive body) in
      let after = dispatch h (set_peer h s i.peer_id marked) src clock i.peer_id body in
      Dispatched-Outcome s after message marked body i
        (record {
          same = record {
            cert = same.cert;
            routes = same.routes;
            rx_session_id = same.rx_session_id;
          };
          unseen = ap (λ x. x.1) e;
          recorded =
              mark_seen-rx_replay moved src clock.now from_relay (is_keepalive body)
              ∙ ap (λ x. x.0) (sym e);
        })
        (dispatch-Dispatched (set_peer h s i.peer_id marked) src clock i.peer_id body)

  pub choice-Outcome :
      (b : Bool) (s t u : State h) (message : List ℕ)
      → Outcome s t message
      → (b ≡ false → Outcome s u message)
      → Outcome s (if b then t else u) message
  choice-Outcome true s t u message ot ou = ot
  choice-Outcome false s t u message ot ou = ou refl

  -- What the header of a packet says, before the packet is opened.
  pub record IsNamed (message : List ℕ) (header : NetworkHeader) : Type 0 where
    pub named : network_header (crates h) message h.network_key ≡ some header
    pub not_other : is_for_other h header ≡ false

  of_not : (b : Bool) → not b ≡ false → b ≡ true
  of_not true e = refl
  of_not false e = absurd (cc)

  decoded-Outcome :
      (s : State h) (src : SocketAddr) (packet : List ℕ) (header : NetworkHeader) (clock : Clock)
      (id : ℕ) (p : Peer h) (o : Option (NetworkHeader × PacketBody))
      → IsNamed packet header
      → Keyed.lookup header.session_id s.rx_sessions ≡ some id
      → Keyed.lookup id s.peers ≡ some p
      → decrypt_packet (crates h) packet h.network_key p.rx_key ≡ o
      → Outcome s (decoded h s src clock header id p o) packet
  decoded-Outcome s src packet header clock id p none n es ep e = inl refl
  decoded-Outcome s src packet header clock id p (some (found, body)) n es ep e =
      choice-Outcome (not (header_eqb found header)) s s _ packet (inl refl) (λ agree.
        once-Outcome s src packet clock body
          (record {
            header = header;
            named = n.named;
            not_other = n.not_other;
            peer_id = id;
            peer = p;
            in_session = es;
            known = ep;
            opened =
                e
                ∙ ap (λ x. some (x, body))
                    (header_eqb-same found header (of_not (header_eqb found header) agree));
          })
          (Replay.accept p.rx_replay (packet_seq body)) refl)

  at_peer-Outcome :
      (s : State h) (src : SocketAddr) (packet : List ℕ) (header : NetworkHeader) (clock : Clock)
      (id : ℕ) (o : Option (Peer h))
      → IsNamed packet header
      → Keyed.lookup header.session_id s.rx_sessions ≡ some id
      → Keyed.lookup id s.peers ≡ o
      → Outcome s (at_peer h s src packet header clock id o) packet
  at_peer-Outcome s src packet header clock id none n es ep = inl refl
  at_peer-Outcome s src packet header clock id (some p) n es ep =
      decoded-Outcome s src packet header clock id p
        (decrypt_packet (crates h) packet h.network_key p.rx_key) n es ep refl

  at_session-Outcome :
      (s : State h) (src : SocketAddr) (packet : List ℕ) (header : NetworkHeader) (clock : Clock)
      (o : Option ℕ)
      → IsNamed packet header
      → Keyed.lookup header.session_id s.rx_sessions ≡ o
      → Outcome s (at_session h s src packet header clock o) packet
  at_session-Outcome s src packet header clock none n es = inl refl
  at_session-Outcome s src packet header clock (some id) n es =
      at_peer-Outcome s src packet header clock id (Keyed.lookup id s.peers) n es refl

  pub handle_session_packet-Outcome :
      (s : State h) (src : SocketAddr) (packet : List ℕ) (header : NetworkHeader) (clock : Clock)
      → IsNamed packet header
      → Outcome s (handle_session_packet h s src packet header clock) packet
  unfolding handle_session_packet
  handle_session_packet-Outcome s src packet header clock n =
      at_session-Outcome s src packet header clock (Keyed.lookup header.session_id s.rx_sessions) n
        refl
