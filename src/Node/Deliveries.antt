-- ===== src/Node/Deliveries.antt =====
-- What reaches the device of a node.
pub mod Sessions
pub mod Handshakes
use liteway.Common.{
  Bool, true, false, ap, if◌then◌else◌, ℕ, ◌≡◌, refl, ◌⊎◌, inl, inr, Option, none, some, List, [],
  ◌∷◌, ◌++◌, ◌==◌,
}
use liteway.Net.{SocketAddr}
use liteway.Wire.{NetworkHeader, network_header, kind_handshake_1, kind_handshake_2}
use liteway.Frag
use liteway.Frag.{FragmentAssembler, FeedResult, complete, buffered, not_fragment}
use liteway.Node.{Host, Clock, State, crates}
use liteway.Node.Receive.{is_for_other, by_kind, assembled, routed, handle_datagram}
use liteway.Node.Invariant.{IsPeer, IsValid}
use liteway.Node.Invariant.Datagrams.{relay_datagram-Keeps}
use liteway.Node.Deliveries.Handshakes.{handle_handshake_1-tun, handle_handshake_2-tun}
use liteway.Node.Deliveries.Sessions.{
  Outcome, choice-Outcome, handle_session_packet-Outcome, Admitted,
}

module _ (h : Host) where
  by_kind-Outcome :
      (s : State h) (src : SocketAddr) (packet : List ℕ) (clock : Clock) (o : Option NetworkHeader)
      → network_header (crates h) packet h.network_key ≡ o
      → Outcome h s (by_kind h s src packet clock o) packet
  by_kind-Outcome s src packet clock none e = inl refl
  by_kind-Outcome s src packet clock (some header) e =
      choice-Outcome h (header.kind == kind_handshake_1) s _ _ packet
        (inl (handle_handshake_1-tun h s src packet clock))
        (λ _.
          choice-Outcome h (header.kind == kind_handshake_2) s _ _ packet
            (inl (handle_handshake_2-tun h s src packet header.session_id clock))
            (λ _.
              choice-Outcome h (is_for_other h header) s _ _ packet
                (inl (relay_datagram-Keeps h s packet header.dst_peer_id).tun)
                (λ ours.
                  handle_session_packet-Outcome h s src packet header clock
                    (record { named = e; not_other = ours }))))

  -- The message that a datagram completes: itself if it is no fragment, or what the assembler puts
  -- together with it.
  abbrev pub Completes : State h → SocketAddr → List ℕ → ℕ → List ℕ → Type 0
  Completes s src datagram now message =
      let fed = (Frag.feed (crates h) s.assembler src datagram h.network_key now).1 in
      ((fed ≡ not_fragment) × (message ≡ datagram)) ⊎ (fed ≡ complete message)

  -- The device is written nothing, or one packet of the message that the datagram completes.
  abbrev Delivered : State h → SocketAddr → List ℕ → ℕ → State h → Type 0
  Delivered s src datagram now t =
      (t.tun ≡ s.tun)
      ⊎ ((message ip_packet : List ℕ) × (t.tun ≡ s.tun ++ (ip_packet ∷ []))
          × Completes s src datagram now message
          × Admitted h s t message ip_packet)

  -- The assembler takes no part in what is let through.
  with_assembler-Delivered :
      (s : State h) (a : FragmentAssembler) (t : State h) (src : SocketAddr)
      (datagram message : List ℕ) (now : ℕ)
      → Completes s src datagram now message
      → Outcome h (record s { assembler = a }) t message
      → Delivered s src datagram now t
  with_assembler-Delivered s a t src datagram message now c (inl e) = inl e
  with_assembler-Delivered s a t src datagram message now c (inr (b, e, m)) = inr (
    message,
    b,
    e,
    c,
    record {
      header = m.header;
      named = m.named;
      not_other = m.not_other;
      seq = m.seq;
      peer_id = m.peer_id;
      peer = m.peer;
      in_session = m.in_session;
      known = m.known;
      opened = m.opened;
      unseen = m.unseen;
      may_send = m.may_send;
      for_here = m.for_here;
      after = m.after;
      still_known = m.still_known;
      recorded = m.recorded;
    },
  )

  assembled-Delivered :
      (s : State h) (src : SocketAddr) (message : List ℕ) (clock : Clock)
      (r : FragmentAssembler × FeedResult)
      → Frag.feed (crates h) s.assembler src message h.network_key clock.now ≡ r
      → Delivered s src message clock.now (assembled h s src message clock r)
  assembled-Delivered s src message clock (a, complete packet) e =
      let b : State h = record s { assembler = a } in
      let header = network_header (crates h) packet h.network_key in
      with_assembler-Delivered s a (by_kind h b src packet clock header) src message packet
        clock.now (inr (ap (λ x. x.1) e)) (by_kind-Outcome b src packet clock header refl)
  assembled-Delivered s src message clock (a, buffered) e = inl refl
  assembled-Delivered s src message clock (a, not_fragment) e =
      let b : State h = record s { assembler = a } in
      let header = network_header (crates h) message h.network_key in
      with_assembler-Delivered s a (by_kind h b src message clock header) src message message
        clock.now (inl (ap (λ x. x.1) e, refl)) (by_kind-Outcome b src message clock header refl)

  choice-Delivered :
      (b : Bool) (s : State h) (src : SocketAddr) (message : List ℕ) (now : ℕ) (t u : State h)
      → t.tun ≡ s.tun
      → Delivered s src message now u
      → Delivered s src message now (if b then t else u)
  choice-Delivered true s src message now t u e d = inl e
  choice-Delivered false s src message now t u e d = d

  routed-Delivered :
      (s : State h) (src : SocketAddr) (message : List ℕ) (clock : Clock) (o : Option NetworkHeader)
      → Delivered s src message clock.now (routed h s src message clock o)
  routed-Delivered s src message clock none =
      assembled-Delivered s src message clock
        (Frag.feed (crates h) s.assembler src message h.network_key clock.now) refl
  routed-Delivered s src message clock (some header) =
      choice-Delivered (is_for_other h header) s src message clock.now _ _
        (relay_datagram-Keeps h s message header.dst_peer_id).tun
        (assembled-Delivered s src message clock
          (Frag.feed (crates h) s.assembler src message h.network_key clock.now) refl)

  -- Whatever datagram a node in a well-formed state receives, from whomever, its device is written
  -- nothing, or one IP packet. That is the packet of the datagram, or of the message that the assembler
  -- completes with it; the header of that message is for this node and names a session of the node;
  -- the message opens under the key of the session's peer, with the same header and a number that the
  -- peer's replay window takes; this node takes packets for its destination; and its source is in a
  -- network that the certificate of the peer, which has been found valid, lets it route. The window that
  -- is kept for the peer afterwards is the one that has taken the number.
  pub handle_datagram-tun :
      (s : State h) (src : SocketAddr) (datagram : List ℕ) (clock : Clock)
      → IsValid h s
      → let t = handle_datagram h s src datagram clock in
        (t.tun ≡ s.tun)
        ⊎ ((message ip_packet : List ℕ) × (t.tun ≡ s.tun ++ (ip_packet ∷ []))
            × Completes s src datagram clock.now message
            × ((a : Admitted h s t message ip_packet) × IsPeer h a.peer_id a.peer))
  unfolding handle_datagram
  handle_datagram-tun s src datagram clock v =
      elim (routed-Delivered s src datagram clock
        (network_header (crates h) datagram h.network_key)) [
          | inl e ↦ inl e
          | inr (message, b, e, c, a) ↦
              inr (message, b, e, c, (a, v.identity a.peer_id a.peer a.known))
        ]
