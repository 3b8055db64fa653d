-- ===== src/Node/Frame/Lookup.antt =====
-- Queries, keepalives and data leave every session as it is.
use liteway.Common.{
  ℕ, ◌≡◌, refl, inl, inr, Bool, true, false, Option, none, some, List, [], ◌∷◌, arith, Bool-cases,
  ◌||◌, ◌==◌, ◌>>=◌,
}
use liteway.Common.Keyed
use liteway.Common.Keyed.{nat_eq}
use liteway.Net.{IpAddr, SocketAddr}
use liteway.Cert.{Cert}
use liteway.Wire.{DataPacket}
use liteway.Wire.Seal.{Draw}
use liteway.Peer.{same_addr, ack_keepalive, mark_seen, adopt}
use liteway.Policy.{is_link_local, is_overlay_broadcast}
use liteway.Routes
use liteway.Node.{Host, Clock, State, Peer, PeerTx, drew, send_message, peer_tx}
use liteway.Node.Lookup.{
  with_id, Reply, reply_to, introduce, introduce_back, answer_query, send_replies, query_from,
  handle_lighthouse_query, with_direct, learn_or_dial, handle_lighthouse_response, ack_with,
  answer_keepalive, acked, handle_keepalive_ack, learned, note_direct_endpoint,
}
use liteway.Node.Overlay.{is_multicast, data_with, forward, to_destination, send_to_overlay}
use liteway.Node.Frame.{
  SamePeer, SamePeer-refl, Keeps, Keeps-refl, Keeps-trans, set_peer-Keeps, send_wire-Keeps,
  drew-Keeps, send_message-Keeps, next_seq-SamePeer, peer_tx-Keeps,
}
use liteway.Node.Frame.Discovery.{choice-Keeps, start_handshake-Keeps, request_discovery-Keeps}

module _ (h : Host) where
  reply_to-Keeps :
      (s : State h) (id : ℕ) (o : Option (Peer h)) (build : ℕ → Peer h → Draw → DataPacket)
      → Keyed.lookup id s.peers ≡ o
      → Keeps h s (reply_to h s id o build).0
  reply_to-Keeps s id none build e = Keeps-refl h s
  reply_to-Keeps s id (some p) build e =
      Keeps-trans h s (drew h s) _ (drew-Keeps h s)
        (set_peer-Keeps h (drew h s) id p _ e (next_seq-SamePeer h p))

  introduce-Keeps :
      (s : State h) (to_id : ℕ) (ip : IpAddr) (about_id : ℕ) (about : Peer h)
      → Keeps h s (introduce h s to_id ip about_id about).0
  introduce-Keeps s to_id ip about_id about = reply_to-Keeps s to_id _ _ refl

  introduce_back-Keeps :
      (s : State h) (r : State h × List Reply) (found_id requester_id : ℕ) (requester : Peer h)
      (o : Option IpAddr)
      → Keeps h s r.0
      → Keeps h s (introduce_back h r found_id requester_id requester o).0
  introduce_back-Keeps s (t, replies) found_id requester_id requester none k = k
  introduce_back-Keeps s (t, replies) found_id requester_id requester (some ip) k =
      Keeps-trans h s t _ k (introduce-Keeps t found_id ip requester_id requester)

  answer_query-Keeps :
      (s : State h) (id : ℕ) (requester : Peer h) (ip : IpAddr) (o : Option (ℕ × Peer h))
      → Keeps h s (answer_query h s id requester ip o).0
  answer_query-Keeps s id requester ip none = reply_to-Keeps s id _ _ refl
  answer_query-Keeps s id requester ip (some (found_id, found)) =
      elim (Bool-cases (found_id == id)) [
        | inl e ↦ rw e (introduce-Keeps s id ip found_id found)
        | inr e ↦ rw e (
            introduce_back-Keeps s _ found_id id requester _
              (introduce-Keeps s id ip found_id found))
      ]

  send_replies-Keeps :
      (replies : List Reply) (s : State h) → Keeps h s (send_replies h (s, replies))
  send_replies-Keeps [] s = Keeps-refl h s
  send_replies-Keeps (r ∷ rest) s =
      let next = (send_message h s r.wire r.addr r.peer_id).0 in
      Keeps-trans h s next _ (send_message-Keeps h s r.wire r.addr r.peer_id)
        (send_replies-Keeps rest next)

  query_from-Keeps :
      (s : State h) (id : ℕ) (ip : IpAddr) (o : Option (Peer h))
      → Keeps h s (query_from h s id ip o)
  query_from-Keeps s id ip none = Keeps-refl h s
  query_from-Keeps s id ip (some requester) =
      let target = Routes.lookup h.networks s.routes ip >>= λ found.
      with_id h found (Keyed.lookup found s.peers) in
      let answered = answer_query h s id requester ip target in
      Keeps-trans h s answered.0 _ (answer_query-Keeps s id requester ip target)
        (send_replies-Keeps answered.1 answered.0)

  pub handle_lighthouse_query-Keeps :
      (s : State h) (id : ℕ) (ip : IpAddr) → Keeps h s (handle_lighthouse_query h s id ip)
  unfolding handle_lighthouse_query
  handle_lighthouse_query-Keeps s id ip =
      choice-Keeps h _ s s _ (Keeps-refl h s) (query_from-Keeps s id ip _)

  with_direct-SamePeer : (p : Peer h) (addr : SocketAddr) → SamePeer p (with_direct h p addr)
  with_direct-SamePeer p addr = elim (Bool-cases (same_addr p.direct_addr addr)) [
    | inl e ↦ rw e (SamePeer-refl p)
    | inr e ↦ rw e (record { cert = refl; routes = refl; rx_session_id = refl })
  ]

  learn_or_dial-Keeps :
      (s : State h) (clock : Clock) (id : ℕ) (addr : SocketAddr) (cert : Cert) (o : Option (Peer h))
      → Keyed.lookup id s.peers ≡ o
      → Keeps h s (learn_or_dial h s clock id addr cert o)
  learn_or_dial-Keeps s clock id addr cert none e =
      start_handshake-Keeps h s addr (some id) cert.body.meta.name clock
  learn_or_dial-Keeps s clock id addr cert (some p) e =
      set_peer-Keeps h s id p _ e (with_direct-SamePeer p addr)

  pub handle_lighthouse_response-Keeps :
      (s : State h) (clock : Clock) (ip : IpAddr) (id : ℕ) (addr : SocketAddr) (cert : Cert)
      → Keeps h s (handle_lighthouse_response h s clock ip id addr cert)
  unfolding handle_lighthouse_response
  handle_lighthouse_response-Keeps s clock ip id addr cert =
      choice-Keeps h _ s s _ (Keeps-refl h s) (learn_or_dial-Keeps s clock id addr cert _ refl)

  ack_with-Keeps :
      (s : State h) (id token : ℕ) (addr : SocketAddr) (r : State h × Option PeerTx)
      → Keeps h s r.0
      → Keeps h s (ack_with h id token addr r)
  ack_with-Keeps s id token addr (t, none) k = k
  ack_with-Keeps s id token addr (t, some tx) k =
      Keeps-trans h s t _ k
        (Keeps-trans h t (drew h t) _ (drew-Keeps h t) (send_wire-Keeps h (drew h t) _ addr))

  pub answer_keepalive-Keeps :
      (s : State h) (id token : ℕ) (addr : SocketAddr)
      → Keeps h s (answer_keepalive h s id token addr)
  unfolding answer_keepalive
  answer_keepalive-Keeps s id token addr =
      ack_with-Keeps s id token addr (peer_tx h s id) (peer_tx-Keeps h s id)

  ack_keepalive-SamePeer : (p : Peer h) (token now : ℕ) → SamePeer p (ack_keepalive p token now).0
  unfolding ack_keepalive
  ack_keepalive-SamePeer p token now = record {
    cert = ground arith;
    routes = ground arith;
    rx_session_id = ground arith;
  }

  acked-Keeps :
      (s : State h) (id token now : ℕ) (o : Option (Peer h))
      → Keyed.lookup id s.peers ≡ o
      → Keeps h s (acked h s id token now o)
  acked-Keeps s id token now none e = Keeps-refl h s
  acked-Keeps s id token now (some p) e =
      set_peer-Keeps h s id p _ e (ack_keepalive-SamePeer p token now)

  pub handle_keepalive_ack-Keeps :
      (s : State h) (id token now : ℕ) → Keeps h s (handle_keepalive_ack h s id token now)
  unfolding handle_keepalive_ack
  handle_keepalive_ack-Keeps s id token now = acked-Keeps s id token now _ refl

  learned-Keeps :
      (s : State h) (id : ℕ) (addr : SocketAddr) (o : Option (Peer h))
      → Keyed.lookup id s.peers ≡ o
      → Keeps h s (learned h s id addr o)
  learned-Keeps s id addr none e = Keeps-refl h s
  learned-Keeps s id addr (some p) e = set_peer-Keeps h s id p _ e (with_direct-SamePeer p addr)

  pub note_direct_endpoint-Keeps :
      (s : State h) (id : ℕ) (addr : SocketAddr) → Keeps h s (note_direct_endpoint h s id addr)
  unfolding note_direct_endpoint
  note_direct_endpoint-Keeps s id addr =
      choice-Keeps h _ s s _ (Keeps-refl h s) (learned-Keeps s id addr _ refl)

  data_with-Keeps :
      (s : State h) (id : ℕ) (ip_packet : List ℕ) (r : State h × Option PeerTx)
      → Keeps h s r.0
      → Keeps h s (data_with h id ip_packet r)
  data_with-Keeps s id ip_packet (t, none) k = k
  data_with-Keeps s id ip_packet (t, some tx) k =
      Keeps-trans h s t _ k
        (Keeps-trans h t (drew h t) _ (drew-Keeps h t) (send_wire-Keeps h (drew h t) _ tx.addr))

  forward-Keeps :
      (s : State h) (ip_packet : List ℕ) (ip : IpAddr) (now : ℕ) (o : Option ℕ)
      → Keeps h s (forward h s ip_packet ip now o)
  forward-Keeps s ip_packet ip now none = request_discovery-Keeps h s ip now
  forward-Keeps s ip_packet ip now (some id) =
      data_with-Keeps s id ip_packet (peer_tx h s id) (peer_tx-Keeps h s id)

  to_destination-Keeps :
      (s : State h) (ip_packet : List ℕ) (nets : List h.networks.Net) (now : ℕ) (o : Option IpAddr)
      → Keeps h s (to_destination h s ip_packet nets now o)
  to_destination-Keeps s ip_packet nets now none = Keeps-refl h s
  to_destination-Keeps s ip_packet nets now (some ip) =
      choice-Keeps h (is_multicast ip || is_link_local ip) s s _ (Keeps-refl h s) (
        choice-Keeps h (is_overlay_broadcast h.networks ip nets) s s _ (Keeps-refl h s)
          (forward-Keeps s ip_packet ip now (Routes.lookup h.networks s.routes ip)))

  pub send_to_overlay-Keeps :
      (s : State h) (ip_packet : List ℕ) (nets : List h.networks.Net) (now : ℕ)
      → Keeps h s (send_to_overlay h s ip_packet nets now)
  unfolding send_to_overlay
  send_to_overlay-Keeps s ip_packet nets now = to_destination-Keeps s ip_packet nets now _

  adopt-SamePeer : (p : Peer h) (src : SocketAddr) (relay : Bool) → SamePeer p (adopt p src relay).0
  unfolding adopt
  adopt-SamePeer p src true = record { cert = refl; routes = refl; rx_session_id = refl }
  adopt-SamePeer p src false = record { cert = refl; routes = refl; rx_session_id = refl }

  pub mark_seen-SamePeer :
      (p : Peer h) (src : SocketAddr) (now : ℕ) (relay keepalive : Bool)
      → SamePeer p (mark_seen p src now relay keepalive).0
  unfolding mark_seen adopt
  mark_seen-SamePeer p src now relay keepalive = record {
    cert = ground arith;
    routes = ground arith;
    rx_session_id = ground arith;
  }
