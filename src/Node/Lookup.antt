-- ===== src/Node/Lookup.antt =====
-- Lighthouse queries and answers, and keepalives, in litewayd/src/main.rs.
use liteway.Common.{
  ℕ, Bool, not, ◌&&◌, Option, none, some, List, [], ◌∷◌, ◌++◌, any, ◌==◌, if◌then◌else◌, ◌>>=◌,
}
use liteway.Common.Keyed
use liteway.Common.Keyed.{nat_eq}
use liteway.Net.{IpAddr, SocketAddr}
use liteway.Cert.{pos, Cert, verify}
use liteway.Peer.{same_addr, next_seq, ack_keepalive}
use liteway.Policy.{primary_cert_ip, authorized_peer_routes, node_id_from_cert}
use liteway.Routes
use liteway.Wire.{DataPacket, serialize_packet}
use liteway.Wire.Body.{
  encrypt_lighthouse_response_packet, encrypt_lighthouse_not_found_packet,
  encrypt_keepalive_ack_packet,
}
use liteway.Wire.Seal.{Draw}
use liteway.Node.{
  Host, Clock, State, Peer, PeerTx, crates, set_peer, send_wire, send_message, peer_tx, next_draw,
  drew, addr_is_relay,
}
use liteway.Node.Sessions.{start_handshake}

-- A packet for one peer, ready to be sent.
pub record Reply : Type 0 where
  pub addr : SocketAddr
  pub peer_id : ℕ
  pub wire : List ℕ

module _ (h : Host) where
  open h use {networks}

  -- A packet that is numbered and built while the peers are locked.
  abbrev pub reply_to :
      State h → ℕ → Option (Peer h) → (ℕ → Peer h → Draw → DataPacket) → State h × List Reply
  reply_to s peer_id none build = (s, [])
  reply_to s peer_id (some peer) build =
      let (numbered, seq) = next_seq peer in
      (
        set_peer h (drew h s) peer_id numbered,
        record {
          addr = numbered.addr;
          peer_id = peer_id;
          wire = serialize_packet (build seq numbered (next_draw h s));
        }
            ∷ [],
      )

  -- Tells `to_id` where the peer `about_id` is.
  abbrev pub introduce : State h → ℕ → IpAddr → ℕ → Peer h → State h × List Reply
  introduce s to_id ip about_id about = reply_to s to_id (Keyed.lookup to_id s.peers) (λ seq to d.
      encrypt_lighthouse_response_packet (crates h) seq to_id to.tx_session_id ip about_id
        about.addr about.cert about.is_relay h.network_key to.tx_key d)

  abbrev pub introduce_back :
      State h × List Reply → ℕ → ℕ → Peer h → Option IpAddr → State h × List Reply
  introduce_back (s, replies) found_id requester_id requester none = (s, replies)
  introduce_back (s, replies) found_id requester_id requester (some requester_ip) =
      let (t, more) = introduce s found_id requester_ip requester_id requester in
      (t, replies ++ more)

  abbrev pub answer_query :
      State h → ℕ → Peer h → IpAddr → Option (ℕ × Peer h) → State h × List Reply
  answer_query s requester_id requester target_ip none =
      reply_to s requester_id (Keyed.lookup requester_id s.peers) (λ seq to d.
        encrypt_lighthouse_not_found_packet (crates h) seq requester_id to.tx_session_id target_ip
          h.network_key to.tx_key d)
  answer_query s requester_id requester target_ip (some (found_id, found)) =
      let answered = introduce s requester_id target_ip found_id found in
      if found_id == requester_id
      then answered
      else introduce_back answered found_id requester_id requester
          (primary_cert_ip networks requester.cert)

  abbrev pub send_replies : State h × List Reply → State h
  send_replies (s, []) = s
  send_replies (s, reply ∷ rest) =
      send_replies ((send_message h s reply.wire reply.addr reply.peer_id).0, rest)

  abbrev pub with_id : ℕ → Option (Peer h) → Option (ℕ × Peer h)
  with_id id none = none
  with_id id (some peer) = some (id, peer)

  abbrev pub query_from : State h → ℕ → IpAddr → Option (Peer h) → State h
  query_from s requester_id target_ip none = s
  query_from s requester_id target_ip (some requester) =
      let target =
        Routes.lookup networks s.routes target_ip >>= λ id. with_id id (Keyed.lookup id s.peers) in
      send_replies (answer_query s requester_id requester target_ip target)

  unfoldable pub handle_lighthouse_query : State h → ℕ → IpAddr → State h
  handle_lighthouse_query s requester_id target_ip =
      if not h.am_lighthouse
      then s
      else query_from s requester_id target_ip (Keyed.lookup requester_id s.peers)

  -- What an answer says of a peer must hold of its certificate.
  unfoldable pub believes : Clock → IpAddr → ℕ → Cert → Bool
  believes clock target_ip peer_id peer_cert =
      not (peer_id == h.our_id)
      && (verify h.primitives.signatures (pos clock.unix) peer_cert h.ca_vk
          && (node_id_from_cert (crates h) peer_cert == peer_id
              && any (λ route. networks.contains route target_ip)
                  (authorized_peer_routes networks peer_cert)))

  -- An address to punch towards, from the next probe on.
  abbrev pub with_direct : Peer h → SocketAddr → Peer h
  with_direct peer addr =
      if same_addr peer.direct_addr addr
      then peer
      else record peer { direct_addr = some addr; next_probe = none }

  abbrev pub learn_or_dial : State h → Clock → ℕ → SocketAddr → Cert → Option (Peer h) → State h
  learn_or_dial s clock peer_id peer_addr peer_cert none =
      (start_handshake h s peer_addr (some peer_id) peer_cert.body.meta.name clock).0
  learn_or_dial s clock peer_id peer_addr peer_cert (some peer) =
      set_peer h s peer_id (with_direct peer peer_addr)

  unfoldable pub handle_lighthouse_response :
      State h → Clock → IpAddr → ℕ → SocketAddr → Cert → State h
  handle_lighthouse_response s clock target_ip peer_id peer_addr peer_cert =
      if not (believes clock target_ip peer_id peer_cert)
      then s
      else learn_or_dial s clock peer_id peer_addr peer_cert (Keyed.lookup peer_id s.peers)

  abbrev pub ack_with : ℕ → ℕ → SocketAddr → State h × Option PeerTx → State h
  ack_with peer_id token reply_addr (s, none) = s
  ack_with peer_id token reply_addr (s, some tx) =
      send_wire h (drew h s)
        (serialize_packet (
          encrypt_keepalive_ack_packet (crates h) tx.seq peer_id tx.session_id token h.network_key
            tx.key (next_draw h s)))
        reply_addr

  unfoldable pub answer_keepalive : State h → ℕ → ℕ → SocketAddr → State h
  answer_keepalive s peer_id token reply_addr =
      ack_with peer_id token reply_addr (peer_tx h s peer_id)

  abbrev pub acked : State h → ℕ → ℕ → ℕ → Option (Peer h) → State h
  acked s peer_id token now none = s
  acked s peer_id token now (some peer) = set_peer h s peer_id (ack_keepalive peer token now).0

  unfoldable pub handle_keepalive_ack : State h → ℕ → ℕ → ℕ → State h
  handle_keepalive_ack s peer_id token now =
      acked s peer_id token now (Keyed.lookup peer_id s.peers)

  abbrev pub learned : State h → ℕ → SocketAddr → Option (Peer h) → State h
  learned s peer_id addr none = s
  learned s peer_id addr (some peer) = set_peer h s peer_id (with_direct peer addr)

  unfoldable pub note_direct_endpoint : State h → ℕ → SocketAddr → State h
  note_direct_endpoint s peer_id addr =
      if addr_is_relay h s addr then s else learned s peer_id addr (Keyed.lookup peer_id s.peers)
