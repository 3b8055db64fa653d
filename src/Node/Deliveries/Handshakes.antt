-- ===== src/Node/Deliveries/Handshakes.antt =====
-- Handshakes write nothing to the device.
use liteway.Common.{
  ℕ, ◌≡◌, refl, ◌∙◌, Bool, true, false, Option, none, some, List, arith, take, ◌==◌, if◌then◌else◌,
}
use liteway.Common.Bytes.{from_be}
use liteway.Common.Keyed
use liteway.Common.Keyed.{nat_eq}
use liteway.Net.{SocketAddr}
use liteway.Cache
use liteway.Cache.{CachedHandshake}
use liteway.Pending.{PendingHandshake}
use liteway.Policy.{node_id_from_cert}
use liteway.Handshake.Result.{Result, ok, err}
use liteway.Handshake.Message.{HandshakeResponse, HandshakeResult}
use liteway.Handshake.Message.Process.{process_handshake_1, process_handshake_2}
use liteway.Node.{Host, Clock, State, Peer, crates, drew}
use liteway.Node.Sessions.{NewPeer, add_peer, install_peer, bind_lighthouse, remove_found}
use liteway.Node.Accept
use liteway.Node.Accept.{
  new_from_response, join, after_process_1, answer_1, handle_handshake_1, new_from_result,
  after_process_2, try_answer, handle_handshake_2,
}
use liteway.Node.Lookup.{note_direct_endpoint}
use liteway.Node.Frame.{send_message_with_id-Keeps}
use liteway.Node.Frame.Lookup.{note_direct_endpoint-Keeps}

module _ (h : Host) where
  pub choice-tun :
      (b : Bool) (s t u : State h)
      → t.tun ≡ s.tun
      → u.tun ≡ s.tun
      → (if b then t else u).tun ≡ s.tun
  choice-tun true s t u et eu = et
  choice-tun false s t u et eu = eu

  pub remove_found-tun :
      (s : State h) (id : ℕ) (o : Option (Peer h)) → (remove_found h s id o).tun ≡ s.tun
  remove_found-tun s id none = refl
  remove_found-tun s id (some p) = refl

  add_peer-tun : (s : State h) (p : NewPeer) (now : ℕ) → (add_peer h s p now).0.tun ≡ s.tun
  unfolding add_peer install_peer bind_lighthouse
  add_peer-tun s p now = ground arith

  join-tun :
      (s : State h) (src : SocketAddr) (clock : Clock) (digest : List ℕ) (r : HandshakeResponse)
      → (join h s src clock digest r).tun ≡ s.tun
  join-tun s src clock digest r =
      let id = node_id_from_cert (crates h) r.peer_cert in
      let cached = record s {
        handshake_cache = Cache.insert s.handshake_cache digest r.msg id clock.now;
      } in
      let member = new_from_response h cached src id r in
      let added = (add_peer h cached member clock.now).0 in
      choice-tun (id == h.our_id) s s _ refl (
        (send_message_with_id-Keeps h added r.msg src id (from_be (take 4 digest))).tun
        ∙ add_peer-tun cached member clock.now)

  after_process_1-tun :
      (s : State h) (src : SocketAddr) (clock : Clock) (digest : List ℕ)
      (r : Result HandshakeResponse)
      → (after_process_1 h s src clock digest r).tun ≡ s.tun
  after_process_1-tun s src clock digest (err e) = refl
  after_process_1-tun s src clock digest (ok r) = join-tun s src clock digest r

  answer_1-tun :
      (s : State h) (src : SocketAddr) (packet : List ℕ) (clock : Clock) (digest : List ℕ)
      (o : Option CachedHandshake)
      → (answer_1 h s src packet clock digest o).tun ≡ s.tun
  answer_1-tun s src packet clock digest none = after_process_1-tun (drew h s) src clock digest (
      process_handshake_1 h.primitives packet h.cert h.signing_key h.network_key h.ca_vk h.am_relay
        clock.unix (h.handshake_draw s.draws))
  answer_1-tun s src packet clock digest (some entry) =
      let noted = note_direct_endpoint h s entry.peer_id src in
      (send_message_with_id-Keeps h noted entry.response src entry.peer_id
        (from_be (take 4 digest))).tun
      ∙ (note_direct_endpoint-Keeps h s entry.peer_id src).tun

  pub handle_handshake_1-tun :
      (s : State h) (src : SocketAddr) (packet : List ℕ) (clock : Clock)
      → (handle_handshake_1 h s src packet clock).tun ≡ s.tun
  unfolding handle_handshake_1
  handle_handshake_1-tun s src packet clock =
      let digest = (crates h).hash packet in
      answer_1-tun s src packet clock digest (Cache.get s.handshake_cache digest clock.now)

  after_process_2-tun :
      (s : State h) (src : SocketAddr) (sid : ℕ) (clock : Clock) (p : PendingHandshake)
      (r : Result HandshakeResult)
      → (after_process_2 h s src sid clock p r).tun ≡ s.tun
  after_process_2-tun s src sid clock p (err e) = refl
  after_process_2-tun s src sid clock p (ok r) =
      let id = node_id_from_cert (crates h) r.peer_cert in
      let done = record s { pending = Keyed.remove sid s.pending } in
      choice-tun (Accept.is_other p.peer_id id) s s _ refl
        (add_peer-tun done (new_from_result h done src id p.direct_addr r) clock.now)

  try_answer-tun :
      (s : State h) (src : SocketAddr) (packet : List ℕ) (sid : ℕ) (clock : Clock)
      (o : Option PendingHandshake)
      → (try_answer h s src packet sid clock o).tun ≡ s.tun
  try_answer-tun s src packet sid clock none = refl
  try_answer-tun s src packet sid clock (some p) =
      after_process_2-tun s src sid clock p
        (process_handshake_2 h.primitives packet p.initiate h.network_key h.ca_vk clock.unix)

  pub handle_handshake_2-tun :
      (s : State h) (src : SocketAddr) (packet : List ℕ) (sid : ℕ) (clock : Clock)
      → (handle_handshake_2 h s src packet sid clock).tun ≡ s.tun
  unfolding handle_handshake_2
  handle_handshake_2-tun s src packet sid clock =
      try_answer-tun s src packet sid clock (Keyed.lookup sid s.pending)
