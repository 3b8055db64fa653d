-- ===== src/Node/Invariant/Handlers.antt =====
-- The handlers of handshakes keep the maps of the node together.
use liteway.Common.{
  ℕ, ◌≡◌, refl, Bool, true, false, Option, none, some, List, take, ◌==◌, if◌then◌else◌,
}
use liteway.Common.Bytes.{from_be}
use liteway.Common.Keyed
use liteway.Common.Keyed.{nat_eq}
use liteway.Net.{SocketAddr}
use liteway.Cache
use liteway.Cache.{CachedHandshake}
use liteway.Pending.{PendingHandshake}
use liteway.Policy.{node_id_from_cert}
use liteway.Handshake.Result.{Result, ok, err}
use liteway.Handshake.Message.{HandshakeResponse, HandshakeResult}
use liteway.Handshake.Message.Process.{process_handshake_1, process_handshake_2}
use liteway.Handshake.Message.Authenticity.{
  process_handshake_1-authentic, process_handshake_2-authentic,
}
use liteway.Node.{Host, Clock, State, crates, drew}
use liteway.Node.Sessions.{add_peer}
use liteway.Node.Accept.{
  new_from_response, join, after_process_1, answer_1, handle_handshake_1, new_from_result, complete,
  after_process_2, try_answer, handle_handshake_2, is_other,
}
use liteway.Node.Lookup.{note_direct_endpoint}
use liteway.Node.Frame.{frame, Keeps-trans, drew-Keeps, send_message_with_id-Keeps}
use liteway.Node.Frame.Lookup.{note_direct_endpoint-Keeps}
use liteway.Node.Invariant.{IsValid, Keeps-IsValid}
use liteway.Node.Invariant.Members.{IsChecked, add_peer-IsValid}

module _ (h : Host) where
  -- A choice between two states that are both fine.
  pub choice-IsValid :
      (b : Bool) (s t : State h) → IsValid h s → IsValid h t → IsValid h (if b then s else t)
  choice-IsValid true s t v w = v
  choice-IsValid false s t v w = w

  join-IsValid :
      (s : State h) (src : SocketAddr) (clock : Clock) (digest : List ℕ) (r : HandshakeResponse)
      → IsChecked h (new_from_response h s src (node_id_from_cert (crates h) r.peer_cert) r)
      → IsValid h s
      → IsValid h (join h s src clock digest r)
  join-IsValid s src clock digest r c v =
      let id = node_id_from_cert (crates h) r.peer_cert in
      let cached = record s {
        handshake_cache = Cache.insert s.handshake_cache digest r.msg id clock.now;
      } in
      let member = new_from_response h cached src id r in
      let added = (add_peer h cached member clock.now).0 in
      choice-IsValid (id == h.our_id) s _ v (
        Keeps-IsValid h added _
          (send_message_with_id-Keeps h added r.msg src id (from_be (take 4 digest)))
          (add_peer-IsValid h cached member clock.now
            (record { named = refl; checked_at = c.checked_at; verified = c.verified })
            (Keeps-IsValid h s cached (frame h s cached refl refl refl refl refl) v)))

  after_process_1-IsValid :
      (s : State h) (src : SocketAddr) (packet : List ℕ) (clock : Clock) (digest : List ℕ) (n : ℕ)
      (r : Result HandshakeResponse)
      → process_handshake_1 h.primitives packet h.cert h.signing_key h.network_key h.ca_vk
          h.am_relay clock.unix
          (h.handshake_draw n)
        ≡ r
      → IsValid h s
      → IsValid h (after_process_1 h s src clock digest r)
  after_process_1-IsValid s src packet clock digest n (err e) q v = v
  after_process_1-IsValid s src packet clock digest n (ok r) q v =
      let (_, _, _, _, signed) =
        process_handshake_1-authentic h.primitives packet h.cert h.signing_key h.network_key h.ca_vk
          h.am_relay clock.unix (h.handshake_draw n) r q in
      join-IsValid s src clock digest r
        (record { named = refl; checked_at = clock.unix; verified = signed.verified }) v

  answer_1-IsValid :
      (s : State h) (src : SocketAddr) (packet : List ℕ) (clock : Clock) (digest : List ℕ)
      (o : Option CachedHandshake)
      → IsValid h s
      → IsValid h (answer_1 h s src packet clock digest o)
  answer_1-IsValid s src packet clock digest none v =
      after_process_1-IsValid (drew h s) src packet clock digest s.draws _ refl
        (Keeps-IsValid h s (drew h s) (drew-Keeps h s) v)
  answer_1-IsValid s src packet clock digest (some entry) v =
      let noted = note_direct_endpoint h s entry.peer_id src in
      Keeps-IsValid h s _
        (Keeps-trans h s noted _ (note_direct_endpoint-Keeps h s entry.peer_id src) (
          send_message_with_id-Keeps h noted entry.response src entry.peer_id
            (from_be (take 4 digest))))
        v

  pub handle_handshake_1-IsValid :
      (s : State h) (src : SocketAddr) (packet : List ℕ) (clock : Clock)
      → IsValid h s
      → IsValid h (handle_handshake_1 h s src packet clock)
  unfolding handle_handshake_1
  handle_handshake_1-IsValid s src packet clock v =
      answer_1-IsValid s src packet clock ((crates h).hash packet) _ v

  completed-IsValid :
      (s : State h) (src : SocketAddr) (sid : ℕ) (clock : Clock) (p : PendingHandshake)
      (r : HandshakeResult)
      → IsChecked h (new_from_result h s src (node_id_from_cert (crates h) r.peer_cert) src r)
      → IsValid h s
      → IsValid h (complete h s src sid clock p r)
  completed-IsValid s src sid clock p r c v =
      let id = node_id_from_cert (crates h) r.peer_cert in
      let done = record s { pending = Keyed.remove sid s.pending } in
      choice-IsValid (is_other p.peer_id id) s _ v (
        add_peer-IsValid h done (new_from_result h done src id p.direct_addr r) clock.now
          (record { named = refl; checked_at = c.checked_at; verified = c.verified })
          (Keeps-IsValid h s done (frame h s done refl refl refl refl refl) v))

  after_process_2-IsValid :
      (s : State h) (src : SocketAddr) (packet : List ℕ) (sid : ℕ) (clock : Clock)
      (p : PendingHandshake) (r : Result HandshakeResult)
      → process_handshake_2 h.primitives packet p.initiate h.network_key h.ca_vk clock.unix ≡ r
      → IsValid h s
      → IsValid h (after_process_2 h s src sid clock p r)
  after_process_2-IsValid s src packet sid clock p (err e) q v = v
  after_process_2-IsValid s src packet sid clock p (ok r) q v =
      let (_, _, _, _, _, _, signed) =
        process_handshake_2-authentic h.primitives packet p.initiate h.network_key h.ca_vk
          clock.unix r q in
      completed-IsValid s src sid clock p r
        (record { named = refl; checked_at = clock.unix; verified = signed.verified }) v

  try_answer-IsValid :
      (s : State h) (src : SocketAddr) (packet : List ℕ) (sid : ℕ) (clock : Clock)
      (o : Option PendingHandshake)
      → IsValid h s
      → IsValid h (try_answer h s src packet sid clock o)
  try_answer-IsValid s src packet sid clock none v = v
  try_answer-IsValid s src packet sid clock (some p) v =
      after_process_2-IsValid s src packet sid clock p _ refl v

  pub handle_handshake_2-IsValid :
      (s : State h) (src : SocketAddr) (packet : List ℕ) (sid : ℕ) (clock : Clock)
      → IsValid h s
      → IsValid h (handle_handshake_2 h s src packet sid clock)
  unfolding handle_handshake_2
  handle_handshake_2-IsValid s src packet sid clock v =
      try_answer-IsValid s src packet sid clock _ v
