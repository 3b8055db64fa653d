-- ===== src/Node/Frame/Discovery.antt =====
-- Handshakes that are started and lighthouses that are asked change no peer.
use liteway.Common.{
  ℕ, refl, inl, inr, Bool, true, false, Option, none, some, List, [], ◌∷◌, map, Bool-cases, ltb,
  if◌then◌else◌, not, ◌||◌,
}
use liteway.Common.Keyed
use liteway.Common.Keyed.{nat_eq}
use liteway.Net.{Text, text_eqb, IpAddr, SocketAddr, addr_eqb}
use liteway.Pending.{HandshakeInitiate, is_expired}
use liteway.Time.{duration_since}
use liteway.Node.{
  lighthouse_reresolve, Host, Clock, Node, State, Peer, PeerTx, LighthouseSlot,
  send_message_with_id, send_message, peer_tx, drew,
}
use liteway.Node
use liteway.Node.Sessions
use liteway.Node.Sessions.{insert_pending, start_handshake}
use liteway.Node.Discovery.{
  moved, refresh_slot, refresh_lighthouse_address, dial, connect_each, connect_lighthouses,
  query_with, query_each, request_discovery, query_targets,
}
use liteway.Node.Maintenance.{
  relays_of, retry_each, Retransmission, send_to_targets, send_each, retransmit_handshakes, Action,
  send, look_up, act, act_each,
}
use liteway.Node.Frame.{
  Same-refl, Bound, AllBound, Keeps, frame, Keeps-refl, Keeps-trans, send_wire-Keeps, drew-Keeps,
  send_message_with_id-Keeps, send_message-Keeps, peer_tx-Keeps,
}

-- A choice between two states.
pub choice-Keeps :
    (h : Host) (b : Bool) (s t u : State h)
    → Keeps h s t
    → Keeps h s u
    → Keeps h s (if b then t else u)
choice-Keeps h true s t u kt ku = kt
choice-Keeps h false s t u kt ku = ku

module _ (h : Host) where
  insert_pending-Keeps :
      (s : State h) (init : HandshakeInitiate) (addr : SocketAddr) (id : Option ℕ) (name : Text)
      (now : ℕ) (r : State h × Bool)
      → Keeps h s r.0
      → Keeps h s (insert_pending h init addr id name now r).0
  insert_pending-Keeps s init addr id name now (t, false) k = k
  insert_pending-Keeps s init addr id name now (t, true) k =
      Keeps-trans h s t _ k (frame h t _ refl refl refl refl refl)

  pub start_handshake-Keeps :
      (s : State h) (addr : SocketAddr) (id : Option ℕ) (name : Text) (clock : Clock)
      → Keeps h s (start_handshake h s addr id name clock).0
  unfolding start_handshake
  start_handshake-Keeps s addr id name clock =
      elim (Bool-cases (Node.any_value (Sessions.in_flight addr id) s.pending)) [
        | inl e ↦ rw e (Keeps-refl h s)
        | inr e ↦ rw e (
            insert_pending-Keeps s _ addr id name clock.now _ (
              Keeps-trans h s (drew h s) _ (drew-Keeps h s)
                (send_message_with_id-Keeps h (drew h s) _ addr _ _)))
      ]

  moved-Bound :
      (m : List (ℕ × Peer h)) (resolved : SocketAddr) (now : ℕ) (slot : LighthouseSlot)
      → Bound h m slot.peer_id
      → Bound h m (moved resolved now slot).peer_id
  moved-Bound m resolved now slot b = elim (Bool-cases (addr_eqb slot.address resolved)) [
    | inl e ↦ rw e b
    | inr e ↦ rw e tt
  ]

  refresh_slot-Bound :
      (m : List (ℕ × Peer h)) (l : LighthouseSlot) (resolved : SocketAddr) (now : ℕ)
      (slot : LighthouseSlot)
      → Bound h m slot.peer_id
      → Bound h m (refresh_slot l resolved now slot).peer_id
  refresh_slot-Bound m l resolved now slot b =
      elim (Bool-cases
        (not (text_eqb slot.name l.name) || not (text_eqb slot.configured l.configured))) [
          | inl e ↦ rw e b
          | inr e ↦ rw e (moved-Bound m resolved now slot b)
        ]

  refreshed-AllBound :
      (m : List (ℕ × Peer h)) (l : LighthouseSlot) (resolved : SocketAddr) (now : ℕ)
      (slots : List LighthouseSlot)
      → AllBound h m slots
      → AllBound h m (map (refresh_slot l resolved now) slots)
  refreshed-AllBound m l resolved now [] b = tt
  refreshed-AllBound m l resolved now (slot ∷ slots) b =
      (refresh_slot-Bound m l resolved now slot b.0, refreshed-AllBound m l resolved now slots b.1)

  refresh-Keeps :
      (s : State h) (l : LighthouseSlot) (now : ℕ)
      → Keeps h s (refresh_lighthouse_address h s l now).0
  unfolding refresh_lighthouse_address
  refresh-Keeps s l now =
      elim (Bool-cases (ltb (duration_since now l.resolved_at) lighthouse_reresolve)) [
        | inl e ↦ rw e (Keeps-refl h s)
        | inr e ↦ rw e (record {
          peers = λ id. Same-refl (Keyed.lookup id s.peers);
          distinct = λ d. d;
          sessions = refl;
          routes = refl;
          tun = refl;
          bound = λ m b. refreshed-AllBound m l _ now s.lighthouses b;
        })
      ]

  dial-Keeps :
      (s : State h) (l : LighthouseSlot) (clock : Clock) (r : State h × SocketAddr)
      → Keeps h s r.0
      → Keeps h s (dial h l clock r)
  dial-Keeps s l clock (t, addr) k =
      Keeps-trans h s t _ k (start_handshake-Keeps t addr none l.name clock)

  connect_each-Keeps :
      (s : State h) (slots : List (LighthouseSlot × Bool)) (clock : Clock)
      → Keeps h s (connect_each h s slots clock)
  unfolding connect_each
  connect_each-Keeps s [] clock = Keeps-refl h s
  connect_each-Keeps s ((l, connected) ∷ rest) clock =
      let dialled = dial h l clock (refresh_lighthouse_address h s l clock.now) in
      let next = if connected then s else dialled in
      choice-Keeps h (not s.running) s s _ (Keeps-refl h s) (
        Keeps-trans h s next _
          (choice-Keeps h connected s s dialled (Keeps-refl h s)
            (dial-Keeps s l clock _ (refresh-Keeps s l clock.now)))
          (connect_each-Keeps next rest clock))

  pub connect_lighthouses-Keeps :
      (s : State h) (clock : Clock) → Keeps h s (connect_lighthouses h s clock)
  unfolding connect_lighthouses
  connect_lighthouses-Keeps s clock = connect_each-Keeps s _ clock

  query_with-Keeps :
      (s : State h) (id : ℕ) (ip : IpAddr) (r : State h × Option PeerTx)
      → Keeps h s r.0
      → Keeps h s (query_with h id ip r)
  query_with-Keeps s id ip (t, none) k = k
  query_with-Keeps s id ip (t, some tx) k =
      Keeps-trans h s t _ k (
        Keeps-trans h t (drew h t) _ (drew-Keeps h t)
          (send_message-Keeps h (drew h t) _ tx.addr id))

  query_each-Keeps : (s : State h) (ids : List ℕ) (ip : IpAddr) → Keeps h s (query_each h s ids ip)
  unfolding query_each
  query_each-Keeps s [] ip = Keeps-refl h s
  query_each-Keeps s (id ∷ rest) ip =
      let next = query_with h id ip (peer_tx h s id) in
      Keeps-trans h s next _ (query_with-Keeps s id ip (peer_tx h s id) (peer_tx-Keeps h s id))
        (query_each-Keeps next rest ip)

  pub request_discovery-Keeps :
      (s : State h) (ip : IpAddr) (now : ℕ) → Keeps h s (request_discovery h s ip now)
  unfolding request_discovery
  request_discovery-Keeps s ip now = choice-Keeps h _ s s _ (Keeps-refl h s) (
      Keeps-trans h s _ _ (frame h s _ refl refl refl refl refl)
        (query_each-Keeps _ (query_targets s.lighthouses) ip))

  send_to_targets-Keeps :
      (s : State h) (to : List SocketAddr) (r : Retransmission)
      → Keeps h s (send_to_targets h s to r)
  send_to_targets-Keeps s [] r = Keeps-refl h s
  send_to_targets-Keeps s (addr ∷ rest) r =
      let next = (send_message_with_id h s r.msg addr r.dst_peer_id r.msg_id).0 in
      Keeps-trans h s next _ (send_message_with_id-Keeps h s r.msg addr r.dst_peer_id r.msg_id)
        (send_to_targets-Keeps next rest r)

  send_each-Keeps : (s : State h) (rs : List Retransmission) → Keeps h s (send_each h s rs)
  send_each-Keeps s [] = Keeps-refl h s
  send_each-Keeps s (r ∷ rest) =
      let next = send_to_targets h s r.targets r in
      Keeps-trans h s next _ (send_to_targets-Keeps s r.targets r) (send_each-Keeps next rest)

  pub retransmit_handshakes-Keeps :
      (s : State h) (now : ℕ) → Keeps h s (retransmit_handshakes h s now)
  unfolding retransmit_handshakes
  retransmit_handshakes-Keeps s now =
      let live = Keyed.retain (λ id p. not (is_expired p now h.timings)) s.pending in
      let retried = retry_each h (relays_of h s.peers) now live in
      let next = record s { pending = retried.0 } in
      Keeps-trans h s next _ (frame h s next refl refl refl refl refl)
        (send_each-Keeps next retried.1)

  act-Keeps : (s : State h) (a : Action) (now : ℕ) → Keeps h s (act h s a now)
  act-Keeps s (send addr wire) now = send_wire-Keeps h s wire addr
  act-Keeps s (look_up ip) now = request_discovery-Keeps s ip now

  pub act_each-Keeps :
      (s : State h) (actions : List Action) (now : ℕ) → Keeps h s (act_each h s actions now)
  act_each-Keeps s [] now = Keeps-refl h s
  act_each-Keeps s (a ∷ rest) now =
      let next = act h s a now in
      Keeps-trans h s next _ (act-Keeps s a now) (act_each-Keeps next rest now)
