-- ===== src/Node/Crossing.antt =====
-- How the handlers of a handshake change the session with its sender: as Dial/Agreement says.
use mathlib.Core.Path.{subst}
use liteway.Common.{
  ℕ, ◌≡◌, refl, sym, ap, Bool, true, false, not, Option, none, some, is_some, if◌then◌else◌,
}
use liteway.Common.Keyed
use liteway.Common.Keyed.{nat_eq}
use liteway.Net.{SocketAddr}
use liteway.Wire.{derive_traffic_key}
use liteway.Dial.{accept_handshake_session}
use liteway.Dial.Agreement
use liteway.Dial.Agreement.{Session, End, settled, opened, answered}
use liteway.Handshake.Message.{HandshakeResponse, HandshakeResult}
use liteway.Node.{AddPeerOutcome, kept_existing, added, Host, State, Peer, crates}
use liteway.Node.Sessions.{
  NewPeer, new_peer_state, install_peer, bind_lighthouse, add_peer, initiator_of,
}
use liteway.Node.Accept.{find_to, begun_by_other, new_from_response, new_from_result}
use liteway.Node.Invariant.Members.Removal.{lookup-insert_self}

module _ (h : Host) where
  -- The node has this session with the peer: begun by the same node, with the keys of both directions
  -- derived from the key of the session.
  pub data IsSession (id : ℕ) : Option (Peer h) → Option Session → Type 0 where
    without : IsSession id none none
    with_keys :
        (peer : Peer h) (session : Session)
        → peer.handshake_initiator_id ≡ session.initiator
        → peer.tx_key ≡ derive_traffic_key (crates h) session.key h.our_id id
        → peer.rx_key ≡ derive_traffic_key (crates h) session.key id h.our_id
        → IsSession id (some peer) (some session)

  initiator-IsSession :
      (id : ℕ) (o : Option (Peer h)) (e : Option Session)
      → IsSession id o e
      → initiator_of h o ≡ Agreement.initiator_of e
  initiator-IsSession id _ _ without = refl
  initiator-IsSession id _ _ (with_keys peer session same tx rx) = ap some same

  begun_by_other-IsSession :
      (id : ℕ) (o : Option (Peer h)) (e : Option Session)
      → IsSession id o e
      → begun_by_other h o ≡ Agreement.begun_by_other h.our_id e
  begun_by_other-IsSession id _ _ without = refl
  begun_by_other-IsSession id _ _ (with_keys peer session same tx rx) = rw same refl

  abbrev begun : NewPeer → Session
  begun p = record { initiator = p.initiator_id; key = p.session_key }

  installed-IsSession :
      (s : State h) (p : NewPeer) (previous : Option (Peer h)) (now : ℕ)
      → IsSession p.id (Keyed.lookup p.id (install_peer h s p previous now).peers) (some (begun p))
  unfolding install_peer bind_lighthouse new_peer_state
  installed-IsSession s p previous now =
      let peer = new_peer_state h p previous now in
      subst (λ o. IsSession p.id o (some (begun p))) (sym (lookup-insert_self p.id peer s.peers))
        (with_keys peer (begun p) refl refl refl)

  -- What `add_peer` returns, by whether the session is accepted.
  abbrev taken : Bool → State h → State h → State h × AddPeerOutcome
  taken test s t = if not test then (s, kept_existing) else (t, added)

  either-IsSession :
      (test : Bool) (s t : State h) (id : ℕ) (e e' : Option Session)
      → IsSession id (Keyed.lookup id s.peers) e
      → IsSession id (Keyed.lookup id t.peers) e'
      → IsSession id (Keyed.lookup id (taken test s t).0.peers) (if test then e' else e)
  either-IsSession true s t id e e' i j = j
  either-IsSession false s t id e e' i j = i

  -- `add_peer` keeps or replaces the session with a peer as `settled` does.
  add_peer-IsSession :
      (s : State h) (p : NewPeer) (now : ℕ) (e : Option Session)
      → IsSession p.id (Keyed.lookup p.id s.peers) e
      → IsSession p.id
          (Keyed.lookup p.id (add_peer h s p now).0.peers)
          (settled h.our_id p.id e (begun p) p.simultaneous)
  unfolding add_peer
  add_peer-IsSession s p now e i =
      let previous = Keyed.lookup p.id s.peers in
      let test =
        λ (o : Option ℕ). accept_handshake_session h.our_id p.id o p.initiator_id p.simultaneous in
      let t = install_peer h s p previous now in
      subst
        (λ o.
          IsSession p.id (Keyed.lookup p.id (taken (test (initiator_of h previous)) s t).0.peers)
            (if test o then some (begun p) else e))
        (initiator-IsSession p.id previous e i)
        (either-IsSession (test (initiator_of h previous)) s t p.id e (some (begun p)) i
          (installed-IsSession s p previous now))

  -- A first handshake that is accepted changes the session with its sender as `opened` does, where the
  -- end waits exactly if a handshake of this node with the sender is pending.
  pub opened-IsSession :
      (s : State h) (src : SocketAddr) (id now : ℕ) (response : HandshakeResponse)
      (e : Option Session)
      → IsSession id (Keyed.lookup id s.peers) e
      → let new : Session = record { initiator = id; key = response.session_key } in
        let end : End = record { session = e; waiting = is_some (find_to id s.pending) } in
        IsSession id
          (Keyed.lookup id (add_peer h s (new_from_response h s src id response) now).0.peers)
          (opened h.our_id id end new).session
  unfolding opened
  opened-IsSession s src id now response e i =
      add_peer-IsSession s (new_from_response h s src id response) now e i

  -- An answer that is accepted changes it as `answered` does.
  pub answered-IsSession :
      (s : State h) (src direct_addr : SocketAddr) (id now : ℕ) (outcome : HandshakeResult)
      (end : End)
      → IsSession id (Keyed.lookup id s.peers) end.session
      → let new : Session = record { initiator = h.our_id; key = outcome.session_key } in
        IsSession id
          (Keyed.lookup id
            (add_peer h s (new_from_result h s src id direct_addr outcome) now).0.peers)
          (answered h.our_id id end new).session
  unfolding answered
  answered-IsSession s src direct_addr id now outcome end i =
      let p = new_from_result h s src id direct_addr outcome in
      subst
        (λ simultaneous.
          IsSession id (Keyed.lookup id (add_peer h s p now).0.peers)
            (settled h.our_id id end.session (begun p) simultaneous))
        (begun_by_other-IsSession id (Keyed.lookup id s.peers) end.session i)
        (add_peer-IsSession s p now end.session i)
