-- ===== src/Node/Frame.antt =====
-- What most handlers of the node leave alone: who the peers are, their sessions and routes.
pub mod Discovery
pub mod Lookup
use mathlib.Core.Path.{subst}
use liteway.Common.{
  ℕ, suc, ◌≡◌, refl, sym, ap, ◌∙◌, ◌≢◌, inl, inr, Bool, true, false, Option, none, some, List, [],
  ◌∷◌, arith, map, All, Option-cases, Bool-cases, if◌then◌else◌, ◌==◌,
}
use liteway.Common.Keyed
use liteway.Common.Keyed.{nat_eq, lookup-insert, insert-Distinct, eqb_ne, eqb_refl}
use liteway.Net.{SocketAddr}
use liteway.Peer.{PeerState, next_seq}
use liteway.Frag.{SendResult, datagram_too_small, too_many_chunks, sent}
use liteway.Node.{
  Host, Clock, Node, State, Peer, PeerTx, LighthouseSlot, set_peer, send_wire, send_fragments,
  send_message_with_id, send_message, tx_of, peer_tx, drew,
}

-- Two states of one session: the same certificate, routes and session id.
pub record SamePeer {Net : Type 0} (p q : PeerState Net) : Type 0 where
  pub cert : q.cert ≡ p.cert
  pub routes : q.routes ≡ p.routes
  pub rx_session_id : q.rx_session_id ≡ p.rx_session_id

pub SamePeer-refl : {Net : Type 0} (p : PeerState Net) → SamePeer p p
SamePeer-refl p = record { cert = refl; routes = refl; rx_session_id = refl }

pub SamePeer-trans :
    {Net : Type 0} (p q r : PeerState Net) → SamePeer p q → SamePeer q r → SamePeer p r
SamePeer-trans p q r a b = record {
  cert = b.cert ∙ a.cert;
  routes = b.routes ∙ a.routes;
  rx_session_id = b.rx_session_id ∙ a.rx_session_id;
}

abbrev pub Same : {Net : Type 0} → Option (PeerState Net) → Option (PeerState Net) → Type 0
Same none none = Unit
Same none (some q) = ⊥
Same (some p) none = ⊥
Same (some p) (some q) = SamePeer p q

pub Same-refl : {Net : Type 0} (o : Option (PeerState Net)) → Same o o
Same-refl none = tt
Same-refl (some p) = SamePeer-refl p

pub Same-trans : {Net : Type 0} (a b c : Option (PeerState Net)) → Same a b → Same b c → Same a c
Same-trans none none none x y = tt
Same-trans none none (some r) x y = y
Same-trans none (some q) c x y = absurd x
Same-trans (some p) none c x y = absurd x
Same-trans (some p) (some q) none x y = y
Same-trans (some p) (some q) (some r) x y = SamePeer-trans p q r x y

module _ (h : Host) where
  -- The peer of a lighthouse, if it has one, is there.
  abbrev pub Bound : List (ℕ × Peer h) → Option ℕ → Type 0
  Bound peers none = Unit
  Bound peers (some id) = (peer : Peer h) × (Keyed.lookup id peers ≡ some peer)

  abbrev pub AllBound : List (ℕ × Peer h) → List LighthouseSlot → Type 0
  AllBound peers slots = All (λ slot. Bound peers slot.peer_id) slots

  pub record Keeps (s t : State h) : Type 0 where
    pub peers : (id : ℕ) → Same (Keyed.lookup id s.peers) (Keyed.lookup id t.peers)
    pub distinct : Keyed.Distinct s.peers → Keyed.Distinct t.peers
    pub sessions : t.rx_sessions ≡ s.rx_sessions
    pub routes : t.routes ≡ s.routes
    pub tun : t.tun ≡ s.tun
    pub bound : (m : List (ℕ × Peer h)) → AllBound m s.lighthouses → AllBound m t.lighthouses

  pub frame :
      (s t : State h)
      → t.peers ≡ s.peers
      → t.rx_sessions ≡ s.rx_sessions
      → t.routes ≡ s.routes
      → t.lighthouses ≡ s.lighthouses
      → t.tun ≡ s.tun
      → Keeps s t
  frame s t p ss r l w = record {
    peers =
        λ id. subst (λ m. Same (Keyed.lookup id s.peers) (Keyed.lookup id m)) (sym p) (Same-refl _);
    distinct = λ d. subst (λ m. Keyed.Distinct m) (sym p) d;
    sessions = ss;
    routes = r;
    tun = w;
    bound = λ m b. subst (AllBound m) (sym l) b;
  }

  pub Keeps-refl : (s : State h) → Keeps s s
  Keeps-refl s = frame s s refl refl refl refl refl

  pub Keeps-trans : (s t u : State h) → Keeps s t → Keeps t u → Keeps s u
  Keeps-trans s t u a b = record {
    peers = λ id. Same-trans _ _ _ (a.peers id) (b.peers id);
    distinct = λ d. b.distinct (a.distinct d);
    sessions = b.sessions ∙ a.sessions;
    routes = b.routes ∙ a.routes;
    tun = b.tun ∙ a.tun;
    bound = λ m d. b.bound m (a.bound m d);
  }

  insert-Same :
      (id j : ℕ) (p q : Peer h) (m : List (ℕ × Peer h))
      → Keyed.lookup id m ≡ some p
      → SamePeer p q
      → Same (Keyed.lookup j m) (Keyed.lookup j (Keyed.insert id q m))
  insert-Same id j p q m e same = elim (Bool-cases (id == j)) [
    | inl eq ↦
        let here : id ≡ j = ground arith in
        subst (λ o. Same (Keyed.lookup j m) o)
          (sym (lookup-insert id j q m ∙ ap (λ b. if b then some q else Keyed.lookup j m) eq))
          (subst (λ o. Same o (some q)) (sym (ap (λ k. Keyed.lookup k m) (sym here) ∙ e)) same)
    | inr ne ↦
        subst (λ o. Same (Keyed.lookup j m) o)
          (sym (lookup-insert id j q m ∙ ap (λ b. if b then some q else Keyed.lookup j m) ne))
          (Same-refl (Keyed.lookup j m))
  ]

  -- A peer that is written back with the same certificate, routes and session id.
  pub set_peer-Keeps :
      (s : State h) (id : ℕ) (p q : Peer h)
      → Keyed.lookup id s.peers ≡ some p
      → SamePeer p q
      → Keeps s (set_peer h s id q)
  set_peer-Keeps s id p q e same = record {
    peers = λ j. insert-Same id j p q s.peers e same;
    distinct = λ d. insert-Distinct id q s.peers d;
    sessions = refl;
    routes = refl;
    tun = refl;
    bound = λ m b. b;
  }

  pub send_wire-Keeps :
      (s : State h) (wire : List ℕ) (addr : SocketAddr) → Keeps s (send_wire h s wire addr)
  unfolding send_wire
  send_wire-Keeps s wire addr = frame s _ refl refl refl refl refl

  pub drew-Keeps : (s : State h) → Keeps s (drew h s)
  drew-Keeps s = frame s _ refl refl refl refl refl

  send_fragments-Keeps :
      (s : State h) (r : SendResult) (addr : SocketAddr) → Keeps s (send_fragments h s r addr).0
  send_fragments-Keeps s datagram_too_small addr = Keeps-refl s
  send_fragments-Keeps s too_many_chunks addr = Keeps-refl s
  send_fragments-Keeps s (sent packets) addr = frame s _ refl refl refl refl refl

  pub send_message_with_id-Keeps :
      (s : State h) (msg : List ℕ) (addr : SocketAddr) (dst id : ℕ)
      → Keeps s (send_message_with_id h s msg addr dst id).0
  unfolding send_message_with_id
  send_message_with_id-Keeps s msg addr dst id =
      Keeps-trans s (drew h s) _ (drew-Keeps s) (send_fragments-Keeps (drew h s) _ addr)

  pub send_message-Keeps :
      (s : State h) (msg : List ℕ) (addr : SocketAddr) (dst : ℕ)
      → Keeps s (send_message h s msg addr dst).0
  unfolding send_message
  send_message-Keeps s msg addr dst = send_message_with_id-Keeps s msg addr dst _

  pub next_seq-SamePeer : (p : Peer h) → SamePeer p (next_seq p).0
  unfolding next_seq
  next_seq-SamePeer p = record { cert = refl; routes = refl; rx_session_id = refl }

  tx_of-Keeps :
      (s : State h) (id : ℕ) (o : Option (Peer h))
      → Keyed.lookup id s.peers ≡ o
      → Keeps s (tx_of h s id o).0
  tx_of-Keeps s id none e = Keeps-refl s
  tx_of-Keeps s id (some p) e = set_peer-Keeps s id p _ e (next_seq-SamePeer p)

  pub peer_tx-Keeps : (s : State h) (id : ℕ) → Keeps s (peer_tx h s id).0
  unfolding peer_tx
  peer_tx-Keeps s id = tx_of-Keeps s id (Keyed.lookup id s.peers) refl
