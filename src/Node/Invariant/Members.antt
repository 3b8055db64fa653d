-- ===== src/Node/Invariant/Members.antt =====
-- Adding a peer keeps the maps of a node together: `add_peer` of litewayd/src/main.rs.
pub mod Removal
use mathlib.Core.Path.{subst}
use liteway.Common.{
  ℕ, ◌≡◌, refl, sym, ap, ◌∙◌, ◌≢◌, inl, inr, true, not, ◌||◌, Option, none, some, List, [], ◌∷◌,
  map, All-keep, All-append, keep, Bool-cases,
}
use liteway.Common.Keyed
use liteway.Common.Keyed.{nat_eq, insert-Distinct, remove-Distinct}
use liteway.Net.{Text, text_eqb, SocketAddr, addr_eqb}
use liteway.Cert.{pos, verify}
use liteway.Policy.{node_id_from_cert}
use liteway.Dial.{accept_handshake_session}
use liteway.Routes
use liteway.Node.{Host, State, Peer, LighthouseSlot, crates}
use liteway.Node.Sessions.{
  NewPeer, bind, replace_session, session_of, new_peer_state, insert_routes, bind_lighthouse,
  install_peer, add_peer, initiator_of,
}
use liteway.Node.Frame.{AllBound}
use liteway.Node.Invariant.{IsPeer, Has, AllHas, IsValid, AllHas-mono, AllBound-mono}
use liteway.Node.Invariant.Members.Removal.{
  key-cases, lookup-insert_self, lookup-insert_other, left_over, Has-insert,
}

module _ (h : Host) where
  -- The certificate of a peer that is added has been found valid, and names it.
  pub record IsChecked (p : NewPeer) : Type 0 where
    pub named : node_id_from_cert (crates h) p.cert ≡ p.id
    pub checked_at : ℕ
    pub verified : verify h.primitives.signatures (pos checked_at) p.cert h.ca_vk ≡ true

  inserted_routes :
      (m : List (ℕ × Peer h)) (routes : List h.networks.Net) (id : ℕ)
      (table : Routes.RouteTable h.networks)
      → Has h m id
      → AllHas h m table.routes
      → AllHas h m (insert_routes h routes id table).routes
  unfolding Routes.insert
  inserted_routes m [] id table there a = a
  inserted_routes m (route ∷ routes) id table there a =
      inserted_routes m routes id (Routes.insert h.networks table route id) there (
        All-append _ (keep (λ r. not (h.networks.eqb r.0 route)) table.routes) ((route, id) ∷ [])
          (All-keep _ (λ r. not (h.networks.eqb r.0 route)) table.routes a) (there, tt))

  bind-AllBound :
      (m : List (ℕ × Peer h)) (addr : SocketAddr) (name : Text) (id : ℕ)
      (slots : List LighthouseSlot)
      → Has h m id
      → AllBound h m slots
      → AllBound h m (map (bind addr name id) slots)
  bind-AllBound m addr name id [] there a = tt
  bind-AllBound m addr name id (slot ∷ slots) there a =
      let rest = bind-AllBound m addr name id slots there a.1 in
      elim (Bool-cases (addr_eqb slot.address addr || text_eqb slot.name name)) [
        | inl e ↦ rw e (there, rest)
        | inr e ↦ rw e (a.0, rest)
      ]

  -- A session of a peer other than this one.
  abbrev SessionOfOther : State h → ℕ → ℕ → ℕ → Type 0
  SessionOfOther s id session_id j =
      (id ≢ j) × ((q : Peer h) × (Keyed.lookup j s.peers ≡ some q) × (q.rx_session_id ≡ session_id))

  abbrev without_session : Option ℕ → List (ℕ × ℕ) → List (ℕ × ℕ)
  without_session none sessions = sessions
  without_session (some old) sessions = Keyed.remove old sessions

  replace_session-insert :
      (o : Option ℕ) (rx id : ℕ) (sessions : List (ℕ × ℕ))
      → replace_session o rx id sessions ≡ Keyed.insert rx id (without_session o sessions)
  replace_session-insert none rx id sessions = refl
  replace_session-insert (some old) rx id sessions = refl

  without_session-Distinct :
      (o : Option ℕ) (sessions : List (ℕ × ℕ))
      → Keyed.Distinct sessions
      → Keyed.Distinct (without_session o sessions)
  without_session-Distinct none sessions d = d
  without_session-Distinct (some old) sessions d = remove-Distinct old sessions d

  -- Without the old session of a peer, no session is its own.
  without_session-other :
      (s : State h) (id : ℕ) (previous : Option (Peer h))
      → Keyed.lookup id s.peers ≡ previous
      → IsValid h s
      → (sid j : ℕ)
      → Keyed.lookup sid (without_session (session_of h previous) s.rx_sessions) ≡ some j
      → SessionOfOther s id sid j
  without_session-other s id none e v sid j there =
      let (q, e1, r) = v.sessions sid j there in
      (
        (λ same.
            let found : none ≡ some q = sym e ∙ ap (λ k. Keyed.lookup k s.peers) same ∙ e1 in cc),
        (q, e1, r),
      )
  without_session-other s id (some old) e v sid j there =
      let (other, before) =
        left_over old.rx_session_id sid j s.rx_sessions v.sessions_distinct there in
      let (q, e1, r) = v.sessions sid j before in
      (
        (λ same.
            let found : some old ≡ some q = sym e ∙ ap (λ k. Keyed.lookup k s.peers) same ∙ e1 in
            other (let one : old ≡ q = cc in ap (λ x. x.rx_session_id) one ∙ r)),
        (q, e1, r),
      )

  sessions_after :
      (s : State h) (p : NewPeer) (q : Peer h) (base : List (ℕ × ℕ))
      → q.rx_session_id ≡ p.rx_session_id
      → ((sid j : ℕ) → Keyed.lookup sid base ≡ some j → SessionOfOther s p.id sid j)
      → (sid j : ℕ) → Keyed.lookup sid (Keyed.insert p.rx_session_id p.id base) ≡ some j
      → (peer : Peer h) × (Keyed.lookup j (Keyed.insert p.id q s.peers) ≡ some peer)
        × (peer.rx_session_id ≡ sid)
  sessions_after s p q base rx others sid j there = elim (key-cases p.rx_session_id sid) [
    | inl same ↦
        let found : some p.id ≡ some j =
          sym (lookup-insert_self p.rx_session_id p.id base)
          ∙ ap (λ k. Keyed.lookup k (Keyed.insert p.rx_session_id p.id base)) same
          ∙ there in
        let one : p.id ≡ j = cc in
        (
          q,
          subst (λ k. Keyed.lookup k (Keyed.insert p.id q s.peers) ≡ some q) one
              (lookup-insert_self p.id q s.peers),
          rx ∙ same,
        )
    | inr ne ↦
        let (other, (peer, e, r)) =
          others sid j (sym (lookup-insert_other p.rx_session_id sid p.id base ne) ∙ there) in
        (peer, lookup-insert_other p.id j q s.peers other ∙ e, r)
  ]

  new_peer_state-IsPeer :
      (p : NewPeer) (previous : Option (Peer h)) (now : ℕ)
      → IsChecked p
      → IsPeer h p.id (new_peer_state h p previous now)
  unfolding new_peer_state
  new_peer_state-IsPeer p previous now c = record {
    named = c.named;
    granted = refl;
    checked_at = c.checked_at;
    verified = c.verified;
  }

  new_peer_state-session :
      (p : NewPeer) (previous : Option (Peer h)) (now : ℕ)
      → (new_peer_state h p previous now).rx_session_id ≡ p.rx_session_id
  unfolding new_peer_state
  new_peer_state-session p previous now = refl

  identity_after :
      (p : NewPeer) (q : Peer h) (s : State h)
      → IsValid h s
      → IsPeer h p.id q
      → (j : ℕ) (r : Peer h) → Keyed.lookup j (Keyed.insert p.id q s.peers) ≡ some r
      → IsPeer h j r
  identity_after p q s v new j r there = elim (key-cases p.id j) [
    | inl same ↦
        let found : some q ≡ some r =
          sym (lookup-insert_self p.id q s.peers)
          ∙ ap (λ k. Keyed.lookup k (Keyed.insert p.id q s.peers)) same
          ∙ there in
        let one : q ≡ r = cc in subst (IsPeer h j) one (subst (λ k. IsPeer h k q) same new)
    | inr ne ↦ v.identity j r (sym (lookup-insert_other p.id j q s.peers ne) ∙ there)
  ]

  install_peer-IsValid :
      (s : State h) (p : NewPeer) (previous : Option (Peer h)) (now : ℕ)
      → Keyed.lookup p.id s.peers ≡ previous
      → IsChecked p
      → IsValid h s
      → IsValid h (install_peer h s p previous now)
  unfolding install_peer bind_lighthouse
  install_peer-IsValid s p previous now e c v =
      let q = new_peer_state h p previous now in
      let peers = Keyed.insert p.id q s.peers in
      let base = without_session (session_of h previous) s.rx_sessions in
      let replaced =
        replace_session-insert (session_of h previous) p.rx_session_id p.id s.rx_sessions in
      let here : Has h peers p.id = (q, lookup-insert_self p.id q s.peers) in
      let grown : (j : ℕ) → Has h s.peers j → Has h peers j =
        λ j there. Has-insert h s.peers p.id j q there in
      record {
        peers_distinct = insert-Distinct p.id q s.peers v.peers_distinct;
        sessions_distinct =
            subst (λ m. Keyed.Distinct m) (sym replaced)
              (insert-Distinct p.rx_session_id p.id base (
                without_session-Distinct (session_of h previous) s.rx_sessions
                  v.sessions_distinct));
        identity =
            λ j r there. identity_after p q s v (new_peer_state-IsPeer p previous now c) j r there;
        sessions = λ sid j there.
            sessions_after s p q base (new_peer_state-session p previous now)
              (without_session-other s p.id previous e v) sid j
              (ap (λ m. Keyed.lookup sid m) (sym replaced) ∙ there);
        routed =
            inserted_routes peers q.routes p.id s.routes here
              (AllHas-mono h s.peers peers s.routes.routes grown v.routed);
        bound =
            bind-AllBound peers p.addr p.cert.body.meta.name p.id s.lighthouses here
              (AllBound-mono h s.peers peers s.lighthouses grown v.bound);
      }

  -- A peer that is added after its certificate has been checked leaves the maps together.
  pub add_peer-IsValid :
      (s : State h) (p : NewPeer) (now : ℕ)
      → IsChecked p
      → IsValid h s
      → IsValid h (add_peer h s p now).0
  unfolding add_peer
  add_peer-IsValid s p now c v =
      let previous = Keyed.lookup p.id s.peers in
      elim (Bool-cases (
        not (
          accept_handshake_session h.our_id p.id (initiator_of h previous) p.initiator_id
            p.simultaneous))) [
              | inl e ↦ rw e v
              | inr e ↦ rw e (install_peer-IsValid s p previous now refl c v)
            ]
