-- ===== src/Node/Invariant.antt =====
-- What holds of the node's maps between two handlers.
pub mod Members
pub mod Handlers
pub mod Datagrams
pub mod Upkeep
use mathlib.Core.Path.{subst}
use liteway.Common.{
  ℕ, ◌≡◌, refl, sym, ap, ◌∙◌, ◌≢◌, inl, inr, true, false, Option, none, some, List, [], ◌∷◌, arith,
  All, Option-cases, Bool-cases,
}
use liteway.Common.Keyed
use liteway.Common.Keyed.{nat_eq}
use liteway.Cert.{pos, Cert, verify}
use liteway.Peer.{PeerState}
use liteway.Policy.{node_id_from_cert, authorized_peer_routes}
use liteway.Node.{Host, Node, State, Peer, LighthouseSlot, crates}
use liteway.Node.Frame.{SamePeer, Same, Bound, AllBound, Keeps}

module _ (h : Host) where
  -- A peer is who its certificate says, routes what its certificate lets it, and its certificate has
  -- been found valid.
  pub record IsPeer (id : ℕ) (peer : Peer h) : Type 0 where
    pub named : node_id_from_cert (crates h) peer.cert ≡ id
    pub granted : peer.routes ≡ authorized_peer_routes h.networks peer.cert
    pub checked_at : ℕ
    pub verified : verify h.primitives.signatures (pos checked_at) peer.cert h.ca_vk ≡ true

  abbrev pub Has : List (ℕ × Peer h) → ℕ → Type 0
  Has peers id = (peer : Peer h) × (Keyed.lookup id peers ≡ some peer)

  abbrev pub AllHas : List (ℕ × Peer h) → List (h.networks.Net × ℕ) → Type 0
  AllHas peers routes = All (λ r. Has peers r.1) routes

  -- The maps belong together: a session is that of a peer who is there and receives under its id, and
  -- every route and every lighthouse that has a peer leads to one who is there.
  pub record IsValid (s : State h) : Type 0 where
    pub peers_distinct : Keyed.Distinct s.peers
    pub sessions_distinct : Keyed.Distinct s.rx_sessions
    pub identity : (id : ℕ) (peer : Peer h) → Keyed.lookup id s.peers ≡ some peer → IsPeer id peer
    pub sessions :
        (session_id id : ℕ)
        → Keyed.lookup session_id s.rx_sessions ≡ some id
        → (peer : Peer h) × (Keyed.lookup id s.peers ≡ some peer)
          × (peer.rx_session_id ≡ session_id)
    pub routed : AllHas s.peers s.routes.routes
    pub bound : AllBound h s.peers s.lighthouses

  Same-from :
      (a b : Option (Peer h)) (q : Peer h)
      → Same a b
      → b ≡ some q
      → (p : Peer h) × (a ≡ some p) × SamePeer p q
  Same-from none none q same e = absurd (cc)
  Same-from none (some r) q same e = absurd same
  Same-from (some p) none q same e = absurd same
  Same-from (some p) (some r) q same e =
      (p, refl, subst (λ x. SamePeer p x) (let x : r ≡ q = cc in x) same)

  Same-to :
      (a b : Option (Peer h)) (p : Peer h)
      → Same a b
      → a ≡ some p
      → (q : Peer h) × (b ≡ some q) × SamePeer p q
  Same-to none none p same e = absurd (cc)
  Same-to none (some r) p same e = absurd same
  Same-to (some r) none p same e = absurd same
  Same-to (some r) (some q) p same e =
      (q, refl, subst (λ x. SamePeer x q) (let x : r ≡ p = cc in x) same)

  SamePeer-IsPeer : (id : ℕ) (p q : Peer h) → SamePeer p q → IsPeer id p → IsPeer id q
  SamePeer-IsPeer id p q same v = record {
    named = ap (node_id_from_cert (crates h)) same.cert ∙ v.named;
    granted = same.routes ∙ v.granted ∙ ap (authorized_peer_routes h.networks) (sym same.cert);
    checked_at = v.checked_at;
    verified =
        ap (λ c. verify h.primitives.signatures (pos v.checked_at) c h.ca_vk) same.cert
        ∙ v.verified;
  }

  -- What is there in one map of peers and in another.
  pub AllHas-mono :
      (m k : List (ℕ × Peer h)) (routes : List (h.networks.Net × ℕ))
      → ((id : ℕ) → Has m id → Has k id)
      → AllHas m routes
      → AllHas k routes
  AllHas-mono m k [] f a = tt
  AllHas-mono m k (r ∷ routes) f a = (f r.1 a.0, AllHas-mono m k routes f a.1)

  pub Bound-mono :
      (m k : List (ℕ × Peer h)) (o : Option ℕ)
      → ((id : ℕ) → Has m id → Has k id)
      → Bound h m o
      → Bound h k o
  Bound-mono m k none f b = tt
  Bound-mono m k (some id) f b = f id b

  pub AllBound-mono :
      (m k : List (ℕ × Peer h)) (slots : List LighthouseSlot)
      → ((id : ℕ) → Has m id → Has k id)
      → AllBound h m slots
      → AllBound h k slots
  AllBound-mono m k [] f a = tt
  AllBound-mono m k (slot ∷ slots) f a =
      (Bound-mono m k slot.peer_id f a.0, AllBound-mono m k slots f a.1)

  -- What leaves the peers alone keeps the invariant.
  pub Keeps-IsValid : (s t : State h) → Keeps h s t → IsValid s → IsValid t
  Keeps-IsValid s t k v =
      let has : (id : ℕ) → Has s.peers id → Has t.peers id =
        λ id there. let (q, e, _) = Same-to _ _ there.0 (k.peers id) there.1 in (q, e) in
      record {
        peers_distinct = k.distinct v.peers_distinct;
        sessions_distinct = subst (λ m. Keyed.Distinct m) (sym k.sessions) v.sessions_distinct;
        identity = λ id q e.
            let (p, e1, same) = Same-from _ _ q (k.peers id) e in
            SamePeer-IsPeer id p q same (v.identity id p e1);
        sessions = λ sid id e.
            let (p, e1, r) =
              v.sessions sid id (ap (λ m. Keyed.lookup sid m) (sym k.sessions) ∙ e) in
            let (q, e2, same) = Same-to _ _ p (k.peers id) e1 in (q, e2, same.rx_session_id ∙ r);
        routed =
            subst (λ r. AllHas t.peers r.routes) (sym k.routes)
              (AllHas-mono s.peers t.peers s.routes.routes has v.routed);
        bound = k.bound t.peers (AllBound-mono s.peers t.peers s.lighthouses has v.bound);
      }
