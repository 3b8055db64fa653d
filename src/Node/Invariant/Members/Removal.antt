-- ===== src/Node/Invariant/Members/Removal.antt =====
-- Taking a peer out keeps the state of a node well-formed: `remove_peer` of litewayd/src/main.rs.
use mathlib.Core.Path.{subst}
use liteway.Common.{
  ℕ, ◌≡◌, refl, sym, ap, ◌∙◌, ◌≢◌, ◌⊎◌, inl, inr, not, Option, none, some, List, [], ◌∷◌, arith,
  map, keep, Bool-cases, ◌==◌, if◌then◌else◌,
}
use liteway.Common.Keyed
use liteway.Common.Keyed.{
  nat_eq, option_eqb, option_eqb_iff, lookup-insert, lookup-remove_ne, lookup-remove_self,
  insert-Distinct, remove-Distinct,
}
use liteway.Routes
use liteway.Node.{Host, State, Peer, LighthouseSlot}
use liteway.Node.Sessions.{unbind, remove_found, remove_peer}
use liteway.Node.Frame.{Bound, AllBound}
use liteway.Node.Invariant.{Has, AllHas, IsValid}

-- Either two keys are the same, or they are told apart.
pub key-cases : (a b : ℕ) → (a ≡ b) ⊎ (a ≢ b)
key-cases a b = elim (Bool-cases (a == b)) [
  | inl e ↦ inl (ground arith)
  | inr e ↦ inr (λ same. ground arith)
]

module _ {V : Type 0} where
  pub lookup-insert_self :
      (k : ℕ) (v : V) (m : List (ℕ × V)) → Keyed.lookup k (Keyed.insert k v m) ≡ some v
  lookup-insert_self k v m = ground (arith, lookup-insert k k v m)

  pub lookup-insert_other :
      (k j : ℕ) (v : V) (m : List (ℕ × V))
      → k ≢ j
      → Keyed.lookup j (Keyed.insert k v m) ≡ Keyed.lookup j m
  lookup-insert_other k j v m ne = ground (arith, lookup-insert k j v m)

  -- An entry that is left after a removal has another key, and was there before.
  pub left_over :
      (k j : ℕ) (v : V) (m : List (ℕ × V))
      → Keyed.Distinct m
      → Keyed.lookup j (Keyed.remove k m) ≡ some v
      → (k ≢ j) × (Keyed.lookup j m ≡ some v)
  left_over k j v m d e = elim (key-cases k j) [
    | inl same ↦
        let gone : Keyed.lookup j (Keyed.remove k m) ≡ none =
          subst (λ i. Keyed.lookup i (Keyed.remove k m) ≡ none) same (lookup-remove_self k m d) in
        absurd (cc)
    | inr ne ↦ (ne, sym (lookup-remove_ne k j m ne) ∙ e)
  ]

module _ (h : Host) where
  -- The peers after one is added.
  pub Has-insert :
      (m : List (ℕ × Peer h)) (id j : ℕ) (q : Peer h) → Has h m j → Has h (Keyed.insert id q m) j
  Has-insert m id j q (p, e) = elim (key-cases id j) [
    | inl same ↦ (
      q,
      subst (λ i. Keyed.lookup i (Keyed.insert id q m) ≡ some q) same (lookup-insert_self id q m),
    )
    | inr ne ↦ (p, lookup-insert_other id j q m ne ∙ e)
  ]

  Has-remove : (m : List (ℕ × Peer h)) (id j : ℕ) → id ≢ j → Has h m j → Has h (Keyed.remove id m) j
  Has-remove m id j ne (p, e) = (p, lookup-remove_ne id j m ne ∙ e)

  kept_routes :
      (m : List (ℕ × Peer h)) (id : ℕ) (routes : List (h.networks.Net × ℕ))
      → AllHas h m routes
      → AllHas h (Keyed.remove id m) (keep (λ r. not (r.1 == id)) routes)
  kept_routes m id [] a = tt
  kept_routes m id (r ∷ routes) a = elim (Bool-cases (r.1 == id)) [
    | inl e ↦ rw e (kept_routes m id routes a.1)
    | inr e ↦ rw e (Has-remove m id r.1 (λ same. ground arith) a.0, kept_routes m id routes a.1)
  ]

  -- The peer of a lighthouse after one peer is gone.
  abbrev without : ℕ → Option ℕ → Option ℕ
  without id o = if option_eqb ◌==◌ o (some id) then none else o

  without-Bound :
      (m : List (ℕ × Peer h)) (id : ℕ) (o : Option ℕ)
      → Bound h m o
      → Bound h (Keyed.remove id m) (without id o)
  without-Bound m id none b = tt
  without-Bound m id (some j) b = elim (Bool-cases (j == id)) [
    | inl e ↦ rw e tt
    | inr e ↦ rw e (Has-remove m id j (λ same. ground arith) b)
  ]

  unbind-peer_id :
      (id : ℕ) (slot : LighthouseSlot) → (unbind id slot).peer_id ≡ without id slot.peer_id
  unbind-peer_id id slot = elim (Bool-cases (option_eqb ◌==◌ slot.peer_id (some id))) [
    | inl e ↦ rw e refl
    | inr e ↦ rw e refl
  ]

  unbind-AllBound :
      (m : List (ℕ × Peer h)) (id : ℕ) (slots : List LighthouseSlot)
      → AllBound h m slots
      → AllBound h (Keyed.remove id m) (map (unbind id) slots)
  unbind-AllBound m id [] a = tt
  unbind-AllBound m id (slot ∷ slots) a = (
    subst (Bound h (Keyed.remove id m)) (sym (unbind-peer_id id slot))
        (without-Bound m id slot.peer_id a.0),
    unbind-AllBound m id slots a.1,
  )

  remove_found-IsValid :
      (s : State h) (id : ℕ) (o : Option (Peer h))
      → Keyed.lookup id s.peers ≡ o
      → IsValid h s
      → IsValid h (remove_found h s id o)
  unfolding Routes.remove_peer
  remove_found-IsValid s id none e v = v
  remove_found-IsValid s id (some peer) e v = record {
    peers_distinct = remove-Distinct id s.peers v.peers_distinct;
    sessions_distinct = remove-Distinct peer.rx_session_id s.rx_sessions v.sessions_distinct;
    identity = λ j q there. v.identity j q (left_over id j q s.peers v.peers_distinct there).1;
    sessions = λ sid j there.
        let (other, before) =
          left_over peer.rx_session_id sid j s.rx_sessions v.sessions_distinct there in
        let (q, e1, r) = v.sessions sid j before in
        let ne : id ≢ j = λ same.
          let found : some peer ≡ some q = sym e ∙ ap (λ k. Keyed.lookup k s.peers) same ∙ e1 in
          other (let one : peer ≡ q = cc in ap (λ x. x.rx_session_id) one ∙ r) in
        (q, lookup-remove_ne id j s.peers ne ∙ e1, r);
    routed = kept_routes s.peers id s.routes.routes v.routed;
    bound = unbind-AllBound s.peers id s.lighthouses v.bound;
  }

  pub remove_peer-IsValid : (s : State h) (id : ℕ) → IsValid h s → IsValid h (remove_peer h s id)
  unfolding remove_peer
  remove_peer-IsValid s id v = remove_found-IsValid s id (Keyed.lookup id s.peers) refl v
