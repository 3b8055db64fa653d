-- ===== src/Routes/Updates.antt =====
-- What `insert` and `remove_peer` do to later lookups.
use mathlib.Core.Option
use liteway.Common.{
  ℕ, ◌≤◌, ◌≡◌, refl, ap, ◌∙◌, ◌≢◌, Bool, true, false, not, Option, none, some, List, [], ◌∷◌, ◌++◌,
  arith, ◌==◌, keep, All, All-append, All-keep,
}
use liteway.Net.{IpAddr, IpNetworks}
use liteway.Routes.{RouteTable, max_by_key, insert, lookup, remove_peer}
use liteway.Routes.Longest.{
  In-keep, keep-keep, Bounded, max_by_key_append_last, max_by_key-keep, max_by_key-In,
}

module _ (n : IpNetworks) where
  open n use {Net, contains, prefix, eqb, eqb_iff}

  keep-append :
      (p : Net × ℕ → Bool) (xs ys : List (Net × ℕ)) → keep p (xs ++ ys) ≡ keep p xs ++ keep p ys
  keep-append p [] ys = refl
  keep-append p (x ∷ xs) ys = ground (arith, keep-append p xs ys)

  append-nil : (xs : List (Net × ℕ)) → xs ++ [] ≡ xs
  append-nil [] = refl
  append-nil (x ∷ xs) = ap (◌∷◌ x) (append-nil xs)

  -- A network that does not cover the address is not missed by its lookup.
  keep_skip :
      (ip : IpAddr) (network : Net) (rs : List (Net × ℕ))
      → contains network ip ≡ false
      → keep (λ r. contains r.0 ip) (keep (λ r. not (eqb r.0 network)) rs)
        ≡ keep (λ r. contains r.0 ip) rs
  keep_skip ip network [] c = refl
  keep_skip ip network (r ∷ rs) c = ground (arith, eqb_iff r.0 network, keep_skip ip network rs c)

  covering-insert :
      (ip : IpAddr) (network : Net) (rs : List (Net × ℕ)) (peer_id : ℕ)
      → keep
          (λ r. contains r.0 ip)
          (keep (λ r. not (eqb r.0 network)) rs ++ ((network, peer_id) ∷ []))
        ≡ keep (λ r. contains r.0 ip) (keep (λ r. not (eqb r.0 network)) rs)
          ++ keep (λ r. contains r.0 ip) ((network, peer_id) ∷ [])
  covering-insert ip network rs peer_id =
      keep-append (λ r. contains r.0 ip) (keep (λ r. not (eqb r.0 network)) rs)
        ((network, peer_id) ∷ [])

  abbrev answer : List (Net × ℕ) → Option ℕ
  answer rs = Option.map (λ r. r.1) (max_by_key (λ r. prefix r.0) rs)

  -- Inserting a network that does not cover an address leaves the address where it was routed.
  pub lookup-insert_outside :
      (t : RouteTable n) (network : Net) (peer_id : ℕ) (ip : IpAddr)
      → contains network ip ≡ false
      → lookup n (insert n t network peer_id) ip ≡ lookup n t ip
  unfolding insert lookup
  lookup-insert_outside t network peer_id ip c = ap answer (
      covering-insert ip network t.routes peer_id
      ∙ rw (c, append-nil) (keep_skip ip network t.routes c))

  covering-Bounded :
      (ip : IpAddr) (network : Net) (rs : List (Net × ℕ))
      → All (λ r. contains r.0 ip ≡ true → prefix r.0 ≤ prefix network) rs
      → Bounded
          (λ r. prefix r.0)
          (prefix network)
          (keep (λ r. contains r.0 ip) (keep (λ r. not (eqb r.0 network)) rs))
  covering-Bounded ip network [] h = tt
  covering-Bounded ip network (r ∷ rs) h = ground (arith, covering-Bounded ip network rs h.1)

  -- A network inserted for a peer leads each address that it covers to the peer, if no route with a
  -- longer prefix covers the address.
  pub lookup-insert_covered :
      (t : RouteTable n) (network : Net) (peer_id : ℕ) (ip : IpAddr)
      → contains network ip ≡ true
      → All (λ r. contains r.0 ip ≡ true → prefix r.0 ≤ prefix network) t.routes
      → lookup n (insert n t network peer_id) ip ≡ some peer_id
  unfolding insert lookup
  lookup-insert_covered t network peer_id ip c h =
      ap answer (covering-insert ip network t.routes peer_id)
      ∙ rw c (
          ap (Option.map (λ r. r.1)) (
            max_by_key_append_last (λ r. prefix r.0) _ (network, peer_id)
              (covering-Bounded ip network t.routes h)))

  answer_of :
      (o : Option (Net × ℕ)) (id : ℕ)
      → Option.map (λ r. r.1) o ≡ some id
      → (r : Net × ℕ) × (o ≡ some r) × (r.1 ≡ id)
  answer_of none id e = cc
  answer_of (some r) id e = (r, refl, ground arith)

  abbrev stays : ℕ → Net × ℕ → Bool
  stays peer_id r = not (r.1 == peer_id)

  removed_gone :
      (rs : List (Net × ℕ)) (peer_id id : ℕ) (ip : IpAddr)
      → answer (keep (λ r. contains r.0 ip) (keep (stays peer_id) rs)) ≡ some id
      → id ≢ peer_id
  removed_gone rs peer_id id ip e =
      let (r, found, same) = answer_of (max_by_key (λ r. prefix r.0) _) id e in
      let inside =
        In-keep (λ r. contains r.0 ip) r (keep (stays peer_id) rs)
          (max_by_key-In (λ r. prefix r.0) _ r found) in
      ground (arith, In-keep (stays peer_id) r rs inside.0)

  others_stay :
      (rs : List (Net × ℕ)) (peer_id id : ℕ) (ip : IpAddr)
      → answer (keep (λ r. contains r.0 ip) rs) ≡ some id
      → id ≢ peer_id
      → answer (keep (λ r. contains r.0 ip) (keep (stays peer_id) rs)) ≡ some id
  others_stay rs peer_id id ip e ne =
      let (r, found, same) = answer_of (max_by_key (λ r. prefix r.0) _) id e in
      let hit : stays peer_id r ≡ true = ground arith in
      ap answer (keep-keep (λ r. contains r.0 ip) (stays peer_id) rs)
      ∙ ap (Option.map (λ r. r.1)) (max_by_key-keep (λ r. prefix r.0) (stays peer_id) _ r found hit)
      ∙ ap some same

  -- No address leads to a removed peer.
  pub lookup-remove_peer_gone :
      (t : RouteTable n) (peer_id : ℕ) (ip : IpAddr)
      → lookup n (remove_peer n t peer_id) ip ≢ some peer_id
  unfolding lookup remove_peer
  lookup-remove_peer_gone t peer_id ip e = removed_gone t.routes peer_id peer_id ip e refl

  -- Removing a peer changes no address that leads to another one.
  pub lookup-remove_peer_ne :
      (t : RouteTable n) (peer_id id : ℕ) (ip : IpAddr)
      → lookup n t ip ≡ some id
      → id ≢ peer_id
      → lookup n (remove_peer n t peer_id) ip ≡ some id
  unfolding lookup remove_peer
  lookup-remove_peer_ne t peer_id id ip e ne = others_stay t.routes peer_id id ip e ne

  -- Each network is routed to one peer at most.
  abbrev pub Once : List (Net × ℕ) → Type 0
  Once [] = Unit
  Once (r ∷ rs) = All (λ s. eqb s.0 r.0 ≡ false) rs × Once rs

  keep-Once : (p : Net × ℕ → Bool) (rs : List (Net × ℕ)) → Once rs → Once (keep p rs)
  keep-Once p [] o = tt
  keep-Once p (r ∷ rs) o =
      ground (arith, keep-Once p rs o.1, All-keep (λ s. eqb s.0 r.0 ≡ false) p rs o.0)

  append-Once :
      (rs : List (Net × ℕ)) (r : Net × ℕ)
      → Once rs
      → All (λ s. eqb r.0 s.0 ≡ false) rs
      → Once (rs ++ (r ∷ []))
  append-Once [] r o a = (tt, tt)
  append-Once (s ∷ rs) r o a = (All-append _ rs (r ∷ []) o.0 (a.0, tt), append-Once rs r o.1 a.1)

  fresh :
      (network : Net) (rs : List (Net × ℕ))
      → All (λ s. eqb network s.0 ≡ false) (keep (λ r. not (eqb r.0 network)) rs)
  fresh network [] = tt
  fresh network (r ∷ rs) =
      ground (arith, fresh network rs, eqb_iff r.0 network, eqb_iff network r.0)

  -- If every network stands in one route at most, it does so after an insertion and after a
  -- removal.
  pub insert_remove-Once :
      (t : RouteTable n) (network : Net) (peer_id : ℕ)
      → Once t.routes
      → Once (insert n t network peer_id).routes × Once (remove_peer n t peer_id).routes
  unfolding insert remove_peer
  insert_remove-Once t network peer_id o = (
    append-Once _ (network, peer_id) (keep-Once _ t.routes o) (fresh network t.routes),
    keep-Once _ t.routes o,
  )
