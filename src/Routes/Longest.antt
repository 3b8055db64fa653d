-- ===== src/Routes/Longest.antt =====
-- `lookup` finds the longest prefix, and what `insert` and `remove_peer` do to it.
use mathlib.Core.Option
use liteway.Common.{
  ℕ, ◌≤◌, ◌≡◌, refl, ap, ◌⊎◌, inl, inr, Bool, true, false, Option, none, some, List, [], ◌∷◌, ◌++◌,
  arith, Bool-cases, Option-cases, keep, All,
}
use mathlib.Core.Path.{subst}
use liteway.Net.{IpAddr, IpNetworks}
use liteway.Routes.{RouteTable, max_by_key, lookup}

module _ {A : Type 0} where
  abbrev pub In : A → List A → Type 0
  In a [] = ⊥
  In a (x ∷ xs) = (x ≡ a) ⊎ In a xs

  pub In-keep : (p : A → Bool) (a : A) (xs : List A) → In a (keep p xs) → In a xs × (p a ≡ true)
  In-keep p a [] h = elim h [ ]
  In-keep p a (x ∷ xs) h = ground (arith, In-keep p a xs)

  pub keep-keep : (p q : A → Bool) (xs : List A) → keep p (keep q xs) ≡ keep q (keep p xs)
  keep-keep p q [] = refl
  keep-keep p q (x ∷ xs) = ground (arith, keep-keep p q xs)

  module _ (key : A → ℕ) where
    pub max_by_key-In : (xs : List A) (a : A) → max_by_key key xs ≡ some a → In a xs
    unfolding max_by_key
    max_by_key-In [] a e = cc
    max_by_key-In (x ∷ xs) a e = elim (Option-cases (max_by_key key xs)) [
      | inl e' ↦ ground arith
      | inr (y, e') ↦ ground (arith, max_by_key-In xs y e')
    ]

    max_by_key-eq-none : (xs : List A) → max_by_key key xs ≡ none → xs ≡ []
    unfolding max_by_key
    max_by_key-eq-none [] e = refl
    max_by_key-eq-none (x ∷ xs) e = ground arith

    -- The largest key bounds the keys.
    abbrev pub Bounded : ℕ → List A → Type 0
    Bounded b = All (λ x. key x ≤ b)

    Bounded-mono : (b c : ℕ) (xs : List A) → b ≤ c → Bounded b xs → Bounded c xs
    Bounded-mono b c [] h k = tt
    Bounded-mono b c (x ∷ xs) h k = (omega arith, Bounded-mono b c xs h k.1)

    max_by_key-Bounded : (xs : List A) (a : A) → max_by_key key xs ≡ some a → Bounded (key a) xs
    unfolding max_by_key
    max_by_key-Bounded [] a e = tt
    max_by_key-Bounded (x ∷ xs) a e = elim (Option-cases (max_by_key key xs)) [
      | inl e' ↦ rw (max_by_key-eq-none xs e') (ground arith)
      | inr (y, e') ↦ ground (arith, max_by_key-Bounded xs y e', Bounded-mono (key y) (key a) xs)
    ]

    pub max_by_key_append_last :
        (xs : List A) (a : A) → Bounded (key a) xs → max_by_key key (xs ++ (a ∷ [])) ≡ some a
    unfolding max_by_key
    max_by_key_append_last [] a b = refl
    max_by_key_append_last (x ∷ xs) a b = rw (max_by_key_append_last xs a b.1) (ground arith)

    Bounded-In : (b : ℕ) (xs : List A) (a : A) → Bounded b xs → In a xs → key a ≤ b
    Bounded-In b [] a h i = elim i [ ]
    Bounded-In b (x ∷ xs) a h (inl e) = rw (← e) (h.0)
    Bounded-In b (x ∷ xs) a h (inr i) = Bounded-In b xs a h.1 i

    max_by_key-keep-le :
        (q : A → Bool) (xs : List A) (y z : A)
        → max_by_key key xs ≡ some y
        → max_by_key key (keep q xs) ≡ some z
        → key z ≤ key y
    max_by_key-keep-le q xs y z e h =
        Bounded-In (key y) xs z (max_by_key-Bounded xs y e)
          (In-keep q z xs (max_by_key-In (keep q xs) z h)).0

    -- Dropping other items does not change which one is found.
    pub max_by_key-keep :
        (q : A → Bool) (xs : List A) (a : A)
        → max_by_key key xs ≡ some a
        → q a ≡ true
        → max_by_key key (keep q xs) ≡ some a
    unfolding max_by_key
    max_by_key-keep q [] a e h = cc
    max_by_key-keep q (x ∷ xs) a e h = elim (Option-cases (max_by_key key xs)) [
      | inl e' ↦ rw (max_by_key-eq-none xs e') (ground arith)
      | inr (y, e') ↦ elim (Option-cases (max_by_key key (keep q xs))) [
        | inl e'' ↦ ground (arith, max_by_key-keep q xs y e')
        | inr (z, e'') ↦
            ground (arith, max_by_key-keep q xs y e', max_by_key-keep-le q xs y z e' e'')
      ]
    ]

module _ (n : IpNetworks) where
  open n use {Net, contains, prefix, eqb, eqb_iff}

  -- `lookup` finds a route to the address, and no route to the address has a longer prefix.
  pub record Longest (t : RouteTable n) (ip : IpAddr) (id : ℕ) : Type 0 where
    pub net : Net
    pub route : In (net, id) t.routes
    pub covers : contains net ip ≡ true
    pub longest :
        (m : Net) (j : ℕ) → In (m, j) t.routes → contains m ip ≡ true → prefix m ≤ prefix net

  abbrev covering : IpAddr → List (Net × ℕ) → List (Net × ℕ)
  covering ip = keep (λ r. contains r.0 ip)

  In-covering :
      (ip : IpAddr) (r : Net × ℕ) (rs : List (Net × ℕ))
      → In r rs
      → contains r.0 ip ≡ true
      → In r (covering ip rs)
  In-covering ip r [] i c = elim i [ ]
  In-covering ip r (x ∷ rs) (inl e) c = rw (e, c) (inl refl)
  In-covering ip r (x ∷ rs) (inr i) c = ground (arith, In-covering ip r rs i c)

  -- Either no route covers the address and `lookup` finds nothing, or it finds the peer of a route
  -- with the longest prefix among those that cover it.
  pub lookup_cases :
      (t : RouteTable n) (ip : IpAddr)
      → ((lookup n t ip ≡ none) × ((m : Net) (j : ℕ) → In (m, j) t.routes → contains m ip ≡ false))
        ⊎ ((id : ℕ) × (lookup n t ip ≡ some id) × Longest t ip id)
  unfolding lookup
  lookup_cases t ip = elim (Option-cases best) [
    | inl e ↦
        inl (ap (Option.map (λ r. r.1)) e, λ m j i. missed m j i (max_by_key-eq-none key found e))
    | inr (r, e) ↦ inr (r.1, ap (Option.map (λ r. r.1)) e, at r e)
  ]
    where
      key : Net × ℕ → ℕ
      key r = prefix r.0

      found : List (Net × ℕ)
      found = covering ip t.routes

      best : Option (Net × ℕ)
      best = max_by_key key found

      missed : (m : Net) (j : ℕ) → In (m, j) t.routes → found ≡ [] → contains m ip ≡ false
      missed m j i e = elim (Bool-cases (contains m ip)) [
        | inl c ↦ absurd (subst (In (m, j)) e (In-covering ip (m, j) t.routes i c))
        | inr c ↦ c
      ]

      at : (r : Net × ℕ) → best ≡ some r → Longest t ip r.1
      at r e =
          let inside = In-keep (λ s. contains s.0 ip) r t.routes (max_by_key-In key found r e) in
          record {
            net = r.0;
            route = inside.0;
            covers = inside.1;
            longest = λ m j i c.
                Bounded-In key (key r) found (m, j) (max_by_key-Bounded key found r e)
                  (In-covering ip (m, j) t.routes i c);
          }
