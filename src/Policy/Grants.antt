-- ===== src/Policy/Grants.antt =====
-- Which routes a certificate gives a peer.
use mathlib.Core.Path.{subst}
use liteway.Common.{
  ◌≤◌, ◌≡◌, refl, ap, ◌∙◌, ◌≢◌, ◌↔◌, ◌⊎◌, inl, inr, Bool, true, Option, none, some, List, [], ◌∷◌,
  ◌++◌, arith, any, ◌>>=◌, Option-cases, Bool-cases, Option,
}
use liteway.Net.{Text, text_eqb_iff, IpAddr, v4, v6, IpNetworks}
use liteway.Cert.{Cert, NodeAddresses}
use liteway.Routes.Longest.{In}
use liteway.Policy.{
  strip_prefix, route_all_grant, route_grant_prefix, grants, route_granted_by_cert,
  is_default_route, accepted, subnet_routes, insert_sorted, sort_by_key, dedup, skip_repeat,
  or_empty, host_route, host_prefix, authorized_peer_routes, advertised, granted_by,
}

module _ {A : Type 0} where
  In-append : (a : A) (xs ys : List A) → In a (xs ++ ys) ↔ (In a xs ⊎ In a ys)
  In-append a [] ys = (λ h. inr h, λ h. elim h [ inl e ↦ absurd e | inr e ↦ e ])
  In-append a (x ∷ xs) ys = ground (arith, In-append a xs ys)

  pub any_iff :
      (p : A → Bool) (xs : List A) → (any p xs ≡ true) ↔ ((a : A) × In a xs × (p a ≡ true))
  any_iff p [] = (λ h. cc, λ (a, i, e). absurd i)
  any_iff p (x ∷ xs) = (
    λ h. elim (Bool-cases (p x)) [
      | inl e ↦ (x, inl refl, e)
      | inr e ↦ let (a, i, pa) = (any_iff p xs).0 (ground (arith, h)) in (a, inr i, pa)
    ],
    λ (a, i, pa). elim i [
      | inl e ↦ rw (e, pa) refl
      | inr j ↦ ground (arith, (any_iff p xs).1 (a, j, pa))
    ],
  )

strip_prefix_iff : (p s t : Text) → (strip_prefix p s ≡ some t) ↔ (s ≡ p ++ t)
strip_prefix_iff [] s t = (λ e. ground arith, λ e. ap some e)
strip_prefix_iff (p ∷ ps) [] t = (λ e. cc, λ e. cc)
strip_prefix_iff (p ∷ ps) (b ∷ s) t = ground (arith, strip_prefix_iff ps s t)

module _ (n : IpNetworks) where
  open n use {Net, contains, prefix, ip, make, parse, eqb, eqb_iff}

  -- A group grants a route if it grants all, or if it names a network that covers the route.
  abbrev pub Grants : Net → Text → Type 0
  Grants route group =
      (group ≡ route_all_grant)
      ⊎ ((t : Text) × (net : Net) × (group ≡ route_grant_prefix ++ t)
          × (parse t ≡ some net)
          × (contains net (ip route) ≡ true)
          × (prefix net ≤ prefix route))

  granted_iff :
      (route : Net) (o : Option Net)
      → (granted_by n route o ≡ true) ↔ (
          (net : Net) × (o ≡ some net)
          × (contains net (ip route) ≡ true)
          × (prefix net ≤ prefix route))
  granted_iff route none = (λ h. cc, λ h. cc)
  granted_iff route (some net) = (λ h. (net, refl, ground arith, ground arith), λ h. ground arith)

  grants_iff : (route : Net) (group : Text) → (grants n route group ≡ true) ↔ Grants route group
  grants_iff route group = elim (Option-cases (strip_prefix route_grant_prefix group)) [
    | inl e ↦
        ground
          (arith, text_eqb_iff group route_all_grant, strip_prefix_iff route_grant_prefix group)
    | inr (t, e) ↦ ground (
      arith,
      text_eqb_iff group route_all_grant,
      strip_prefix_iff route_grant_prefix group,
      granted_iff route (parse t),
    )
  ]

  -- A subnet that is let through is no default route, and a group grants it.
  abbrev pub Passes : Cert → Net → Type 0
  Passes cert route =
      (prefix route ≢ 0) × ((group : Text) × In group cert.body.meta.groups × Grants route group)

  -- The network of one address only: all 32 bits of an IPv4 address, or all 128 of an IPv6 address.
  abbrev pub IsHost : IpAddr → Net → Type 0
  IsHost (v4 a) route = make (v4 a) 32 ≡ some route
  IsHost (v6 a) route = make (v6 a) 128 ≡ some route

  -- The host's own address, however long a prefix it is written with, and the subnets that pass.
  abbrev pub Permits : Cert → NodeAddresses → Net → Type 0
  Permits cert addrs route =
      ((net : Net) × (parse addrs.ip ≡ some net) × IsHost (ip net) route)
      ⊎ (((subnet : Text) × In subnet addrs.subnets × (parse subnet ≡ some route))
          × Passes cert route)

  abbrev pub Authorized : Cert → Net → Type 0
  Authorized cert route =
      (addrs : NodeAddresses) × (cert.body.addresses ≡ some addrs) × Permits cert addrs route

  In-insert_sorted :
      (a r : Net) (rest : List Net) → In a (insert_sorted n r rest) ↔ ((r ≡ a) ⊎ In a rest)
  unfolding insert_sorted
  In-insert_sorted a r [] = ground arith
  In-insert_sorted a r (s ∷ rest) = ground (arith, In-insert_sorted a r rest)

  In-sort_by_key : (a : Net) (rs : List Net) → In a (sort_by_key n rs) ↔ In a rs
  unfolding sort_by_key
  In-sort_by_key a [] = (λ h. h, λ h. h)
  In-sort_by_key a (r ∷ rest) =
      ground (arith, In-sort_by_key a rest, In-insert_sorted a r (sort_by_key n rest))

  In-skip_repeat : (a r : Net) (ds : List Net) → In a (skip_repeat n r ds) ↔ ((r ≡ a) ⊎ In a ds)
  In-skip_repeat a r [] = ground arith
  In-skip_repeat a r (s ∷ more) = ground (arith, eqb_iff r s)

  In-dedup : (a : Net) (rs : List Net) → In a (dedup n rs) ↔ In a rs
  unfolding dedup
  In-dedup a [] = (λ h. h, λ h. h)
  In-dedup a (r ∷ rest) = ground (arith, In-dedup a rest, In-skip_repeat a r (dedup n rest))

  granted_cert_iff :
      (cert : Cert) (route : Net)
      → (route_granted_by_cert n cert route ≡ true)
        ↔ ((group : Text) × In group cert.body.meta.groups × Grants route group)
  unfolding route_granted_by_cert
  granted_cert_iff cert route =
      let (there, back) = any_iff (grants n route) cert.body.meta.groups in
      (
        λ h. let (g, i, e) = there h in (g, i, (grants_iff route g).0 e),
        λ (g, i, e). back (g, i, (grants_iff route g).1 e),
      )

  Passes-accepted : (cert : Cert) (r : Net) → Passes cert r → accepted n cert (some r) ≡ r ∷ []
  unfolding is_default_route
  Passes-accepted cert r (nz, g) = rw ((granted_cert_iff cert r).1 g) (ground (arith, nz))

  accepted-Passes :
      (cert : Cert) (route r : Net)
      → In route (accepted n cert (some r))
      → (r ≡ route) × Passes cert r
  unfolding is_default_route
  accepted-Passes cert route r h = ground (arith, granted_cert_iff cert r)

  accepted-only :
      (cert : Cert) (route : Net) (o : Option Net)
      → In route (accepted n cert o)
      → (o ≡ some route) × Passes cert route
  accepted-only cert route none h = absurd h
  accepted-only cert route (some r) h =
      let (e, passes) = accepted-Passes cert route r h in (ap some e, subst (Passes cert) e passes)

  accepted-all :
      (cert : Cert) (route : Net) (o : Option Net)
      → o ≡ some route
      → Passes cert route
      → In route (accepted n cert o)
  accepted-all cert route o e passes = rw (e, Passes-accepted cert route passes) (inl refl)

  subnet_routes-only :
      (cert : Cert) (route : Net) (subnets : List Text)
      → In route (subnet_routes n cert subnets)
      → ((subnet : Text) × In subnet subnets × (parse subnet ≡ some route)) × Passes cert route
  subnet_routes-only cert route [] h = absurd h
  subnet_routes-only cert route (s ∷ rest) h =
      elim ((In-append route (accepted n cert (parse s)) (subnet_routes n cert rest)).0 h) [
        | inl i ↦ let (e, q) = accepted-only cert route (parse s) i in ((s, inl refl, e), q)
        | inr i ↦ let ((t, j, e), q) = subnet_routes-only cert route rest i in ((t, inr j, e), q)
      ]

  subnet_routes-all :
      (cert : Cert) (route : Net) (subnets : List Text) (subnet : Text)
      → In subnet subnets
      → parse subnet ≡ some route
      → Passes cert route
      → In route (subnet_routes n cert subnets)
  subnet_routes-all cert route [] subnet i e q = absurd i
  subnet_routes-all cert route (s ∷ rest) subnet i e q =
      (In-append route (accepted n cert (parse s)) (subnet_routes n cert rest)).1 (elim i [
        | inl same ↦ inl (accepted-all cert route (parse s) (ap parse same ∙ e) q)
        | inr j ↦ inr (subnet_routes-all cert route rest subnet j e q)
      ])

  In-or_empty : (route : Net) (o : Option Net) → In route (or_empty n o) ↔ (o ≡ some route)
  In-or_empty route none = (λ h. absurd h, λ h. cc)
  In-or_empty route (some r) = ground arith

  full_prefix_iff :
      (route : Net) (a : IpAddr) → (make a (host_prefix a) ≡ some route) ↔ IsHost a route
  full_prefix_iff route (v4 a) = (λ e. e, λ e. e)
  full_prefix_iff route (v6 a) = (λ e. e, λ e. e)

  own_iff :
      (route : Net) (o : Option Net)
      → ((do net ← o; make (ip net) (host_prefix (ip net))) ≡ some route)
        ↔ ((net : Net) × (o ≡ some net) × IsHost (ip net) route)
  own_iff route none = (λ h. cc, λ (net, e, q). cc)
  own_iff route (some net) = (
    λ h. (net, refl, (full_prefix_iff route (ip net)).0 h),
    λ (other, e, q).
        (full_prefix_iff route (ip net)).1
          (subst (λ x. IsHost (ip x) route) (let same : other ≡ net = ground arith in same) q),
  )

  host_route_iff :
      (route : Net) (addr : Text)
      → (host_route n addr ≡ some route)
        ↔ ((net : Net) × (parse addr ≡ some net) × IsHost (ip net) route)
  unfolding host_route
  host_route_iff route addr = own_iff route (parse addr)

  advertised_iff :
      (cert : Cert) (route : Net) (addrs : NodeAddresses)
      → In route (advertised n cert (some addrs)) ↔ Permits cert addrs route
  advertised_iff cert route addrs =
      let own = or_empty n (host_route n addrs.ip) in
      let others = subnet_routes n cert addrs.subnets in
      let listed = In-dedup route (sort_by_key n (own ++ others)) in
      let sorted = In-sort_by_key route (own ++ others) in
      let both = In-append route own others in
      let first = In-or_empty route (host_route n addrs.ip) in
      (
        λ h. elim (both.0 (sorted.0 (listed.0 h))) [
          | inl i ↦ inl ((host_route_iff route addrs.ip).0 (first.0 i))
          | inr i ↦ inr (subnet_routes-only cert route addrs.subnets i)
        ],
        λ h. listed.1 (
            sorted.1 (
              both.1 (elim h [
                | inl e ↦ inl (first.1 ((host_route_iff route addrs.ip).1 e))
                | inr ((s, j, e), q) ↦ inr (subnet_routes-all cert route addrs.subnets s j e q)
              ]))),
      )

  listed_iff :
      (cert : Cert) (route : Net) (o : Option NodeAddresses)
      → In route (advertised n cert o)
        ↔ ((addrs : NodeAddresses) × (o ≡ some addrs) × Permits cert addrs route)
  listed_iff cert route none = (λ h. absurd h, λ (a, x, q). cc)
  listed_iff cert route (some addrs) = (
    λ h. (addrs, refl, (advertised_iff cert route addrs).0 h),
    λ (a, x, q).
        (advertised_iff cert route addrs).1
          (subst (λ b. Permits cert b route) (let same : a ≡ addrs = ground arith in same) q),
  )

  -- A peer gets exactly the routes that its certificate authorizes: the network of its own address
  -- alone (a prefix of 32, or of 128 for IPv6, whatever prefix the certificate writes with it), and each
  -- subnet that it lists, that is no default route and that a group of the certificate grants.
  pub authorized_peer_routes_iff :
      (cert : Cert) (route : Net) → In route (authorized_peer_routes n cert) ↔ Authorized cert route
  unfolding authorized_peer_routes
  authorized_peer_routes_iff cert route = listed_iff cert route cert.body.addresses
