-- ===== src/Routes/Tests.antt =====
-- A routing table of IPv4 networks, and the theorems about it.
use liteway.Common.{
  ℕ, ◌-◌, ◌/◌, ◌^◌, ◌≡◌, refl, ◌≢◌, ◌⊎◌, ◌↔◌, Bool, true, false, ◌&&◌, none, some, [], ◌∷◌, arith,
  ◌==◌,
}
use liteway.Net.{IpAddr, v4, v6, ip_eqb, ip_eqb_iff, IpNetworks}
use liteway.Routes.{RouteTable, max_by_key, insert, lookup, remove_peer}
use liteway.Routes.Longest.{In, Longest, lookup_cases}
use liteway.Routes.Updates.{lookup-remove_peer_gone, Once, insert_remove-Once}

-- An IPv4 network: its address, and the length of its prefix.
abbrev covers : IpAddr × ℕ → IpAddr → Bool
covers (v4 a, p) (v4 b) = a / 2 ^ (32 - p) == b / 2 ^ (32 - p)
covers (v4 a, p) (v6 b) = false
covers (v6 a, p) b = false

abbrev eqb_net : IpAddr × ℕ → IpAddr × ℕ → Bool
eqb_net x y = ip_eqb x.0 y.0 && x.1 == y.1

eqb_net_iff : (x y : IpAddr × ℕ) → (eqb_net x y ≡ true) ↔ (x ≡ y)
eqb_net_iff (a, p) (b, q) = ground (arith, ip_eqb_iff a b)

abbrev networks : IpNetworks
networks = record {
  Net = IpAddr × ℕ;
  contains = covers;
  prefix = λ x. x.1;
  ip = λ x. x.0;
  network = λ x. x.0;
  make = λ a p. some (a, p);
  parse = λ t. none;
  eqb = eqb_net;
  eqb_iff = eqb_net_iff;
}

-- 10.0.0.0/8 by peer 7, and 10.1.0.0/16 by peer 9.
abbrev wide : IpAddr × ℕ
wide = (v4 0x0a000000, 8)

abbrev narrow : IpAddr × ℕ
narrow = (v4 0x0a010000, 16)

abbrev table : RouteTable networks
table = record { routes = (narrow, 9) ∷ (wide, 7) ∷ [] }

run_of_table :
    (lookup networks table (v4 0x0a010203) ≡ some 9)
    × (lookup networks table (v4 0x0a020203) ≡ some 7)
    × (lookup networks table (v4 0x0b020203) ≡ none)
    × (lookup networks (remove_peer networks table 9) (v4 0x0a010203) ≡ some 7)
unfolding lookup max_by_key remove_peer
run_of_table = (refl, refl, refl, refl)

lookup_cases_example :
    ((lookup networks table (v4 0x0a010203) ≡ none)
      × ((m : IpAddr × ℕ) (j : ℕ) → In (m, j) table.routes → covers m (v4 0x0a010203) ≡ false))
    ⊎ ((id : ℕ) × (lookup networks table (v4 0x0a010203) ≡ some id)
        × Longest networks table (v4 0x0a010203) id)
lookup_cases_example = lookup_cases networks table (v4 0x0a010203)

lookup-remove_peer_gone_example :
    lookup networks (remove_peer networks table 9) (v4 0x0a010203) ≢ some 9
lookup-remove_peer_gone_example = lookup-remove_peer_gone networks table 9 (v4 0x0a010203)

found : lookup networks table (v4 0x0a020203) ≡ some 7
unfolding lookup max_by_key
found = refl

insert_remove-Once_example :
    Once networks (insert networks table wide 3).routes
    × Once networks (remove_peer networks table 3).routes
insert_remove-Once_example = insert_remove-Once networks table wide 3 ((refl, tt), (tt, tt))
