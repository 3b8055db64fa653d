-- ===== src/Node/Invariant/Upkeep.antt =====
-- Maintenance and shutdown keep the maps of the node together.
use liteway.Common.{
  ℕ, suc, ◌+◌, ◌*◌, ◌≡◌, refl, sym, ap, ◌∙◌, inl, inr, Bool, true, false, Option, none, some, List,
  [], ◌∷◌, arith, length, Bool-cases, ◌==◌, leb, if◌then◌else◌,
}
use liteway.Common.Keyed
use liteway.Common.Keyed.{nat_eq}
use liteway.Net.{SocketAddr}
use liteway.Time.{duration_since}
use liteway.Peer.{
  PeerTick, idle, keepalive, drop, PathProbe, nothing, punch, lookup, tick, tick_pending,
  tick_quiet, take_path_probe,
}
use liteway.Node.{Host, State, Peer, drew}
use liteway.Node.Sessions.{remove_peer}
use liteway.Node.Maintenance.{
  Action, Upkeep, keepalive_to, probe_path, probe, after_tick, maintain_peer, maintain_each,
  peers_of, drops_of, actions_of, drop_each, maintain_peers, maintenance_tick,
  retransmit_handshakes,
}
use liteway.Node.Overlay.{numbered, disconnect_each, notify_shutdown}
use liteway.Node.Frame.{
  SamePeer, SamePeer-refl, SamePeer-trans, Same, Keeps, frame, Keeps-refl, Keeps-trans,
  send_wire-Keeps, drew-Keeps, next_seq-SamePeer,
}
use liteway.Node.Frame.Discovery.{retransmit_handshakes-Keeps, act_each-Keeps}
use liteway.Node.Invariant.{IsValid, Keeps-IsValid}
use liteway.Node.Invariant.Members.Removal.{remove_peer-IsValid}

module _ (h : Host) where
  -- The same peers under the same keys, each with its certificate, routes and session id.
  abbrev Updated : List (ℕ × Peer h) → List (ℕ × Peer h) → Type 0
  Updated [] [] = Unit
  Updated [] (q ∷ qs) = ⊥
  Updated (p ∷ ps) [] = ⊥
  Updated (p ∷ ps) (q ∷ qs) = (p.0 ≡ q.0) × SamePeer p.1 q.1 × Updated ps qs

  Updated-lookup :
      (ps qs : List (ℕ × Peer h)) (id : ℕ)
      → Updated ps qs
      → Same (Keyed.lookup id ps) (Keyed.lookup id qs)
  Updated-lookup [] [] id u = tt
  Updated-lookup [] (q ∷ qs) id u = absurd u
  Updated-lookup (p ∷ ps) [] id u = absurd u
  Updated-lookup ((j, p) ∷ ps) ((k, q) ∷ qs) id (e, same, rest) = elim (Bool-cases (j == id)) [
    | inl here ↦ rw (here, ap (λ i. i == id) (sym e) ∙ here) same
    | inr other ↦ rw (other, ap (λ i. i == id) (sym e) ∙ other) (Updated-lookup ps qs id rest)
  ]

  Same-none : (a b : Option (Peer h)) → Same a b → a ≡ none → b ≡ none
  Same-none none none same e = refl
  Same-none none (some q) same e = absurd same
  Same-none (some p) b same e = absurd (cc)

  Updated-Distinct :
      (ps qs : List (ℕ × Peer h)) → Updated ps qs → Keyed.Distinct ps → Keyed.Distinct qs
  Updated-Distinct [] [] u d = tt
  Updated-Distinct [] (q ∷ qs) u d = absurd u
  Updated-Distinct (p ∷ ps) [] u d = absurd u
  Updated-Distinct ((j, p) ∷ ps) ((k, q) ∷ qs) (e, same, rest) d = (
    ap (λ i. Keyed.lookup i qs) (sym e) ∙ Same-none _ _ (Updated-lookup ps qs j rest) d.0,
    Updated-Distinct ps qs rest d.1,
  )

  -- A state whose peers are updated in place.
  peers-Keeps :
      (s : State h) (peers : List (ℕ × Peer h)) (draws : ℕ)
      → Updated s.peers peers
      → Keeps h s (record s { peers = peers; draws = draws })
  peers-Keeps s peers draws u = record {
    peers = λ id. Updated-lookup s.peers peers id u;
    distinct = λ d. Updated-Distinct s.peers peers u d;
    sessions = refl;
    routes = refl;
    tun = refl;
    bound = λ m b. b;
  }

  numbered-Updated : (ps : List (ℕ × Peer h)) → Updated ps (numbered h ps)
  numbered-Updated [] = tt
  numbered-Updated ((id, p) ∷ ps) = (refl, next_seq-SamePeer h p, numbered-Updated ps)

  tick-SamePeer : (p : Peer h) (now token : ℕ) → SamePeer p (tick p now h.timings token).0
  unfolding tick tick_pending tick_quiet
  tick-SamePeer p now token = record {
    cert = ground arith;
    routes = ground arith;
    rx_session_id = ground arith;
  }

  take_path_probe-SamePeer :
      (p : Peer h) (now token : ℕ) → SamePeer p (take_path_probe p now h.timings token).0
  unfolding take_path_probe
  take_path_probe-SamePeer p now token = record {
    cert = ground arith;
    routes = ground arith;
    rx_session_id = ground arith;
  }

  keepalive_to-SamePeer :
      (id : ℕ) (p : Peer h) (addr : SocketAddr) (token draw : ℕ)
      → SamePeer p (keepalive_to h id p addr token draw).0
  keepalive_to-SamePeer id p addr token draw = next_seq-SamePeer h p

  probe_path-SamePeer :
      (p : Peer h) (id : ℕ) (actions : List Action) (draw : ℕ) (r : Peer h × PathProbe)
      → SamePeer p r.0
      → SamePeer p (probe_path h id actions draw r).peer
  probe_path-SamePeer p id actions draw (q, nothing) same = same
  probe_path-SamePeer p id actions draw (q, punch direct token) same =
      SamePeer-trans p q _ same (keepalive_to-SamePeer id q direct token draw)
  probe_path-SamePeer p id actions draw (q, lookup) same = same

  probe-SamePeer :
      (id : ℕ) (p : Peer h) (actions : List Action) (now draw : ℕ)
      → SamePeer p (probe h id p actions now draw).peer
  probe-SamePeer id p actions now draw =
      probe_path-SamePeer p id actions (suc draw) _
        (take_path_probe-SamePeer p now (h.random_token (suc draw)))

  after_tick-SamePeer :
      (p : Peer h) (id now draw : ℕ) (r : Peer h × PeerTick)
      → SamePeer p r.0
      → SamePeer p (after_tick h id now draw r).peer
  after_tick-SamePeer p id now draw (q, drop reason) same = same
  after_tick-SamePeer p id now draw (q, keepalive token) same =
      let (sent, action) = keepalive_to h id q q.addr token draw in
      SamePeer-trans p q _ same (
        SamePeer-trans q sent _ (keepalive_to-SamePeer id q q.addr token draw)
          (probe-SamePeer id sent (action ∷ []) now draw))
  after_tick-SamePeer p id now draw (q, idle) same =
      SamePeer-trans p q _ same (probe-SamePeer id q [] now draw)

  choice-SamePeer :
      (p : Peer h) (b : Bool) (x y : Upkeep h)
      → SamePeer p x.peer
      → SamePeer p y.peer
      → SamePeer p (if b then x else y).peer
  choice-SamePeer p true x y sx sy = sx
  choice-SamePeer p false x y sx sy = sy

  maintain_peer-SamePeer :
      (id : ℕ) (p : Peer h) (now draw : ℕ) → SamePeer p (maintain_peer h id p now draw).peer
  unfolding maintain_peer
  maintain_peer-SamePeer id p now draw =
      choice-SamePeer p h.keepalive_enabled _ _
        (after_tick-SamePeer p id now draw (tick p now h.timings (h.random_token draw))
          (tick-SamePeer p now (h.random_token draw)))
        (choice-SamePeer p (leb h.timings.peer_expiry (duration_since now p.last_seen)) _ _
          (SamePeer-refl p) (probe-SamePeer id p [] now draw))

  maintain_each-Updated :
      (ps : List (ℕ × Peer h)) (now draw : ℕ)
      → Updated ps (peers_of h (maintain_each h ps now draw))
  maintain_each-Updated [] now draw = tt
  maintain_each-Updated ((id, p) ∷ ps) now draw =
      (refl, maintain_peer-SamePeer id p now draw, maintain_each-Updated ps now (draw + 2))

  drop_each-IsValid : (s : State h) (ids : List ℕ) → IsValid h s → IsValid h (drop_each h s ids)
  drop_each-IsValid s [] v = v
  drop_each-IsValid s (id ∷ ids) v =
      drop_each-IsValid (remove_peer h s id) ids (remove_peer-IsValid h s id v)

  maintain_peers-IsValid :
      (s : State h) (now : ℕ) → IsValid h s → IsValid h (maintain_peers h s now)
  unfolding maintain_peers
  maintain_peers-IsValid s now v =
      let upkeep = maintain_each h s.peers now s.draws in
      let maintained = record s {
        peers = peers_of h upkeep;
        draws = s.draws + 2 * length s.peers;
      } in
      let dropped = drop_each h maintained (drops_of h upkeep) in
      Keeps-IsValid h dropped _ (act_each-Keeps h dropped (actions_of h upkeep) now) (
        drop_each-IsValid maintained (drops_of h upkeep) (
          Keeps-IsValid h s maintained
            (peers-Keeps s (peers_of h upkeep) _ (maintain_each-Updated s.peers now s.draws)) v))

  pub maintenance_tick-IsValid :
      (s : State h) (now : ℕ) → IsValid h s → IsValid h (maintenance_tick h s now)
  unfolding maintenance_tick
  maintenance_tick-IsValid s now v =
      let again = retransmit_handshakes h s now in
      let t = maintain_peers h again now in
      Keeps-IsValid h t _ (frame h t _ refl refl refl refl refl) (
        maintain_peers-IsValid again now
          (Keeps-IsValid h s again (retransmit_handshakes-Keeps h s now) v))

  disconnect_each-Keeps :
      (ps : List (ℕ × Peer h)) (s : State h) → Keeps h s (disconnect_each h s ps)
  disconnect_each-Keeps [] s = Keeps-refl h s
  disconnect_each-Keeps ((id, p) ∷ ps) s =
      Keeps-trans h s (drew h s) _ (drew-Keeps h s) (
        Keeps-trans h (drew h s) _ _ (send_wire-Keeps h (drew h s) _ _)
          (disconnect_each-Keeps ps _))

  pub notify_shutdown-IsValid : (s : State h) → IsValid h s → IsValid h (notify_shutdown h s)
  unfolding notify_shutdown
  notify_shutdown-IsValid s v =
      let t = record s { peers = numbered h s.peers } in
      Keeps-IsValid h t _ (disconnect_each-Keeps s.peers t) (
        Keeps-IsValid h s t (peers-Keeps s (numbered h s.peers) s.draws (numbered-Updated s.peers))
          v)
