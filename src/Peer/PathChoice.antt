-- ===== src/Peer/PathChoice.antt =====
-- Which address a session uses: relays, hole punching and roaming.
use liteway.Common.{
  ℕ, ◌+◌, ◌*◌, ◌<◌, min, ◌≡◌, refl, ◌∙◌, ◌≢◌, ◌↔◌, ◌⊎◌, Bool, true, false, none, some, List, [],
  ◌∷◌, arith, All, is_some, if◌then◌else◌,
}
use liteway.Net.{SocketAddr, addr_eqb_iff}
use liteway.Time.{Timings, from_secs}
use liteway.Peer.{
  PeerState, KeepaliveAck, nothing, punch, next_seq, mark_seen, ack_keepalive, tick,
  take_path_probe,
}
use liteway.Peer.Events.{Event, ticks, sees, acks, probes, sends, step, run}

-- A packet whose source is a relay, and any event that is no packet.
abbrev pub FromRelay : ℕ × Event → Type 0
FromRelay (now, sees src src_is_relay k) = src_is_relay ≡ true
FromRelay (now, ticks x) = Unit
FromRelay (now, acks x) = Unit
FromRelay (now, probes x) = Unit
FromRelay (now, sends) = Unit

module _ {Net : Type 0} where
  -- A packet moves the session to its source exactly when the source is new and either the packet
  -- came through a relay and the session is relayed, or it came directly and is no keepalive of a
  -- relayed session. Then the old address is returned, the source is the session's address, and the
  -- session is relayed if the packet was; otherwise nothing is returned and the address and the
  -- relayed state stay.
  pub mark_seen_outcome :
      (p : PeerState Net) (src : SocketAddr) (now : ℕ) (src_is_relay is_keepalive : Bool)
      → let q = mark_seen p src now src_is_relay is_keepalive in
        ((q.1 ≡ some p.addr) ↔ (
          (p.addr ≢ src)
          × (((src_is_relay ≡ true) × (p.relayed ≡ true))
              ⊎ ((src_is_relay ≡ false) × (¬ ((p.relayed ≡ true) × (is_keepalive ≡ true)))))))
        × (q.1 ≡ (if is_some q.1 then some p.addr else none))
        × (q.0.addr ≡ (if is_some q.1 then src else p.addr))
        × (q.0.relayed ≡ (if is_some q.1 then src_is_relay else p.relayed))
  unfolding mark_seen
  mark_seen_outcome p src now r k = ground (arith, addr_eqb_iff p.addr src)

  step-direct :
      (t : Timings) (p : PeerState Net) (now : ℕ) (e : Event)
      → p.relayed ≡ false
      → ((step t p now e).relayed ≡ false) × (FromRelay (now, e) → (step t p now e).addr ≡ p.addr)
  unfolding step tick mark_seen ack_keepalive take_path_probe next_seq
  step-direct t p now (ticks x) d = ground arith
  step-direct t p now e d = ground arith

  run_steps :
      (t : Timings) (p : PeerState Net) (es : List (ℕ × Event))
      → p.relayed ≡ false
      → All FromRelay es
      → ((run t p es).relayed ≡ false) × ((run t p es).addr ≡ p.addr)
  unfolding run
  run_steps t p [] d h = (d, refl)
  run_steps t p ((now, e) ∷ es) d h =
      let (still, stays) = step-direct t p now e d in
      let (later, same) = run_steps t (step t p now e) es still h.1 in (later, same ∙ stays h.0)

  -- A session that went direct stays direct through any events.
  pub run-direct :
      (t : Timings) (p : PeerState Net) (es : List (ℕ × Event))
      → p.relayed ≡ false
      → (run t p es).relayed ≡ false
  unfolding run
  run-direct t p [] d = d
  run-direct t p ((now, e) ∷ es) d = run-direct t (step t p now e) es (step-direct t p now e d).0

  -- Late packets through a relay do not pull a direct session back: while every packet that arrives
  -- comes from a relay, whatever else happens, it keeps its address.
  pub run-direct-addr :
      (t : Timings) (p : PeerState Net) (es : List (ℕ × Event))
      → p.relayed ≡ false
      → All FromRelay es
      → (run t p es).addr ≡ p.addr
  run-direct-addr t p es d h = (run_steps t p es d h).1

  first_probe :
      (t : Timings) (p : PeerState Net) (direct : SocketAddr) (now token : ℕ)
      → p.relayed ≡ true
      → p.direct_addr ≡ some direct
      → p.addr ≢ direct
      → p.next_probe ≡ none
      → take_path_probe p now t token ≡ (
        record p {
          next_probe = some (now + t.direct_probe_interval);
          probe_interval = t.direct_probe_interval;
          probe_token = some token;
        },
        punch direct token,
      )
  unfolding take_path_probe
  first_probe t p direct now token r d ne n = ground (arith, addr_eqb_iff direct p.addr)

  ack_unknown :
      (p : PeerState Net) (token now : ℕ)
      → p.keepalive ≡ none
      → p.probe_token ≡ none
      → ack_keepalive p token now ≡ (p, KeepaliveAck.unknown)
  unfolding ack_keepalive
  ack_unknown p token now k e = ground arith

  move_direct :
      (p : PeerState Net) (src : SocketAddr) (now : ℕ)
      → p.relayed ≡ true
      → p.addr ≢ src
      → mark_seen p src now false false ≡ (
        record p {
          addr = src;
          direct_addr = some src;
          last_seen = now;
          relayed = false;
          next_probe = none;
          probe_token = none;
        },
        some p.addr,
      )
  unfolding mark_seen
  move_direct p src now r ne = ground (arith, addr_eqb_iff p.addr src)

  -- While a session is relayed, its peer's direct endpoint is known and another address than its
  -- own, no probe was sent and no keepalive waits, a probe punches towards the endpoint. When the ack of
  -- the probe comes from there, the receiver marks the peer as seen before it handles the ack: the
  -- packet moves the session onto the direct path, where no more probes are sent, and the ack itself is
  -- then unknown and leaves the time of the last ack as it was.
  pub punch_upgrade :
      (t : Timings) (p : PeerState Net) (direct : SocketAddr) (start acked later token other : ℕ)
      → p.relayed ≡ true
      → p.direct_addr ≡ some direct
      → p.addr ≢ direct
      → p.next_probe ≡ none
      → p.keepalive ≡ none
      → let probed = take_path_probe p start t token in
        let moved = mark_seen probed.0 direct acked false false in
        let answered = ack_keepalive moved.0 token acked in
        (probed.1 ≡ punch direct token)
        × (moved.1 ≡ some p.addr)
        × (answered.1 ≡ KeepaliveAck.unknown)
        × (answered.0.last_ack ≡ p.last_ack)
        × (answered.0.addr ≡ direct)
        × (answered.0.relayed ≡ false)
        × ((take_path_probe answered.0 later t other).1 ≡ nothing)
  unfolding take_path_probe
  punch_upgrade t p direct start acked later token other r d ne n k =
      let probed : PeerState Net = record p {
        next_probe = some (start + t.direct_probe_interval);
        probe_interval = t.direct_probe_interval;
        probe_token = some token;
      } in
      let moved : PeerState Net = record probed {
        addr = direct;
        direct_addr = some direct;
        last_seen = acked;
        relayed = false;
        next_probe = none;
        probe_token = none;
      } in
      rw
        (
          first_probe t p direct start token r d ne n,
          move_direct probed direct acked r ne,
          ack_unknown moved token acked k refl,
        )
        (refl, refl, refl, refl, refl, refl, refl)

  -- When a probe was taken, none is taken before its interval is over; the interval is the
  -- configured one for the first probe, and twice the last one, up to thirty seconds, for the next.
  pub take_path_probe_backoff :
      (t : Timings) (p : PeerState Net) (now later token other : ℕ)
      → (take_path_probe p now t token).1 ≢ nothing
      → later < now + (take_path_probe p now t token).0.probe_interval
      → let q = (take_path_probe p now t token).0 in
        ((take_path_probe q later t other).1 ≡ nothing)
        × (q.probe_interval ≡ (
            if is_some p.next_probe
            then min (p.probe_interval * 2) (from_secs 30)
            else t.direct_probe_interval))
  unfolding take_path_probe
  take_path_probe_backoff t p now later token other h l = ground arith
