-- ===== src/Config/Validity.antt =====
-- What a configuration that passes `validate` guarantees.
use liteway.Common.{
  ℕ, ◌+◌, ◌≤◌, ◌<◌, min, ◌≡◌, refl, ◌↔◌, true, false, Option, none, some, List, [], ◌∷◌, arith, All,
}
use liteway.Time.{from_secs}
use liteway.Config.{
  AppConfig, InterfaceConfig, LighthouseConfig, is_blank, check_interface, check_lighthouses,
  validate, timings,
}
use liteway.Peer.{PeerState, KeepalivePending, PeerTick, tick}
use liteway.Pending.{PendingHandshake, relay_fallback_due, is_expired}

-- An MTU that is configured is at least the minimum of IPv4.
abbrev pub WideEnough : Option InterfaceConfig → Type 0
WideEnough none = Unit
WideEnough (some iface) = 576 ≤ iface.mtu

pub record IsSound (c : AppConfig) : Type 0 where
  pub punch : 0 < c.punch_interval_secs
  pub interval : 0 < c.keepalive_interval_secs
  pub probe : 0 < c.direct_probe_interval_secs
  pub fallback : 0 < c.relay_fallback_timeout_secs
  pub answerable : c.keepalive_interval_secs < c.keepalive_timeout_secs
  pub relay_in_time : c.relay_fallback_timeout_secs < c.handshake_timeout_secs
  pub mtu : WideEnough c.interface
  pub addresses : All (λ l. is_blank l.address ≡ false) c.lighthouses

lighthouses_iff :
    (ls : List LighthouseConfig)
    → (check_lighthouses ls ≡ none) ↔ All (λ l. is_blank l.address ≡ false) ls
lighthouses_iff [] = (λ _. tt, λ _. refl)
lighthouses_iff (l ∷ ls) = ground (arith, lighthouses_iff ls)

interface_iff : (o : Option InterfaceConfig) → (check_interface o ≡ none) ↔ WideEnough o
interface_iff none = (λ _. tt, λ _. refl)
interface_iff (some iface) = ground arith

-- Validation passes exactly when every interval is positive, a keepalive's timeout is longer than its
-- interval, the relay is tried before the handshake is abandoned, a configured MTU is at least 576
-- and no lighthouse has a blank address.
pub validate-IsSound : (c : AppConfig) → (validate c ≡ none) ↔ IsSound c
unfolding validate
validate-IsSound c = (
  λ h. record {
    punch = ground arith;
    interval = ground arith;
    probe = ground arith;
    fallback = ground arith;
    answerable = ground arith;
    relay_in_time = ground arith;
    mtu = ground (arith, interface_iff c.interface);
    addresses = ground (arith, interface_iff c.interface, lighthouses_iff c.lighthouses);
  },
  λ s. ground (
    arith,
    s.punch,
    s.interval,
    s.probe,
    s.fallback,
    s.answerable,
    s.relay_in_time,
    s.mtu,
    s.addresses,
    interface_iff c.interface,
    lighthouses_iff c.lighthouses,
  ),
)

-- Under a configuration that passes validation, a handshake to a peer known by id, with no relay
-- chosen, has its relay due when the fallback time is over, and is not expired then.
pub relay_in_time-PendingHandshake :
    (c : AppConfig) (h : PendingHandshake) (id : ℕ)
    → validate c ≡ none
    → h.peer_id ≡ some id
    → h.relay_addr ≡ none
    → let due = h.created_at + from_secs c.relay_fallback_timeout_secs in
      (relay_fallback_due h due (timings c) ≡ true) × (is_expired h due (timings c) ≡ false)
unfolding relay_fallback_due is_expired timings
relay_in_time-PendingHandshake c h id v p r =
    let s = (validate-IsSound c).0 v in
    let early : from_secs c.relay_fallback_timeout_secs < from_secs c.handshake_timeout_secs =
      omega (arith, s.relay_in_time) in
    ground (arith, early)

-- Under a configuration that passes validation, a keepalive that was sent once and has no answer is
-- sent again with its token, and its session is not dropped, by a tick that comes the shorter of
-- the interval and two seconds after it.
pub repeat_in_time-PeerState :
    {Net : Type 0}
    → (c : AppConfig) (p : PeerState Net) (k : KeepalivePending) (token : ℕ) → validate c ≡ none
    → p.keepalive ≡ some k
    → k.last_sent_at ≡ k.first_sent_at
    → (tick p
        (k.first_sent_at + min (from_secs c.keepalive_interval_secs) (from_secs 2))
        (timings c)
        token).1
      ≡ PeerTick.keepalive k.token
unfolding tick timings
repeat_in_time-PeerState c p k token v e l =
    let s = (validate-IsSound c).0 v in
    let early : from_secs c.keepalive_interval_secs < from_secs c.keepalive_timeout_secs =
      omega (arith, s.answerable) in
    rw (e, l) (ground (arith, early))
