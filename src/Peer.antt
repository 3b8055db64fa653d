-- ===== src/Peer.antt =====
-- `PeerState` of litewayd/src/state.rs: one session, its liveness and its path.
pub mod Events
pub mod Ticks
pub mod Liveness
pub mod Sequence
pub mod PathChoice
mod Tests
use liteway.Common.{
  ℕ, suc, ◌+◌, ◌-◌, ◌*◌, ◌%◌, ◌^◌, min, Bool, true, false, not, ◌&&◌, Option, none, some, List, ltb,
  leb, ◌==◌, if◌then◌else◌, is_some,
}
use liteway.Common.Keyed.{option_eqb}
use liteway.Net.{Text, SocketAddr, addr_eqb}
use liteway.Time.{Timings, from_secs, duration_since}
use liteway.Cert.{Cert}
use liteway.Replay.{ReplayWindow}

-- `KEEPALIVE_RETRY_MAX` and `DIRECT_PROBE_MAX_INTERVAL`
abbrev pub keepalive_retry_max : ℕ
keepalive_retry_max = from_secs 2

abbrev pub direct_probe_max_interval : ℕ
direct_probe_max_interval = from_secs 30

pub record KeepalivePending : Type 0 where
  pub token : ℕ
  pub first_sent_at : ℕ
  pub last_sent_at : ℕ

pub data DropReason : Type 0 where
  keepalive_timeout expired : DropReason

pub data PeerTick : Type 0 where
  idle : PeerTick
  keepalive : ℕ → PeerTick
  drop : DropReason → PeerTick

pub data KeepaliveAck : Type 0 where
  keepalive probe unknown : KeepaliveAck

pub data PathProbe : Type 0 where
  nothing : PathProbe
  punch : SocketAddr → ℕ → PathProbe
  lookup : PathProbe

-- `Net` is the type of the crate `ipnetwork`.
pub record PeerState (Net : Type 0) : Type 0 where
  pub name : Text
  pub cert : Cert
  pub tx_key : List ℕ
  pub rx_key : List ℕ
  pub addr : SocketAddr
  pub direct_addr : Option SocketAddr
  pub is_relay : Bool
  pub tx_session_id : ℕ
  pub rx_session_id : ℕ
  pub tx_seq : ℕ
  pub rx_replay : ReplayWindow
  pub last_seen : ℕ
  pub last_ack : ℕ
  pub routes : List Net
  pub handshake_initiator_id : ℕ
  pub keepalive : Option KeepalivePending
  pub relayed : Bool
  pub next_probe : Option ℕ
  pub probe_interval : ℕ
  pub probe_token : Option ℕ

abbrev pub same_addr : Option SocketAddr → SocketAddr → Bool
same_addr o a = option_eqb addr_eqb o (some a)

-- `next_probe.is_some_and(|next| now < next)`
abbrev pub probe_later : Option ℕ → ℕ → Bool
probe_later none now = false
probe_later (some next) now = ltb now next

abbrev pub next_interval : Option ℕ → ℕ → Timings → ℕ
next_interval none interval timings = timings.direct_probe_interval
next_interval (some next) interval timings = min (interval * 2) direct_probe_max_interval

abbrev pub answered : Option KeepalivePending → ℕ → Bool
answered none token = false
answered (some k) token = k.token == token

module _ {Net : Type 0} where
  -- `wrapping_add(1)` on a `u64`; the new sequence number is the result.
  unfoldable pub next_seq : PeerState Net → PeerState Net × ℕ
  next_seq p = let seq = (p.tx_seq + 1) % 2 ^ 64 in (record p { tx_seq = seq }, seq)

  -- The part of `mark_seen` that adopts the source, and returns the address it replaces.
  unfoldable pub adopt : PeerState Net → SocketAddr → Bool → PeerState Net × Option SocketAddr
  adopt p src src_is_relay = if src_is_relay then (record p { addr = src }, some p.addr) else (
    record p {
      addr = src;
      direct_addr = some src;
      relayed = false;
      next_probe = none;
      probe_token = none;
    },
    some p.addr,
  )

  unfoldable pub mark_seen :
      PeerState Net → SocketAddr → ℕ → Bool → Bool → PeerState Net × Option SocketAddr
  unfolding adopt
  mark_seen peer src now src_is_relay is_keepalive =
      let p = record peer { last_seen = now } in
      if addr_eqb p.addr src
      then (p, none)
      else if src_is_relay && not p.relayed
      then (p, none)
      else if not src_is_relay && (p.relayed && is_keepalive)
      then (if same_addr p.direct_addr src
          then (p, none)
          else (record p { direct_addr = some src; next_probe = none }, none))
      else adopt p src src_is_relay

  unfoldable pub ack_keepalive : PeerState Net → ℕ → ℕ → PeerState Net × KeepaliveAck
  ack_keepalive p token now =
      if answered p.keepalive token
      then (record p { keepalive = none; last_ack = now }, KeepaliveAck.keepalive)
      else if option_eqb ◌==◌ p.probe_token (some token)
      then (record p { probe_token = none; last_ack = now }, KeepaliveAck.probe)
      else (p, KeepaliveAck.unknown)

  -- `tick` with an unanswered keepalive, and without one.
  unfoldable pub tick_pending :
      PeerState Net → ℕ → Timings → KeepalivePending → PeerState Net × PeerTick
  tick_pending p now timings k =
      let retry = min timings.keepalive_interval keepalive_retry_max in
      if leb timings.keepalive_timeout (duration_since now k.first_sent_at)
      then (p, PeerTick.drop keepalive_timeout)
      else if leb retry (duration_since now k.last_sent_at)
      then (
        record p { keepalive = some (record k { last_sent_at = now }) },
        PeerTick.keepalive k.token,
      )
      else (p, idle)

  unfoldable pub tick_quiet : PeerState Net → ℕ → Timings → ℕ → PeerState Net × PeerTick
  tick_quiet p now timings token =
      let k : KeepalivePending = record {
        token = token;
        first_sent_at = now;
        last_sent_at = now;
      } in
      if leb timings.peer_expiry (duration_since now p.last_seen)
      then (p, PeerTick.drop expired)
      else if leb timings.keepalive_interval (duration_since now p.last_ack)
      then (record p { keepalive = some k }, PeerTick.keepalive token)
      else (p, idle)

  unfoldable pub tick : PeerState Net → ℕ → Timings → ℕ → PeerState Net × PeerTick
  unfolding tick_pending tick_quiet
  tick p now timings token = elim p.keepalive [
    | none ↦ tick_quiet p now timings token
    | some k ↦ tick_pending p now timings k
  ]

  unfoldable pub take_path_probe : PeerState Net → ℕ → Timings → ℕ → PeerState Net × PathProbe
  take_path_probe p now timings token =
      if not p.relayed
      then (p, nothing)
      else if same_addr p.direct_addr p.addr
      then (p, nothing)
      else if probe_later p.next_probe now
      then (p, nothing)
      else let interval = next_interval p.next_probe p.probe_interval timings in
        let q = record p { probe_interval = interval; next_probe = some (now + interval) } in
        elim p.direct_addr [
          | some direct ↦ (record q { probe_token = some token }, punch direct token)
          | none ↦ (q, lookup)
        ]
