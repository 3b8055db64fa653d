-- ===== src/Time.antt =====
-- `Timings` and the durations of litewayd/src/state.rs. An `Instant` and a `Duration` are counts of
-- nanoseconds; `duration_since` stops at zero, as `-` on the natural numbers does.
use liteway.Common.{ℕ, ◌*◌, ◌-◌}

abbrev pub from_secs : ℕ → ℕ
from_secs s = s * 1_000_000_000

abbrev pub from_millis : ℕ → ℕ
from_millis ms = ms * 1_000_000

abbrev pub duration_since : ℕ → ℕ → ℕ
duration_since now earlier = now - earlier

-- `PEER_EXPIRY`
abbrev pub peer_expiry_default : ℕ
peer_expiry_default = from_secs 300

pub record Timings : Type 0 where
  pub keepalive_interval : ℕ
  pub keepalive_timeout : ℕ
  pub direct_probe_interval : ℕ
  pub handshake_timeout : ℕ
  pub relay_fallback : ℕ
  pub peer_expiry : ℕ

-- `Timings::from_secs`
unfoldable pub timings_from_secs : ℕ → ℕ → ℕ → ℕ → ℕ → Timings
timings_from_secs interval timeout probe handshake fallback = record {
  keepalive_interval = from_secs interval;
  keepalive_timeout = from_secs timeout;
  direct_probe_interval = from_secs probe;
  handshake_timeout = from_secs handshake;
  relay_fallback = from_secs fallback;
  peer_expiry = peer_expiry_default;
}
