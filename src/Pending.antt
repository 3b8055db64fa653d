-- ===== src/Pending.antt =====
-- `PendingHandshake` of litewayd/src/state.rs: a handshake that has no answer yet. The key material
-- of `HandshakeInitiate` is opaque here: its message and its session id are what is used.
pub mod Retries
mod Tests
use liteway.Common.{
  ℕ, ◌+◌, ◌-◌, ◌*◌, ◌^◌, min, Bool, true, false, not, ◌&&◌, Option, none, some, List, [], ◌∷◌, ◌++◌,
  ltb, leb, if◌then◌else◌, is_some,
}
use liteway.Net.{Text, SocketAddr, addr_eqb}
use liteway.Time.{Timings, from_secs, from_millis, duration_since}

-- `HANDSHAKE_RETRY_BASE`, `HANDSHAKE_RETRY_MAX` and `HANDSHAKE_MAX_ATTEMPTS`
abbrev pub handshake_retry_base : ℕ
handshake_retry_base = from_millis 500

abbrev pub handshake_retry_max : ℕ
handshake_retry_max = from_secs 3

abbrev pub handshake_max_attempts : ℕ
handshake_max_attempts = 10

pub record HandshakeInitiate : Type 0 where
  pub msg : List ℕ
  pub eph_x25519_sk : List ℕ
  pub eph_mlkem_sk : List ℕ
  pub my_rx_session_id : ℕ

pub record PendingHandshake : Type 0 where
  pub initiate : HandshakeInitiate
  pub direct_addr : SocketAddr
  pub relay_addr : Option SocketAddr
  pub peer_id : Option ℕ
  pub peer_name : Text
  pub created_at : ℕ
  pub next_attempt : ℕ
  pub attempts : ℕ

-- `saturating_mul` does not saturate here: the factor is 8 at most.
unfoldable pub retry_delay : ℕ → ℕ
retry_delay attempts =
    let exponent = min (attempts - 1) 8 in
    let scaled = handshake_retry_base * 2 ^ min exponent 3 in min scaled handshake_retry_max

unfoldable pub new : HandshakeInitiate → SocketAddr → Option ℕ → Text → ℕ → PendingHandshake
new initiate direct_addr peer_id peer_name now = record {
  initiate = initiate;
  direct_addr = direct_addr;
  relay_addr = none;
  peer_id = peer_id;
  peer_name = peer_name;
  created_at = now;
  next_attempt = now + retry_delay 1;
  attempts = 1;
}

unfoldable pub is_expired : PendingHandshake → ℕ → Timings → Bool
is_expired h now timings = leb timings.handshake_timeout (duration_since now h.created_at)

unfoldable pub retransmit_due : PendingHandshake → ℕ → Timings → Bool
unfolding is_expired
retransmit_due h now timings =
    not (is_expired h now timings)
    && (ltb h.attempts handshake_max_attempts && leb h.next_attempt now)

unfoldable pub record_attempt : PendingHandshake → ℕ → PendingHandshake
record_attempt h now = record h {
  attempts = h.attempts + 1;
  next_attempt = now + retry_delay (h.attempts + 1);
}

unfoldable pub relay_fallback_due : PendingHandshake → ℕ → Timings → Bool
relay_fallback_due h now timings =
    not (is_some h.relay_addr)
    && (is_some h.peer_id && leb timings.relay_fallback (duration_since now h.created_at))

abbrev pub relay_target : SocketAddr → Option SocketAddr → List SocketAddr
relay_target direct none = []
relay_target direct (some relay) = if addr_eqb relay direct then [] else relay ∷ []

unfoldable pub targets : PendingHandshake → List SocketAddr
targets h = h.direct_addr ∷ relay_target h.direct_addr h.relay_addr
