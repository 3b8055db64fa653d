-- ===== src/Config.antt =====
-- `AppConfig` of liteway-core/src/config.rs, and what litewayd/src/main.rs makes of it: the timings
-- and the size of its datagrams. Reading and writing the file are left out.
pub mod Validity
pub mod Datagrams
mod Tests
use liteway.Common.{
  ℕ, ◌+◌, ◌-◌, min, max, Bool, true, false, ◌&&◌, ◌||◌, Option, none, some, List, [], ◌∷◌, ltb, leb,
  ◌==◌, if◌then◌else◌,
}
use liteway.Net.{Text, text, SocketAddr}
use liteway.Time.{Timings, timings_from_secs}
use liteway.Wire.{packet_overhead}

pub record LighthouseConfig : Type 0 where
  pub name : Text
  pub address : Text

pub record InterfaceConfig : Type 0 where
  pub name : Text
  pub mtu : ℕ

pub record AppConfig : Type 0 where
  pub listen : SocketAddr
  pub ca_cert_path : Text
  pub node_cert_path : Text
  pub node_key_path : Text
  pub network_secret : Text
  pub lighthouses : List LighthouseConfig
  pub interface : Option InterfaceConfig
  pub am_lighthouse : Bool
  pub am_relay : Bool
  pub punch_interval_secs : ℕ
  pub keepalive_punch : Bool
  pub keepalive_timeout_secs : ℕ
  pub relay_fallback_timeout_secs : ℕ
  pub handshake_timeout_secs : ℕ
  pub keepalive_interval_secs : ℕ
  pub direct_probe_interval_secs : ℕ

-- The five messages of `validate`, with the values that they print.
pub data ConfigError : Type 0 where
  not_positive : Text → ConfigError
  timeout_too_short : ℕ → ℕ → ConfigError
  fallback_too_late : ℕ → ℕ → ConfigError
  mtu_too_small : ℕ → ConfigError
  empty_address : Text → ConfigError

abbrev pub zero_checks : AppConfig → List (Text × ℕ)
zero_checks c =
    (text "punch_interval_secs", c.punch_interval_secs)
    ∷ (text "keepalive_timeout_secs", c.keepalive_timeout_secs)
    ∷ (text "keepalive_interval_secs", c.keepalive_interval_secs)
    ∷ (text "handshake_timeout_secs", c.handshake_timeout_secs)
    ∷ (text "direct_probe_interval_secs", c.direct_probe_interval_secs)
    ∷ (text "relay_fallback_timeout_secs", c.relay_fallback_timeout_secs)
    ∷ []

abbrev pub first_zero : List (Text × ℕ) → Option Text
first_zero [] = none
first_zero ((name, value) ∷ rest) = if value == 0 then some name else first_zero rest

-- `trim().is_empty()`: nothing but the white space of Unicode, in UTF-8.
abbrev space_1 : ℕ → Bool
space_1 a = (leb 9 a && leb a 13) || a == 32

abbrev space_2 : ℕ → ℕ → Bool
space_2 a b = a == 0xc2 && (b == 0x85 || b == 0xa0)

abbrev space_3 : ℕ → ℕ → ℕ → Bool
space_3 a b c =
    (a == 0xe1 && (b == 0x9a && c == 0x80))
    || (a == 0xe2
        && (b == 0x80 && ((leb 0x80 c && leb c 0x8a) || (c == 0xa8 || (c == 0xa9 || c == 0xaf)))))
    || (a == 0xe2 && (b == 0x81 && c == 0x9f))
    || (a == 0xe3 && (b == 0x80 && c == 0x80))

abbrev pub is_blank : Text → Bool
is_blank [] = true
is_blank (a ∷ []) = space_1 a
is_blank (a ∷ b ∷ []) = (space_1 a && is_blank (b ∷ [])) || space_2 a b
is_blank (a ∷ b ∷ c ∷ rest) =
    (space_1 a && is_blank (b ∷ c ∷ rest))
    || (space_2 a b && is_blank (c ∷ rest))
    || (space_3 a b c && is_blank rest)

abbrev pub check_interface : Option InterfaceConfig → Option ConfigError
check_interface none = none
check_interface (some iface) = if ltb iface.mtu 576 then some (mtu_too_small iface.mtu) else none

abbrev pub check_lighthouses : List LighthouseConfig → Option ConfigError
check_lighthouses [] = none
check_lighthouses (lighthouse ∷ rest) =
    if is_blank lighthouse.address
    then some (empty_address lighthouse.name)
    else check_lighthouses rest

-- The first of two checks that fails.
abbrev pub or_else : Option ConfigError → Option ConfigError → Option ConfigError
or_else none e = e
or_else (some d) e = some d

-- `none` stands for `Ok(())`.
unfoldable pub validate : AppConfig → Option ConfigError
validate c = elim (first_zero (zero_checks c)) [
  | some name ↦ some (not_positive name)
  | none ↦
      if leb c.keepalive_timeout_secs c.keepalive_interval_secs
      then some (timeout_too_short c.keepalive_timeout_secs c.keepalive_interval_secs)
      else if leb c.handshake_timeout_secs c.relay_fallback_timeout_secs
      then some (fallback_too_late c.relay_fallback_timeout_secs c.handshake_timeout_secs)
      else or_else (check_interface c.interface) (check_lighthouses c.lighthouses)
]

-- The timings of a node.
unfoldable pub timings : AppConfig → Timings
unfolding timings_from_secs
timings c =
    timings_from_secs c.keepalive_interval_secs c.keepalive_timeout_secs
      c.direct_probe_interval_secs c.handshake_timeout_secs c.relay_fallback_timeout_secs

-- `DEFAULT_MAX_DATAGRAM` and `MIN_DATAGRAM` of liteway-core/src/frag.rs
abbrev pub default_max_datagram : ℕ
default_max_datagram = 1200

abbrev pub min_datagram : ℕ
min_datagram = packet_overhead + 1

unfoldable pub ip_udp_overhead : SocketAddr → ℕ
ip_udp_overhead (SocketAddr.v6 ip port flow scope) = 48
ip_udp_overhead (SocketAddr.v4 ip port) = 28

abbrev clamp : ℕ → ℕ → ℕ → ℕ
clamp x low high = min (max x low) high

unfoldable pub udp_payload_limit : AppConfig → SocketAddr → ℕ
udp_payload_limit c listen = elim c.interface [
  | none ↦ default_max_datagram
  | some iface ↦ clamp (iface.mtu - ip_udp_overhead listen) min_datagram default_max_datagram
]

-- What `warn_on_oversized_mtu` takes a full packet of the tunnel to make, and whether it warns.
unfoldable pub tunnel_datagram : ℕ → SocketAddr → ℕ
tunnel_datagram mtu listen = mtu + packet_overhead + ip_udp_overhead listen

abbrev is_too_long : Option InterfaceConfig → SocketAddr → Bool
is_too_long none listen = false
is_too_long (some iface) listen = ltb 1500 (tunnel_datagram iface.mtu listen)

unfoldable pub warn_on_oversized_mtu : AppConfig → SocketAddr → Bool
warn_on_oversized_mtu c listen = is_too_long c.interface listen
