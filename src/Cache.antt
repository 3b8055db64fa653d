-- ===== src/Cache.antt =====
-- `HandshakeCache` of litewayd/src/state.rs: the answers given to handshakes, by their hash.
pub mod Answers
mod Tests
use liteway.Common.{
  ℕ, ◌-◌, Bool, Option, none, some, List, [], ◌∷◌, ltb, leb, if◌then◌else◌, length, ◌>>=◌,
}
use liteway.Common.Keyed
use liteway.Net.{Text, text_eq}
use liteway.Time.{from_secs, duration_since}

-- `HANDSHAKE_CACHE_TTL` and `HANDSHAKE_CACHE_MAX_ENTRIES`
abbrev pub handshake_cache_ttl : ℕ
handshake_cache_ttl = from_secs 60

abbrev pub handshake_cache_max_entries : ℕ
handshake_cache_max_entries = 256

pub record CachedHandshake : Type 0 where
  pub response : List ℕ
  pub peer_id : ℕ
  pub created_at : ℕ

-- A key is the 32 bytes of a hash.
pub record HandshakeCache : Type 0 where
  pub entries : List (Text × CachedHandshake)

unfoldable pub new : HandshakeCache
new = record { entries = [] }

abbrev pub is_fresh : ℕ → CachedHandshake → Bool
is_fresh now entry = ltb (duration_since now entry.created_at) handshake_cache_ttl

abbrev pub if_fresh : ℕ → Option CachedHandshake → Option CachedHandshake
if_fresh now none = none
if_fresh now (some entry) = if is_fresh now entry then some entry else none

unfoldable pub get : HandshakeCache → Text → ℕ → Option CachedHandshake
get c key now = if_fresh now (Keyed.lookup key c.entries)

unfoldable pub cleanup : HandshakeCache → ℕ → HandshakeCache
cleanup c now = record { entries = Keyed.retain (λ key entry. is_fresh now entry) c.entries }

-- `min_by_key` by the time of creation: the first of the oldest entries in the order of iteration,
-- which the source leaves open.
unfoldable pub oldest : List (Text × CachedHandshake) → Option (Text × ℕ)
oldest [] = none
oldest ((key, entry) ∷ m) = elim (oldest m) [
  | none ↦ some (key, entry.created_at)
  | some (k, at) ↦ if ltb at entry.created_at then some (k, at) else some (key, entry.created_at)
]

abbrev pub without :
    Option (Text × ℕ) → List (Text × CachedHandshake) → List (Text × CachedHandshake)
without none m = m
without (some (key, at)) m = Keyed.remove key m

-- The two tests on the size, and the entries that they leave.
unfoldable pub make_room : HandshakeCache → ℕ → HandshakeCache
make_room c now =
    let cleaned = if leb handshake_cache_max_entries (length c.entries) then cleanup c now else c in
    if leb handshake_cache_max_entries (length cleaned.entries)
    then record { entries = without (oldest cleaned.entries) cleaned.entries }
    else cleaned

unfoldable pub insert : HandshakeCache → Text → List ℕ → ℕ → ℕ → HandshakeCache
insert c key response peer_id now =
    let entry : CachedHandshake = record {
      response = response;
      peer_id = peer_id;
      created_at = now;
    } in
    record { entries = Keyed.insert key entry (make_room c now).entries }
