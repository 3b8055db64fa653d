-- ===== src/Frag.antt =====
-- liteway-core/src/frag.rs: a long message in fragments, and their assembly.
pub mod Counts
pub mod Bounds
pub mod Sending
mod Tests
use liteway.Common.{
  ℕ, zero, suc, ◌+◌, ◌-◌, ◌*◌, ◌/◌, ◌%◌, ◌^◌, min, max, ◌≡◌, ◌↔◌, arith, Bool, true, false, not,
  ◌&&◌, ◌||◌, Option, none, some, List, [], ◌∷◌, ◌++◌, ltb, leb, ◌==◌, if◌then◌else◌, is_some,
  length, get_elem?, set, take, drop, replicate, keep, ◌>>=◌,
}
use liteway.Common.Keyed
use liteway.Common.Keyed.{Eq}
use liteway.Common.Bytes.{be_bytes, from_be}
use liteway.Crypto.{Crates}
use liteway.Net.{SocketAddr, addr_eqb, addr_eqb_iff}
use liteway.Time.{from_secs, duration_since}
use liteway.Wire.{at, slice, kind_handshake_frag, packet_overhead}
use liteway.Wire.Seal.{Draw}
use liteway.Config.{min_datagram}
use liteway.Handshake.{seal_handshake_to_peer, open_handshake}

abbrev pub cleanup_age_secs : ℕ
cleanup_age_secs = 30

abbrev pub max_pending_messages : ℕ
max_pending_messages = 1024

abbrev pub max_pending_messages_per_source : ℕ
max_pending_messages_per_source = 32

abbrev pub max_buffered_bytes : ℕ
max_buffered_bytes = 4 * 1024 * 1024

abbrev pub max_buffered_bytes_per_source : ℕ
max_buffered_bytes_per_source = 512 * 1024

abbrev pub max_fragmented_message_bytes : ℕ
max_fragmented_message_bytes = 512 * 1024

-- A message in assembly: its source and its id are the key.
abbrev pub Key : Type 0
Key = SocketAddr × ℕ

abbrev pub key_eqb : Key → Key → Bool
key_eqb a b = addr_eqb a.0 b.0 && a.1 == b.1

pub key_eqb_iff : (a b : Key) → (key_eqb a b ≡ true) ↔ (a ≡ b)
key_eqb_iff (a, i) (b, j) = ground (arith, addr_eqb_iff a b)

instance abbrev pub key_eq : Eq Key
key_eq = record { eqb = key_eqb; eqb_iff = key_eqb_iff }

pub data FeedResult : Type 0 where
  complete : List ℕ → FeedResult
  buffered not_fragment : FeedResult

pub record PendingMessage : Type 0 where
  pub chunks : List (Option (List ℕ))
  pub started : ℕ
  pub bytes : ℕ

pub record FragmentAssembler : Type 0 where
  pub pending : List (Key × PendingMessage)
  pub buffered_bytes : ℕ

unfoldable pub new : FragmentAssembler
new = record { pending = []; buffered_bytes = 0 }

-- `saturating_add` on a `usize` of 64 bits.
abbrev pub saturating_add : ℕ → ℕ → ℕ
saturating_add a b = min (a + b) (2 ^ 64 - 1)

abbrev pub usage_loop : SocketAddr → List (Key × PendingMessage) → ℕ × ℕ → ℕ × ℕ
usage_loop src [] acc = acc
usage_loop src ((k, msg) ∷ rest) (messages, bytes) =
    usage_loop src rest (
      if addr_eqb k.0 src
      then (messages + 1, saturating_add bytes msg.bytes)
      else (messages, bytes))

unfoldable pub source_usage : FragmentAssembler → SocketAddr → ℕ × ℕ
source_usage a src = usage_loop src a.pending (0, 0)

abbrev pub dropped_bytes : Option PendingMessage → ℕ
dropped_bytes none = 0
dropped_bytes (some msg) = msg.bytes

unfoldable pub remove_pending : FragmentAssembler → Key → FragmentAssembler
remove_pending a key = record {
  pending = Keyed.remove key a.pending;
  buffered_bytes = a.buffered_bytes - dropped_bytes (Keyed.lookup key a.pending);
}

abbrev pub young : ℕ → PendingMessage → Bool
young now msg = ltb (duration_since now msg.started / from_secs 1) cleanup_age_secs

abbrev pub removed_loop : ℕ → List (Key × PendingMessage) → ℕ → ℕ
removed_loop now [] acc = acc
removed_loop now ((k, msg) ∷ rest) acc =
    removed_loop now rest (if young now msg then acc else saturating_add acc msg.bytes)

unfoldable pub cleanup : FragmentAssembler → ℕ → FragmentAssembler
cleanup a now = record {
  pending = Keyed.retain (λ key msg. young now msg) a.pending;
  buffered_bytes = a.buffered_bytes - removed_loop now a.pending 0;
}

abbrev pub chunk_len : Option (List ℕ) → ℕ
chunk_len none = 0
chunk_len (some chunk) = length chunk

-- The length of the chunk that stands at an index, none if there is none.
abbrev pub old_len_at : List (Option (List ℕ)) → ℕ → ℕ
old_len_at chunks idx = elim (get_elem? chunks idx) [ none ↦ 0 | some c ↦ chunk_len c ]

abbrev pub is_complete : List (Option (List ℕ)) → Bool
is_complete [] = true
is_complete (c ∷ rest) = is_some c && is_complete rest

abbrev pub assemble : List (Option (List ℕ)) → List ℕ
assemble [] = []
assemble (none ∷ rest) = assemble rest
assemble (some c ∷ rest) = c ++ assemble rest

-- The first test of `feed`: a message that is new needs room.
unfoldable pub admit_message : FragmentAssembler → Key → ℕ → ℕ → Option FragmentAssembler
admit_message a key total now =
    if is_some (Keyed.lookup key a.pending)
    then some a
    else if leb max_pending_messages (length a.pending)
        || leb max_pending_messages_per_source (source_usage a key.0).0
    then none
    else some (record a {
      pending =
          Keyed.insert key (record { chunks = replicate total none; started = now; bytes = 0 })
            a.pending;
    })

-- `usize` sums after a chunk of `new_len` bytes takes the place of one of `old_len`.
abbrev pub resized : ℕ → ℕ → ℕ → ℕ
resized bytes old_len new_len =
    if ltb new_len old_len
    then bytes - (old_len - new_len)
    else saturating_add bytes (new_len - old_len)

-- The end of `feed`: the chunk is stored, and a message that is complete is taken out.
unfoldable pub store_chunk :
    FragmentAssembler → Key → PendingMessage → ℕ → List ℕ → FragmentAssembler × FeedResult
store_chunk a key entry idx chunk =
    let old_len = old_len_at entry.chunks idx in
    let all_bytes = resized a.buffered_bytes old_len (length chunk) in
    let stored : PendingMessage = record entry {
      chunks = set entry.chunks idx (some chunk);
      bytes = resized entry.bytes old_len (length chunk);
    } in
    if is_complete stored.chunks
    then (
      record { pending = Keyed.remove key a.pending; buffered_bytes = all_bytes - stored.bytes },
      complete (assemble stored.chunks),
    )
    else (
      record { pending = Keyed.insert key stored a.pending; buffered_bytes = all_bytes },
      buffered,
    )

-- The tests on the message and on the limits of bytes.
unfoldable pub place_chunk :
    FragmentAssembler → Key → PendingMessage → ℕ → ℕ → List ℕ → FragmentAssembler × FeedResult
place_chunk a key entry idx total chunk =
    let delta = length chunk - old_len_at entry.chunks idx in
    if not (length entry.chunks == total)
    then (remove_pending a key, buffered)
    else if ltb max_fragmented_message_bytes (saturating_add entry.bytes delta)
    then (remove_pending a key, buffered)
    else if ltb max_buffered_bytes (saturating_add a.buffered_bytes delta)
        || ltb max_buffered_bytes_per_source (saturating_add (source_usage a key.0).1 delta)
    then (a, buffered)
    else store_chunk a key entry idx chunk

abbrev pub find_and_place :
    FragmentAssembler
    → Key
    → Option PendingMessage
    → ℕ
    → ℕ
    → List ℕ
    → FragmentAssembler × FeedResult
find_and_place a key none idx total chunk = (a, buffered)
find_and_place a key (some entry) idx total chunk = place_chunk a key entry idx total chunk

abbrev pub after_admit :
    FragmentAssembler
    → Key
    → Option FragmentAssembler
    → ℕ
    → ℕ
    → List ℕ
    → FragmentAssembler × FeedResult
after_admit a key none idx total chunk = (a, buffered)
after_admit a key (some b) idx total chunk =
    find_and_place b key (Keyed.lookup key b.pending) idx total chunk

-- `feed`, from the fields of the fragment on.
unfoldable pub feed_chunk :
    FragmentAssembler → Key → ℕ → ℕ → List ℕ → ℕ → FragmentAssembler × FeedResult
feed_chunk a key idx total chunk now =
    if leb total idx || total == 0
    then (a, buffered)
    else if ltb max_fragmented_message_bytes (length chunk)
    then (a, buffered)
    else after_admit a key (admit_message a key total now) idx total chunk

unfoldable pub feed_plain :
    FragmentAssembler → SocketAddr → List ℕ → ℕ → FragmentAssembler × FeedResult
feed_plain a src plain now =
    if ltb (length plain) 7 || not (at plain 0 == kind_handshake_frag)
    then (a, not_fragment)
    else feed_chunk a (src, from_be (slice plain 1 4)) (at plain 5) (at plain 6) (drop 7 plain) now

abbrev pub after_open :
    FragmentAssembler → SocketAddr → Option (List ℕ) → ℕ → FragmentAssembler × FeedResult
after_open a src none now = (a, not_fragment)
after_open a src (some plain) now = feed_plain a src plain now

unfoldable pub feed :
    Crates → FragmentAssembler → SocketAddr → List ℕ → List ℕ → ℕ → FragmentAssembler × FeedResult
feed c a src message network_key now = after_open a src (open_handshake c network_key message) now

-- The outcome of `send_fragmented_with_id`, with the packets handed to the socket.
pub data SendResult : Type 0 where
  datagram_too_small : SendResult
  too_many_chunks : SendResult
  sent : List (List ℕ) → SendResult

-- `data.chunks(size)`, by index.
abbrev pub chunk_at : ℕ → List ℕ → ℕ → List ℕ
chunk_at size message i = take size (drop (i * size) message)

-- The plaintext of one fragment: its indices are cast to a byte.
abbrev pub fragment_of : ℕ → ℕ → ℕ → List ℕ → List ℕ
fragment_of msg_id i total chunk =
    kind_handshake_frag ∷ (be_bytes 4 msg_id ++ (i % 256 ∷ total % 256 ∷ chunk))

-- `div_ceil`
abbrev pub div_ceil : ℕ → ℕ → ℕ
div_ceil a b = (a + b - 1) / b

module _ (c : Crates) where
  -- The loop over the chunks, from the index `i` on; the draws of random bytes go by index.
  unfoldable pub send_from : List ℕ → List ℕ → ℕ → ℕ → ℕ → ℕ → (ℕ → Draw) → ℕ → ℕ → List (List ℕ)
  send_from network_key message size total dst msg_id draws i zero = []
  send_from network_key message size total dst msg_id draws i (suc left) =
      seal_handshake_to_peer c network_key (fragment_of msg_id i total (chunk_at size message i))
        dst (draws i)
      ∷ send_from network_key message size total dst msg_id draws (i + 1) left

  -- An empty message is one empty fragment, as the loop over one chunk gives it.
  unfoldable pub send_fragmented_with_id : List ℕ → List ℕ → ℕ → ℕ → ℕ → (ℕ → Draw) → SendResult
  send_fragmented_with_id network_key message max_datagram dst_peer_id msg_id draws =
      let size = max_datagram - packet_overhead in
      let total = max (div_ceil (length message) size) 1 in
      if ltb max_datagram min_datagram
      then datagram_too_small
      else if ltb 255 total
      then too_many_chunks
      else sent (send_from network_key message size total dst_peer_id msg_id draws 0 total)
