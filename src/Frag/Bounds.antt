-- ===== src/Frag/Bounds.antt =====
-- The assembler counts its bytes right and stays within its limits.
use liteway.Common.{
  ℕ, ◌+◌, ◌-◌, ◌^◌, ◌≤◌, ◌<◌, ◌≡◌, refl, inl, inr, Option, none, some, List, [], ◌∷◌, arith, leb,
  length, set, replicate, drop, Option-cases, Bool-cases,
}
use liteway.Common.Keyed
use liteway.Common.Keyed.{
  Distinct, total, total-insert, total-remove, of_entry, insert-Distinct, remove-Distinct,
  retain-Distinct, length-insert, length-remove-le, length-retain-le, total-retain-le,
}
use liteway.Crypto.{Crates}
use liteway.Net.{SocketAddr}
use liteway.Common.Bytes.{from_be}
use liteway.Wire.{at, slice}
use liteway.Handshake.{open_handshake}
use liteway.Frag.{
  Key, key_eq, PendingMessage, FragmentAssembler, saturating_add, cleanup, young, removed_loop,
  old_len_at, admit_message, resized, store_chunk, place_chunk, find_and_place, after_admit,
  after_open, feed_chunk, feed_plain, feed, is_complete,
}
use liteway.Frag.Counts.{
  Entries, IsCounted, bytes_of, IsValid, lookup-Each, insert-Each, remove-Each, retain-Each,
  set-chunk_sum, chunk_sum-replicate, remove_pending-IsValid, resized_sum, old_len_at-le,
}

fresh-IsValid :
    (a : FragmentAssembler) (key : Key) (count now : ℕ)
    → IsValid a
    → Keyed.lookup key a.pending ≡ none
    → length a.pending < 1024
    → IsValid (record a {
      pending =
          Keyed.insert key
            (record { chunks = replicate count none; started = now; bytes = 0 })
            a.pending;
    })
fresh-IsValid a key count now v e room =
    let m : PendingMessage = record { chunks = replicate count none; started = now; bytes = 0 } in
    let i : IsCounted m = record {
      counted = omega (arith, chunk_sum-replicate count);
      bounded = omega arith;
    } in
    record {
      distinct = insert-Distinct key m a.pending v.distinct;
      each = insert-Each key m a.pending i v.each;
      counted = ground (arith, total-insert bytes_of key m a.pending, v.counted, e);
      small = v.small;
      few = ground (arith, length-insert key m a.pending, e, room);
    }

abbrev Kept : Option FragmentAssembler → Type 0
Kept none = Unit
Kept (some a) = IsValid a

admit_message-Kept :
    (a : FragmentAssembler) (key : Key) (count now : ℕ)
    → IsValid a
    → Kept (admit_message a key count now)
unfolding admit_message
admit_message-Kept a key count now v = elim (Option-cases (Keyed.lookup key a.pending)) [
  | inr (m, e) ↦ rw e v
  | inl e ↦ elim (Bool-cases (leb 1024 (length a.pending))) [
    | inl full ↦ rw (e, full) tt
    | inr room ↦ ground (arith, e, room, v, fresh-IsValid a key count now v e)
  ]
]

-- A chunk that passed the tests changes the message and the sum over all of them alike.
store_chunk-IsValid :
    (a : FragmentAssembler) (key : Key) (entry : PendingMessage) (idx : ℕ) (chunk : List ℕ)
    → IsValid a
    → Keyed.lookup key a.pending ≡ some entry
    → idx < length entry.chunks
    → saturating_add entry.bytes (length chunk - old_len_at entry.chunks idx) ≤ 524288
    → saturating_add a.buffered_bytes (length chunk - old_len_at entry.chunks idx) ≤ 4194304
    → IsValid (store_chunk a key entry idx chunk).0
unfolding store_chunk
store_chunk-IsValid a key entry idx chunk v e inside fits room =
    let old = old_len_at entry.chunks idx in
    let stored : PendingMessage = record entry {
      chunks = set entry.chunks idx (some chunk);
      bytes = resized entry.bytes old (length chunk);
    } in
    let was = lookup-Each key a.pending entry v.each e in
    let old_fits : old ≤ entry.bytes =
      omega (arith, old_len_at-le entry.chunks idx inside, was.counted) in
    let parts : total bytes_of (Keyed.remove key a.pending) + entry.bytes ≡ a.buffered_bytes =
      ground (arith, total-remove bytes_of key a.pending, v.counted, e) in
    let own = resized_sum entry.bytes old (length chunk) 524288 old_fits (omega arith) fits in
    let all =
      resized_sum a.buffered_bytes old (length chunk) 4194304 (omega arith) (omega arith) room in
    let i : IsCounted stored = record {
      counted = omega (arith, set-chunk_sum entry.chunks idx chunk inside, was.counted, own.0);
      bounded = own.1;
    } in
    let sum_after : total bytes_of (Keyed.insert key stored a.pending) + entry.bytes
        ≡ total bytes_of a.pending + stored.bytes =
      ground (arith, total-insert bytes_of key stored a.pending, e) in
    elim (Bool-cases (is_complete stored.chunks)) [
      | inl done ↦ rw done (record {
        distinct = remove-Distinct key a.pending v.distinct;
        each = remove-Each key a.pending v.each;
        counted = omega (arith, own.0, all.0, parts);
        small = omega (arith, all.1);
        few = omega (arith, length-remove-le key a.pending, v.few);
      })
      | inr open_yet ↦ rw open_yet (record {
        distinct = insert-Distinct key stored a.pending v.distinct;
        each = insert-Each key stored a.pending i v.each;
        counted = omega (arith, sum_after, own.0, all.0, v.counted);
        small = all.1;
        few = ground (arith, length-insert key stored a.pending, e, v.few);
      })
    ]

place_chunk-IsValid :
    (a : FragmentAssembler) (key : Key) (entry : PendingMessage) (idx count : ℕ) (chunk : List ℕ)
    → IsValid a
    → Keyed.lookup key a.pending ≡ some entry
    → idx < count
    → IsValid (place_chunk a key entry idx count chunk).0
unfolding place_chunk
place_chunk-IsValid a key entry idx count chunk v e inside =
    ground (arith, v, remove_pending-IsValid a key v, store_chunk-IsValid a key entry idx chunk v e)

find_and_place-IsValid :
    (a : FragmentAssembler) (key : Key) (o : Option PendingMessage) (idx count : ℕ) (chunk : List ℕ)
    → IsValid a
    → Keyed.lookup key a.pending ≡ o
    → idx < count
    → IsValid (find_and_place a key o idx count chunk).0
find_and_place-IsValid a key none idx count chunk v e inside = v
find_and_place-IsValid a key (some entry) idx count chunk v e inside =
    place_chunk-IsValid a key entry idx count chunk v e inside

after_admit-IsValid :
    (a : FragmentAssembler) (key : Key) (o : Option FragmentAssembler) (idx count : ℕ)
    (chunk : List ℕ)
    → IsValid a
    → Kept o
    → idx < count
    → IsValid (after_admit a key o idx count chunk).0
after_admit-IsValid a key none idx count chunk v kept inside = v
after_admit-IsValid a key (some b) idx count chunk v kept inside =
    find_and_place-IsValid b key (Keyed.lookup key b.pending) idx count chunk kept refl inside

feed_chunk-IsValid :
    (a : FragmentAssembler) (key : Key) (idx count : ℕ) (chunk : List ℕ) (now : ℕ)
    → IsValid a
    → IsValid (feed_chunk a key idx count chunk now).0
unfolding feed_chunk
feed_chunk-IsValid a key idx count chunk now v = ground (
  arith,
  v,
  after_admit-IsValid a key (admit_message a key count now) idx count chunk v
      (admit_message-Kept a key count now v),
)

feed_plain-IsValid :
    (a : FragmentAssembler) (src : SocketAddr) (plain : List ℕ) (now : ℕ)
    → IsValid a
    → IsValid (feed_plain a src plain now).0
unfolding feed_plain
feed_plain-IsValid a src plain now v = ground (
  arith,
  v,
  feed_chunk-IsValid a (src, from_be (slice plain 1 4)) (at plain 5) (at plain 6) (drop 7 plain) now
      v,
)

after_open-IsValid :
    (a : FragmentAssembler) (src : SocketAddr) (o : Option (List ℕ)) (now : ℕ)
    → IsValid a
    → IsValid (after_open a src o now).0
after_open-IsValid a src none now v = v
after_open-IsValid a src (some plain) now v = feed_plain-IsValid a src plain now v

-- Whatever datagram arrives, from whomever and at any time, an assembler that is well formed stays
-- so: no message stands twice, the bytes are counted right, for each message and over all, and it
-- holds 1024 messages, 4 MiB over all and 512 KiB of one message at most.
pub feed-IsValid :
    (c : Crates) (a : FragmentAssembler) (src : SocketAddr) (message network_key : List ℕ) (now : ℕ)
    → IsValid a
    → IsValid (feed c a src message network_key now).0
unfolding feed
feed-IsValid c a src message network_key now v =
    after_open-IsValid a src (open_handshake c network_key message) now v

removed_sum :
    (now : ℕ) (m : Entries) (acc : ℕ)
    → acc + total bytes_of m < 2 ^ 63
    → removed_loop now m acc + total bytes_of (Keyed.retain (λ key msg. young now msg) m)
      ≡ acc + total bytes_of m
removed_sum now [] acc h = omega arith
removed_sum now ((k, msg) ∷ rest) acc h =
    ground (arith, removed_sum now rest acc, removed_sum now rest (saturating_add acc msg.bytes))

-- The cleanup of an assembler that is well formed leaves it so: the bytes of the messages that it
-- drops are taken off the sum.
pub cleanup-IsValid : (a : FragmentAssembler) (now : ℕ) → IsValid a → IsValid (cleanup a now)
unfolding cleanup
cleanup-IsValid a now v =
    let kept = Keyed.retain (λ key msg. young now msg) a.pending in
    let balance : removed_loop now a.pending 0 + total bytes_of kept ≡ total bytes_of a.pending =
      omega (arith, removed_sum now a.pending 0 (omega (arith, v.counted, v.small))) in
    record {
      distinct = retain-Distinct (λ key msg. young now msg) a.pending v.distinct;
      each = retain-Each (λ key msg. young now msg) a.pending v.each;
      counted = omega (arith, balance, v.counted);
      small = omega (arith, v.small);
      few = omega (arith, length-retain-le (λ key msg. young now msg) a.pending, v.few);
    }
