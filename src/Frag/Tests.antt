-- ===== src/Frag/Tests.antt =====
-- A message in three fragments under a cipher that hides nothing, and the theorems about it.
use liteway.Common.{
  ℕ, ◌-◌, ◌≤◌, ◌≡◌, refl, ◌∙◌, ap, none, some, List, [], ◌∷◌, ◌++◌, arith, length, take,
  take-length-append, length-append, All, map,
}
use liteway.Net.{SocketAddr}
use liteway.Crypto.{Crates, Laws}
use liteway.Wire.Seal.{Draw, IsDraw}
use liteway.Handshake.{open_handshake, seal_handshake_to_peer}
use liteway.Handshake.Opening.{fragment}
use liteway.Frag.{
  FragmentAssembler, FeedResult, complete, buffered, new, feed, feed_plain, feed_chunk,
  admit_message, place_chunk, store_chunk, source_usage, cleanup, sent, send_from,
  send_fragmented_with_id,
}
use liteway.Frag.Counts.{IsValid}
use liteway.Frag.Bounds.{feed-IsValid, cleanup-IsValid}
use liteway.Frag.Sending.{
  AreDraws, send_fragmented_with_id-fits, send_fragmented_with_id-opens, opened, joined,
}

-- The message, and a tag of zeros.
abbrev tag : List ℕ
tag = 0 ∷ 0 ∷ 0 ∷ 0 ∷ 0 ∷ 0 ∷ 0 ∷ 0 ∷ 0 ∷ 0 ∷ 0 ∷ 0 ∷ 0 ∷ 0 ∷ 0 ∷ 0 ∷ []

abbrev plain : Crates
plain = record {
  derive_key = λ context key. key;
  keyed_hash = λ key msg. tag ++ tag;
  hash = λ msg. tag ++ tag;
  aead_encrypt = λ key nonce msg aad. msg ++ tag;
  aead_decrypt = λ key nonce msg aad. some (take (length msg - 16) msg);
  from_utf8 = λ bs. some bs;
  ip_to_string = λ ip. [];
  parse_ip = λ t. none;
  addr_to_string = λ addr. [];
  parse_addr = λ t. none;
  cert_to_vec = λ cert. [];
  cert_from_slice = λ bs. none;
}

untagged : (msg : List ℕ) → take (length (msg ++ tag) - 16) (msg ++ tag) ≡ msg
untagged msg =
    let e : length (msg ++ tag) - 16 ≡ length msg = omega (arith, length-append msg tag) in
    ap (λ n. take n (msg ++ tag)) e ∙ take-length-append msg tag

clear-Laws : Laws plain
clear-Laws = record {
  hash_length = λ key msg. refl;
  hash_bytes = λ key msg. omega arith;
  decrypt_encrypt = λ key nonce msg aad. ap some (untagged msg);
  encrypt_length = λ key nonce msg aad. length-append msg tag;
}

abbrev draw : Draw
draw = record {
  mask_nonce = 1 ∷ 2 ∷ 3 ∷ 4 ∷ 5 ∷ 6 ∷ 7 ∷ 8 ∷ [];
  nonce = 1 ∷ 2 ∷ 3 ∷ 4 ∷ 5 ∷ 6 ∷ 7 ∷ 8 ∷ 9 ∷ 10 ∷ 11 ∷ 12 ∷ [];
  pad_byte = 35;
  padding = λ n. 9 ∷ 9 ∷ 9 ∷ [];
}

draw_lengths : IsDraw draw
draw_lengths = record { mask_nonce_length = refl; nonce_length = refl }

abbrev draws : ℕ → Draw
draws i = draw

all-AreDraws : AreDraws draws
all-AreDraws = record { each = λ i. draw_lengths }

abbrev source : SocketAddr
source = SocketAddr.v4 10 4242

-- Three bytes fit a datagram of 55.
abbrev message : List ℕ
message = 1 ∷ 2 ∷ 3 ∷ 4 ∷ 5 ∷ 6 ∷ 7 ∷ []

abbrev packets : List (List ℕ)
packets =
    seal_handshake_to_peer plain [] (fragment 9 0 3 (1 ∷ 2 ∷ 3 ∷ [])) 7 draw
    ∷ seal_handshake_to_peer plain [] (fragment 9 1 3 (4 ∷ 5 ∷ 6 ∷ [])) 7 draw
    ∷ seal_handshake_to_peer plain [] (fragment 9 2 3 (7 ∷ [])) 7 draw
    ∷ []

sent_in_three : send_fragmented_with_id plain [] message 55 7 9 draws ≡ sent packets
unfolding send_fragmented_with_id send_from
sent_in_three = refl

-- The fragments of a message, out of order and one twice.
abbrev feed_all : FragmentAssembler → List (List ℕ) → FragmentAssembler × FeedResult
feed_all a [] = (a, buffered)
feed_all a (p ∷ []) = feed_plain a source p 0
feed_all a (p ∷ q ∷ rest) = feed_all (feed_plain a source p 0).0 (q ∷ rest)

run_of_feed :
    feed_all new (
      fragment 9 2 3 (7 ∷ [])
      ∷ fragment 9 0 3 (1 ∷ 2 ∷ 3 ∷ [])
      ∷ fragment 9 0 3 (1 ∷ 2 ∷ 3 ∷ [])
      ∷ fragment 9 1 3 (4 ∷ 5 ∷ 6 ∷ [])
      ∷ [])
    ≡ (new, complete message)
unfolding new feed_plain feed_chunk admit_message place_chunk store_chunk source_usage
run_of_feed = refl

send_fragmented_with_id-fits_example : All (λ p. length p ≤ 55) packets × (length packets ≤ 255)
send_fragmented_with_id-fits_example =
    send_fragmented_with_id-fits plain clear-Laws [] message 55 7 9 draws packets all-AreDraws
      (omega arith) sent_in_three

send_fragmented_with_id-opens_example :
    (map (open_handshake plain []) packets ≡ opened 3 message 3 9 0 3)
    × (joined 3 message 0 3 ≡ message)
send_fragmented_with_id-opens_example =
    send_fragmented_with_id-opens plain clear-Laws [] message 55 7 9 draws packets all-AreDraws
      (omega arith) (omega arith) sent_in_three

-- The first fragment is there.
abbrev held : FragmentAssembler
held = record {
  pending =
      (
        (source, 9),
        record { chunks = some (1 ∷ 2 ∷ 3 ∷ []) ∷ none ∷ none ∷ []; started = 0; bytes = 3 },
      )
      ∷ [];
  buffered_bytes = 3;
}

held-IsValid : IsValid held
held-IsValid = record {
  distinct = (refl, tt);
  each = (record { counted = refl; bounded = omega arith }, tt);
  counted = refl;
  small = omega arith;
  few = omega arith;
}

feed-IsValid_example :
    IsValid
      (feed plain held source
        (seal_handshake_to_peer plain [] (fragment 9 1 3 (4 ∷ 5 ∷ 6 ∷ [])) 7 draw)
        []
        0).0
feed-IsValid_example =
    feed-IsValid plain held source
      (seal_handshake_to_peer plain [] (fragment 9 1 3 (4 ∷ 5 ∷ 6 ∷ [])) 7 draw) [] 0 held-IsValid

cleanup-IsValid_example : IsValid (cleanup held 40_000_000_000)
cleanup-IsValid_example = cleanup-IsValid held 40_000_000_000 held-IsValid
