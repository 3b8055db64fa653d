-- ===== src/Wire/Header.antt =====
-- The masked header on the wire.
use liteway.Common.{
  ℕ, suc, ◌^◌, ◌≤◌, ◌<◌, ◌≡◌, refl, ap, ◌∙◌, true, false, some, List, [], ◌∷◌, ◌++◌, arith, ltb,
  length, take, drop, take_exact, drop_exact, drop_more, All, length-append, ◌>>=◌,
}
use liteway.Common.Bits.{bit_xor_twice}
use liteway.Common.Bytes.{IsByte, from_be-be_bytes}
use liteway.Crypto.{Crates, Laws}
use liteway.Wire.{
  NetworkHeader, DataPacket, encode_header, decode_header, xor_bytes, is_known, deserialize_packet,
  serialize_packet, mask_network_header, unmask_header_bytes, unmask_header, network_header,
  header_mask,
}

-- The fields fit their types and the kind is one of the eleven.
pub record IsWire (h : NetworkHeader) : Type 0 where
  pub known : is_known h.kind ≡ true
  pub kind_byte : h.kind < 256
  pub index_byte : h.frag_index < 256
  pub total_byte : h.frag_total < 256
  pub dst_u32 : h.dst_peer_id < 2 ^ 32
  pub session_u32 : h.session_id < 2 ^ 32

-- A decoded header is the one that was encoded.
pub decode-encode : (h : NetworkHeader) → IsWire h → decode_header (encode_header h) ≡ some h
unfolding decode_header encode_header
decode-encode h w = rw w.known (
    ground (
      arith,
      from_be-be_bytes 4 h.dst_peer_id w.dst_u32,
      from_be-be_bytes 4 h.session_id w.session_u32,
    ))

pub encode-length : (h : NetworkHeader) → length (encode_header h) ≡ 16
unfolding encode_header
encode-length h = refl

encode-IsByte : (h : NetworkHeader) → IsWire h → All IsByte (encode_header h)
unfolding encode_header
encode-IsByte h w = omega arith

pub xor_bytes_twice :
    (plain mask : List ℕ)
    → All IsByte plain
    → All IsByte mask
    → length plain ≤ length mask
    → xor_bytes (xor_bytes plain mask) mask ≡ plain
xor_bytes_twice [] mask p m le = refl
xor_bytes_twice (a ∷ plain) [] p m le = absurd (omega arith)
xor_bytes_twice (a ∷ plain) (b ∷ mask) p m le =
    rw (bit_xor_twice 8 a b p.0 m.0, xor_bytes_twice plain mask p.1 m.1 (omega arith))

pub length-xor_bytes :
    (plain mask : List ℕ)
    → length plain ≤ length mask
    → length (xor_bytes plain mask) ≡ length plain
length-xor_bytes [] mask le = refl
length-xor_bytes (a ∷ plain) [] le = absurd (omega arith)
length-xor_bytes (a ∷ plain) (b ∷ mask) le = ap suc (length-xor_bytes plain mask (omega arith))

mask_length :
    (c : Crates) (l : Laws c) (mask_nonce network_key : List ℕ)
    → length (header_mask c mask_nonce network_key) ≡ 32
mask_length c l mask_nonce network_key = l.hash_length _ mask_nonce

-- Unmasking with the same key and nonce gives back the header that was masked.
pub unmask-mask :
    (c : Crates) (l : Laws c) (h : NetworkHeader) (mask_nonce network_key : List ℕ)
    → IsWire h
    → unmask_header_bytes c mask_nonce (mask_network_header c h mask_nonce network_key) network_key
      ≡ some h
unfolding unmask_header_bytes mask_network_header
unmask-mask c l h mask_nonce network_key w =
    ap decode_header (
      xor_bytes_twice (encode_header h) (header_mask c mask_nonce network_key) (encode-IsByte h w)
        (l.hash_bytes _ mask_nonce)
        (omega (arith, encode-length h, mask_length c l mask_nonce network_key)))
    ∙ decode-encode h w

pub mask_network_header-length :
    (c : Crates) (l : Laws c) (h : NetworkHeader) (mask_nonce network_key : List ℕ)
    → length (mask_network_header c h mask_nonce network_key) ≡ 16
unfolding mask_network_header
mask_network_header-length c l h mask_nonce network_key =
    length-xor_bytes (encode_header h) (header_mask c mask_nonce network_key)
      (omega (arith, encode-length h, mask_length c l mask_nonce network_key))
    ∙ encode-length h

-- `network_header` reads the same header as a packet that is deserialized first.
pub network_header-deserialize :
    (c : Crates) (bytes network_key : List ℕ)
    → network_header c bytes network_key
      ≡ (deserialize_packet bytes >>= λ pkt. unmask_header c pkt network_key)
unfolding network_header deserialize_packet unmask_header
network_header-deserialize c bytes network_key = ground arith

-- What is serialized is deserialized to the same packet.
pub deserialize-serialize :
    (pkt : DataPacket)
    → length pkt.mask_nonce ≡ 8
    → length pkt.masked_header ≡ 16
    → length pkt.nonce ≡ 12
    → 16 ≤ length pkt.ciphertext
    → deserialize_packet (serialize_packet pkt) ≡ some pkt
unfolding deserialize_packet serialize_packet
deserialize-serialize pkt m h n ct =
    let ciphertext = pkt.ciphertext in
    let from_nonce = pkt.nonce ++ ciphertext in
    let from_header = pkt.masked_header ++ from_nonce in
    let all = pkt.mask_nonce ++ from_header in
    let at_header : drop 8 all ≡ from_header = drop_exact 8 pkt.mask_nonce from_header m in
    let at_nonce : drop 24 all ≡ from_nonce =
      drop_more 8 16 all ∙ ap (drop 16) at_header ∙ drop_exact 16 pkt.masked_header from_nonce h in
    let at_text : drop 36 all ≡ ciphertext =
      drop_more 24 12 all ∙ ap (drop 12) at_nonce ∙ drop_exact 12 pkt.nonce ciphertext n in
    let long : ltb (length all) 52 ≡ false = ground (
      arith,
      length-append pkt.mask_nonce from_header,
      length-append pkt.masked_header from_nonce,
      length-append pkt.nonce ciphertext,
    ) in
    rw long (
      ap some (λ i. record {
        mask_nonce = take_exact 8 pkt.mask_nonce from_header m i;
        masked_header = (ap (take 16) at_header ∙ take_exact 16 pkt.masked_header from_nonce h) i;
        nonce = (ap (take 12) at_nonce ∙ take_exact 12 pkt.nonce ciphertext n) i;
        ciphertext = at_text i;
      }))
