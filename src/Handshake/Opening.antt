-- ===== src/Handshake/Opening.antt =====
-- A sealed handshake opens to what was sealed.
use liteway.Common.{
  ℕ, ◌+◌, ◌^◌, ◌<◌, ◌≡◌, ◌≢◌, refl, ◌∙◌, true, false, ◌&&◌, ◌==◌, some, List, ◌∷◌, ◌++◌, arith, leb,
  length, length-append,
}
use liteway.Common.Bytes.{be_bytes, from_be-be_bytes}
use liteway.Crypto.{Crates, Laws}
use liteway.Wire.{
  DataPacket, NetworkHeader, kind_handshake_frag, mask_network_header, packet_aad, serialize_packet,
  unmask_header, is_known,
}
use liteway.Wire.Header.{IsWire, unmask-mask, mask_network_header-length, deserialize-serialize}
use liteway.Wire.Seal.{Draw, IsDraw}
use liteway.Handshake.{
  handshake_header_and_payload, check_opened, seal_handshake_with_header, seal_handshake_to_peer,
  open_handshake,
}

-- One fragment of the message `msg_id`, in the clear.
abbrev pub fragment : ℕ → ℕ → ℕ → List ℕ → List ℕ
fragment msg_id index total chunk =
    kind_handshake_frag ∷ (be_bytes 4 msg_id ++ (index ∷ total ∷ chunk))

abbrev fragment_header : ℕ → ℕ → ℕ → ℕ → NetworkHeader
fragment_header dst msg_id index total = record {
  kind = kind_handshake_frag;
  frag_index = index;
  frag_total = total;
  dst_peer_id = dst;
  session_id = msg_id;
}

framed :
    (msg_id index total : ℕ) (chunk : List ℕ)
    → leb 7 (length (fragment msg_id index total chunk)) ≡ true
framed msg_id index total chunk = ground arith

fragment_header-IsWire :
    (dst msg_id index total : ℕ)
    → dst < 2 ^ 32
    → msg_id < 2 ^ 32
    → index < total
    → total < 256
    → IsWire (fragment_header dst msg_id index total)
unfolding is_known
fragment_header-IsWire dst msg_id index total hd hm hi ht = record {
  known = refl;
  kind_byte = omega arith;
  index_byte = omega arith;
  total_byte = ht;
  dst_u32 = hd;
  session_u32 = hm;
}

module _ (c : Crates) (l : Laws c) where
  -- What a header and a payload are sealed to.
  abbrev packet_of : NetworkHeader → List ℕ → List ℕ → Draw → DataPacket
  packet_of header nk payload d =
      let masked = mask_network_header c header d.mask_nonce nk in
      record {
        mask_nonce = d.mask_nonce;
        masked_header = masked;
        nonce = d.nonce;
        ciphertext = c.aead_encrypt nk d.nonce payload (d.mask_nonce ++ masked);
      }

  open-packet_of :
      (header : NetworkHeader) (nk payload : List ℕ) (d : Draw)
      → IsDraw d
      → IsWire header
      → open_handshake c nk (serialize_packet (packet_of header nk payload d))
        ≡ check_opened header payload
  unfolding open_handshake unmask_header packet_aad
  open-packet_of header nk payload d v w =
      let masked = mask_network_header c header d.mask_nonce nk in
      rw (
        deserialize-serialize (packet_of header nk payload d) v.mask_nonce_length
            (mask_network_header-length c l header d.mask_nonce nk) v.nonce_length
            (omega (arith, l.encrypt_length nk d.nonce payload (d.mask_nonce ++ masked))),
        unmask-mask c l header d.mask_nonce nk w,
        l.decrypt_encrypt nk d.nonce payload (d.mask_nonce ++ masked),
      )

  seal-fragment :
      (nk chunk : List ℕ) (dst msg_id index total : ℕ) (d : Draw)
      → msg_id < 2 ^ 32
      → seal_handshake_to_peer c nk (fragment msg_id index total chunk) dst d
        ≡ serialize_packet (packet_of (fragment_header dst msg_id index total) nk chunk d)
  unfolding seal_handshake_to_peer seal_handshake_with_header handshake_header_and_payload
      packet_aad serialize_packet
  seal-fragment nk chunk dst msg_id index total d h =
      rw (framed msg_id index total chunk, from_be-be_bytes 4 msg_id h) refl

  -- A sealed fragment is 52 bytes longer than its chunk.
  pub seal-fragment-length :
      (nk chunk : List ℕ) (dst msg_id index total : ℕ) (d : Draw)
      → IsDraw d
      → msg_id < 2 ^ 32
      → length (seal_handshake_to_peer c nk (fragment msg_id index total chunk) dst d)
        ≡ length chunk + 52
  unfolding serialize_packet
  seal-fragment-length nk chunk dst msg_id index total d v h =
      let header = fragment_header dst msg_id index total in
      let masked = mask_network_header c header d.mask_nonce nk in
      let ct = c.aead_encrypt nk d.nonce chunk (d.mask_nonce ++ masked) in
      rw (seal-fragment nk chunk dst msg_id index total d h) (
        omega (
          arith,
          length-append d.mask_nonce (masked ++ (d.nonce ++ ct)),
          length-append masked (d.nonce ++ ct),
          length-append d.nonce ct,
          l.encrypt_length nk d.nonce chunk (d.mask_nonce ++ masked),
          mask_network_header-length c l header d.mask_nonce nk,
          v.mask_nonce_length,
          v.nonce_length,
        ))

  -- A fragment that is sealed for a peer opens to the same fragment, if its numbers fit their types and
  -- its index is one of its message.
  pub open_handshake-fragment :
      (nk chunk : List ℕ) (dst msg_id index total : ℕ) (d : Draw)
      → IsDraw d
      → dst < 2 ^ 32
      → msg_id < 2 ^ 32
      → index < total
      → total < 256
      → open_handshake c nk (seal_handshake_to_peer c nk (fragment msg_id index total chunk) dst d)
        ≡ some (fragment msg_id index total chunk)
  unfolding check_opened
  open_handshake-fragment nk chunk dst msg_id index total d v hd hm hi ht =
      rw
        (
          seal-fragment nk chunk dst msg_id index total d hm,
          open-packet_of (fragment_header dst msg_id index total) nk chunk d v
              (fragment_header-IsWire dst msg_id index total hd hm hi ht),
        )
        (ground arith)

  whole_header-IsWire :
      (kind dst session_id : ℕ)
      → is_known kind ≡ true
      → kind < 256
      → dst < 2 ^ 32
      → session_id < 2 ^ 32
      → IsWire (record {
        kind = kind;
        frag_index = 0;
        frag_total = 0;
        dst_peer_id = dst;
        session_id = session_id;
      })
  whole_header-IsWire kind dst session_id k b hd hs = record {
    known = k;
    kind_byte = b;
    index_byte = omega arith;
    total_byte = omega arith;
    dst_u32 = hd;
    session_u32 = hs;
  }

  -- A message that is no fragment and has the kind of a packet opens to itself.
  pub open_handshake-whole :
      (nk rest : List ℕ) (kind dst session_id : ℕ) (d : Draw)
      → IsDraw d
      → is_known kind ≡ true
      → kind ≢ kind_handshake_frag
      → kind < 256
      → dst < 2 ^ 32
      → session_id < 2 ^ 32
      → open_handshake c nk (seal_handshake_with_header c nk (kind ∷ rest) dst session_id d)
        ≡ some (kind ∷ rest)
  unfolding seal_handshake_with_header handshake_header_and_payload packet_aad serialize_packet
      check_opened
  open_handshake-whole nk rest kind dst session_id d v k ne b hd hs =
      let other : (kind == kind_handshake_frag) ≡ false = ground arith in
      let whole : (leb 7 (length (kind ∷ rest)) && kind == kind_handshake_frag) ≡ false =
        ground arith in
      let same : (kind == kind) ≡ true = ground arith in
      rw whole (
        open-packet_of
          (record {
            kind = kind;
            frag_index = 0;
            frag_total = 0;
            dst_peer_id = dst;
            session_id = session_id;
          })
          nk (kind ∷ rest) d v (whole_header-IsWire kind dst session_id k b hd hs)
        ∙ rw (other, same) refl)
