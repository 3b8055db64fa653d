-- ===== src/Handshake.antt =====
-- How liteway-core/src/handshake.rs seals a handshake or a fragment of one under the network key, and
-- opens it.
pub mod Result
pub mod Reader
pub mod Moves
pub mod Message
pub mod Opening
use liteway.Common.{
  ℕ, ◌+◌, Bool, true, false, not, ◌&&◌, ◌||◌, Option, none, some, List, [], ◌∷◌, ◌++◌, ltb, leb,
  ◌==◌, if◌then◌else◌, length, drop, ◌>>=◌,
}
use liteway.Common.Bytes.{be_bytes, from_be}
use liteway.Crypto.{Crates}
use liteway.Wire.{
  DataPacket, NetworkHeader, at, slice, kind_handshake_frag, mask_network_header, packet_aad,
  deserialize_packet, unmask_header,
}
use liteway.Wire.Seal.{Draw}

-- `plaintext.len() >= 7 && plaintext[0] == KIND_HANDSHAKE_FRAG`
abbrev pub has_frag_header : List ℕ → Bool
has_frag_header plaintext = leb 7 (length plaintext) && at plaintext 0 == kind_handshake_frag

unfoldable pub handshake_header_and_payload : List ℕ → NetworkHeader × List ℕ
handshake_header_and_payload plaintext =
    if has_frag_header plaintext
    then (
      record {
        kind = kind_handshake_frag;
        frag_index = at plaintext 5;
        frag_total = at plaintext 6;
        dst_peer_id = 0;
        session_id = from_be (slice plaintext 1 4);
      },
      drop 7 plaintext,
    )
    else (
      record {
        kind = at plaintext 0;
        frag_index = 0;
        frag_total = 0;
        dst_peer_id = 0;
        session_id = 0;
      },
      plaintext,
    )

-- A fragment must name a place in its message, and any other message the kind of its header.
unfoldable pub check_opened : NetworkHeader → List ℕ → Option (List ℕ)
check_opened header plaintext =
    if header.kind == kind_handshake_frag
    then (if header.frag_total == 0 || leb header.frag_total header.frag_index
        then none
        else some (
            kind_handshake_frag
            ∷ (be_bytes 4 header.session_id
                ++ (header.frag_index ∷ header.frag_total ∷ plaintext))))
    else if not (header.frag_index == 0) || not (header.frag_total == 0)
    then none
    else elim plaintext [
      | [] ↦ none
      | b ∷ rest ↦ if not (b == header.kind) then none else some (b ∷ rest)
    ]

module _ (c : Crates) where
  unfoldable pub seal_handshake_with_header : List ℕ → List ℕ → ℕ → ℕ → Draw → List ℕ
  seal_handshake_with_header network_key plaintext dst_peer_id session_id d =
      let (plain_header, payload) = handshake_header_and_payload plaintext in
      let header : NetworkHeader = record plain_header {
        dst_peer_id = dst_peer_id;
        session_id = session_id;
      } in
      let masked_header = mask_network_header c header d.mask_nonce network_key in
      let pkt_for_aad : DataPacket = record {
        mask_nonce = d.mask_nonce;
        masked_header = masked_header;
        nonce = d.nonce;
        ciphertext = [];
      } in
      let ct = c.aead_encrypt network_key d.nonce payload (packet_aad pkt_for_aad) in
      d.mask_nonce ++ (masked_header ++ (d.nonce ++ ct))

  unfoldable pub seal_handshake_to_peer : List ℕ → List ℕ → ℕ → Draw → List ℕ
  seal_handshake_to_peer network_key plaintext dst_peer_id d =
      let session_id = if has_frag_header plaintext then from_be (slice plaintext 1 4) else 0 in
      seal_handshake_with_header network_key plaintext dst_peer_id session_id d

  unfoldable pub open_handshake : List ℕ → List ℕ → Option (List ℕ)
  open_handshake network_key message = do
    pkt ← deserialize_packet message
    header ← unmask_header c pkt network_key
    plaintext ← c.aead_decrypt network_key pkt.nonce pkt.ciphertext (packet_aad pkt)
    check_opened header plaintext
