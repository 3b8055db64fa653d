-- ===== src/Wire/Seal.antt =====
-- `seal` of packet.rs, with the random bytes that it draws as an argument.
use liteway.Common.{ℕ, ◌%◌, ◌≡◌, List, [], ◌++◌, length}
use liteway.Crypto.{Crates}
use liteway.Net.{text}
use liteway.Wire.{DataPacket, NetworkHeader, mask_network_header, packet_aad}

-- The bytes that one packet draws from `ThreadRng`: `padding n` is the n bytes asked for.
pub record Draw : Type 0 where
  pub mask_nonce : List ℕ
  pub nonce : List ℕ
  pub pad_byte : ℕ
  pub padding : ℕ → List ℕ

pub record IsDraw (d : Draw) : Type 0 where
  pub mask_nonce_length : length d.mask_nonce ≡ 8
  pub nonce_length : length d.nonce ≡ 12

-- `add_random_padding`
unfoldable pub add_random_padding : List ℕ → Draw → List ℕ
add_random_padding out d = out ++ d.padding (d.pad_byte % 32)

module _ (c : Crates) where
  abbrev pub packet_key : List ℕ → List ℕ
  packet_key session_key = c.derive_key (text "liteway-packet-key-v2") session_key

  unfoldable pub seal : ℕ → ℕ → ℕ → List ℕ → List ℕ → List ℕ → Draw → DataPacket
  seal kind dst_peer_id session_id network_key session_key plaintext d =
      let header : NetworkHeader = record {
        kind = kind;
        frag_index = 0;
        frag_total = 0;
        dst_peer_id = dst_peer_id;
        session_id = session_id;
      } in
      let masked_header = mask_network_header c header d.mask_nonce network_key in
      let pkt_for_aad : DataPacket = record {
        mask_nonce = d.mask_nonce;
        masked_header = masked_header;
        nonce = d.nonce;
        ciphertext = [];
      } in
      record {
        mask_nonce = d.mask_nonce;
        masked_header = masked_header;
        nonce = d.nonce;
        ciphertext =
            c.aead_encrypt (packet_key session_key) d.nonce plaintext (packet_aad pkt_for_aad);
      }
