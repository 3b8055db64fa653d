-- ===== src/Config/Datagrams.antt =====
-- The size of the datagrams that a node sends.
use liteway.Common.{
  ℕ, ◌+◌, ◌%◌, ◌^◌, ◌≤◌, ◌≡◌, List, [], ◌++◌, arith, length, length-append, Option-cases, inl, inr,
}
use liteway.Common.Bytes.{be_bytes, length-be_bytes}
use liteway.Crypto.{Crates, Laws}
use liteway.Wire.{packet_overhead, serialize_packet, packet_aad, mask_network_header, kind_data}
use liteway.Wire.Reader.{vec_u32}
use liteway.Wire.Seal.{Draw, IsDraw, add_random_padding, packet_key, seal}
use liteway.Wire.Body.{opening, encrypt_data_packet}
use liteway.Wire.Header.{mask_network_header-length}
use liteway.Wire.Delivery.{plain_header}
use liteway.Net.{SocketAddr}
use liteway.Config.{AppConfig, udp_payload_limit, ip_udp_overhead, tunnel_datagram}

-- The payload of a datagram lies between the smallest useful one and the default of 1200 bytes.
pub udp_payload_limit_bounds :
    (c : AppConfig) (listen : SocketAddr)
    → (53 ≤ udp_payload_limit c listen) × (udp_payload_limit c listen ≤ 1200)
unfolding udp_payload_limit
udp_payload_limit_bounds c listen = elim (Option-cases c.interface) [
  | inl e ↦ rw e (omega arith)
  | inr (iface, e) ↦ rw e (omega arith)
]

vec_u32-length : (xs : List ℕ) → length (vec_u32 xs) ≡ 4 + length xs
unfolding vec_u32
vec_u32-length xs = omega (arith, length-append (be_bytes 4 (length xs % 2 ^ 32)) xs)

module _ (c : Crates) (l : Laws c) where
  seal-length :
      (kind dst session : ℕ) (nk sk plaintext : List ℕ) (d : Draw)
      → IsDraw d
      → length (serialize_packet (seal c kind dst session nk sk plaintext d))
        ≡ length plaintext + packet_overhead
  unfolding seal serialize_packet
  seal-length kind dst session nk sk plaintext d v =
      let masked = mask_network_header c (plain_header kind dst session) d.mask_nonce nk in
      let aad = packet_aad (record {
        mask_nonce = d.mask_nonce;
        masked_header = masked;
        nonce = d.nonce;
        ciphertext = [];
      }) in
      let ct = c.aead_encrypt (packet_key c sk) d.nonce plaintext aad in
      omega (
        arith,
        length-append d.mask_nonce (masked ++ (d.nonce ++ ct)),
        length-append masked (d.nonce ++ ct),
        length-append d.nonce ct,
        l.encrypt_length (packet_key c sk) d.nonce plaintext aad,
        mask_network_header-length c l (plain_header kind dst session) d.mask_nonce nk,
        v.mask_nonce_length,
        v.nonce_length,
      )

  -- A full packet of the tunnel makes a datagram 13 bytes longer, and up to 31 bytes of padding more,
  -- than the one whose length is compared with 1500 to warn of an MTU that is too large.
  pub encrypt_data_packet-tunnel_datagram :
      (seq dst session : ℕ) (ip_packet nk sk : List ℕ) (d : Draw) (listen : SocketAddr)
      → IsDraw d
      → length (d.padding (d.pad_byte % 32)) ≡ d.pad_byte % 32
      → length (serialize_packet (encrypt_data_packet c seq dst session ip_packet nk sk d))
          + ip_udp_overhead listen
        ≡ tunnel_datagram (length ip_packet) listen + 13 + d.pad_byte % 32
  unfolding encrypt_data_packet add_random_padding tunnel_datagram
  encrypt_data_packet-tunnel_datagram seq dst session ip_packet nk sk d listen v p =
      let plaintext = opening kind_data seq ++ vec_u32 ip_packet in
      let pad = d.padding (d.pad_byte % 32) in
      omega (
        arith,
        seal-length kind_data dst session nk sk (plaintext ++ pad) d v,
        length-append plaintext pad,
        length-append (opening kind_data seq) (vec_u32 ip_packet),
        vec_u32-length ip_packet,
        length-be_bytes 8 seq,
        p,
      )
