-- ===== src/Wire/Delivery.antt =====
-- A packet that is encrypted, serialized and decrypted carries the body that was put in.
use liteway.Common.{ℕ, ◌%◌, ◌^◌, ◌<◌, ◌≡◌, refl, ap, true, some, List, ◌++◌, arith}
use liteway.Crypto.{Crates, Laws}
use liteway.Wire.{
  NetworkHeader, serialize_packet, deserialize_packet, unmask_header, network_header, packet_aad,
  is_known, mask_network_header,
}
use liteway.Wire.Header.{
  IsWire, unmask-mask, mask_network_header-length, deserialize-serialize,
  network_header-deserialize,
}
use liteway.Wire.Reader.{run_reader-Reads, run_reader}
use liteway.Wire.Seal.{Draw, IsDraw, add_random_padding, seal, packet_key}
use liteway.Wire.Body.{PacketBody, opening, packet_seq, encrypt_body}
use liteway.Wire.Body
use liteway.Wire.Parse.{read_body}
use liteway.Wire.Decrypt.{decrypt_packet, result}
use liteway.Wire.RoundTrip.{kind_of, fields, Fits, encrypt_body-seal, read_body-Reads}

-- The header that a session packet is sent with.
abbrev pub plain_header : ℕ → ℕ → ℕ → NetworkHeader
plain_header kind dst session = record {
  kind = kind;
  frag_index = 0;
  frag_total = 0;
  dst_peer_id = dst;
  session_id = session;
}

kind_of-known : (body : PacketBody) → (is_known (kind_of body) ≡ true) × (kind_of body < 256)
unfolding is_known
kind_of-known (Body.data_packet seq b) = (refl, omega arith)
kind_of-known body = (refl, omega arith)

plain_header-IsWire :
    (body : PacketBody) (dst session : ℕ)
    → dst < 2 ^ 32
    → session < 2 ^ 32
    → IsWire (plain_header (kind_of body) dst session)
plain_header-IsWire body dst session hd hs = record {
  known = (kind_of-known body).0;
  kind_byte = (kind_of-known body).1;
  index_byte = omega arith;
  total_byte = omega arith;
  dst_u32 = hd;
  session_u32 = hs;
}

module _ (c : Crates) (l : Laws c) where
  deserialize-seal :
      (kind dst session : ℕ) (nk sk plaintext : List ℕ) (d : Draw)
      → IsDraw d
      → deserialize_packet (serialize_packet (seal c kind dst session nk sk plaintext d))
        ≡ some (seal c kind dst session nk sk plaintext d)
  unfolding seal
  deserialize-seal kind dst session nk sk plaintext d v =
      deserialize-serialize _ v.mask_nonce_length (mask_network_header-length c l _ d.mask_nonce nk)
        v.nonce_length
        (omega (
          arith,
          l.encrypt_length (packet_key c sk) d.nonce plaintext (
              d.mask_nonce
              ++ mask_network_header c (plain_header kind dst session) d.mask_nonce nk),
        ))

  unmask-seal :
      (kind dst session : ℕ) (nk sk plaintext : List ℕ) (d : Draw)
      → IsWire (plain_header kind dst session)
      → unmask_header c (seal c kind dst session nk sk plaintext d) nk
        ≡ some (plain_header kind dst session)
  unfolding seal unmask_header
  unmask-seal kind dst session nk sk plaintext d w =
      unmask-mask c l (plain_header kind dst session) d.mask_nonce nk w

  decrypt-seal :
      (kind dst session : ℕ) (nk sk plaintext : List ℕ) (d : Draw)
      → let pkt = seal c kind dst session nk sk plaintext d in
        c.aead_decrypt (packet_key c sk) pkt.nonce pkt.ciphertext (packet_aad pkt) ≡ some plaintext
  unfolding seal packet_aad
  decrypt-seal kind dst session nk sk plaintext d = l.decrypt_encrypt _ d.nonce plaintext _

  read-padded :
      (body : PacketBody) (d : Draw)
      → packet_seq body < 2 ^ 64
      → Fits c body
      → result (
          run_reader
            (add_random_padding (opening (kind_of body) (packet_seq body) ++ fields c body) d)
            (read_body c (kind_of body)))
        ≡ some body
  unfolding add_random_padding
  read-padded body d h f =
      let (r, e) =
        run_reader-Reads (read_body c (kind_of body)) _ (d.padding (d.pad_byte % 32)) body
          (read_body-Reads c body h f) in
      ap result e

  -- The receiver who holds the keys gets the header and the body that were sent, for every kind of
  -- body and whatever random bytes were drawn, if the nonces drawn have their lengths, the numbers fit
  -- their types, no field is longer than a four-byte length can say, its text forms are read back, and
  -- the crates' cipher and hash keep their promises.
  pub decrypt-encrypt :
      (body : PacketBody) (dst session : ℕ) (nk sk : List ℕ) (d : Draw)
      → IsDraw d
      → dst < 2 ^ 32
      → session < 2 ^ 32
      → packet_seq body < 2 ^ 64
      → Fits c body
      → decrypt_packet c (serialize_packet (encrypt_body c body dst session nk sk d)) nk sk
        ≡ some (plain_header (kind_of body) dst session, body)
  unfolding decrypt_packet
  decrypt-encrypt body dst session nk sk d v hd hs h f =
      let plaintext =
        add_random_padding (opening (kind_of body) (packet_seq body) ++ fields c body) d in
      let k = kind_of body in
      rw (
        encrypt_body-seal c body dst session nk sk d,
        deserialize-seal k dst session nk sk plaintext d v,
        unmask-seal k dst session nk sk plaintext d (plain_header-IsWire body dst session hd hs),
        decrypt-seal k dst session nk sk plaintext d,
        read-padded body d h f,
      )

  -- Whoever has the network key, a relay without the session key too, reads off the wire the header
  -- that a packet was sent with: its kind, its receiver and its session, if the nonces drawn have
  -- their lengths and the numbers fit.
  pub network_header-encrypt :
      (body : PacketBody) (dst session : ℕ) (nk sk : List ℕ) (d : Draw)
      → IsDraw d
      → dst < 2 ^ 32
      → session < 2 ^ 32
      → network_header c (serialize_packet (encrypt_body c body dst session nk sk d)) nk
        ≡ some (plain_header (kind_of body) dst session)
  network_header-encrypt body dst session nk sk d v hd hs =
      let plaintext =
        add_random_padding (opening (kind_of body) (packet_seq body) ++ fields c body) d in
      let k = kind_of body in
      rw
        (
          network_header-deserialize c (serialize_packet (encrypt_body c body dst session nk sk d))
              nk,
          encrypt_body-seal c body dst session nk sk d,
          deserialize-seal k dst session nk sk plaintext d v,
        )
        (unmask-seal k dst session nk sk plaintext d (plain_header-IsWire body dst session hd hs))
