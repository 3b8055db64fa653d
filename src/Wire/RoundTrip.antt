-- ===== src/Wire/RoundTrip.antt =====
-- The reads of `decrypt_packet` undo the writes of `encrypt_*_packet`.
use mathlib.Core.Path.{subst}
use mathlib.Core.List.{append-nil}
use liteway.Common.{
  ℕ, ◌^◌, ◌<◌, ◌≡◌, refl, ap, Bool, true, false, not, List, [], ◌∷◌, ◌++◌, arith, ◌==◌, length,
}
use liteway.Common.Bytes.{be_bytes}
use liteway.Crypto.{Crates, IsIpText, IsAddrText, IsCertText}
use liteway.Net.{IpAddr, SocketAddr}
use liteway.Cert.{Cert}
use liteway.Wire.{
  kind_data, kind_relay_forward, kind_disconnect, kind_lighthouse_query, kind_lighthouse_response,
  kind_lighthouse_not_found, kind_keepalive, kind_keepalive_ack,
}
use liteway.Wire.Reader.{
  lift, Reads, bind-Reads, then-Reads, lift-Reads, return-Reads, read_u8, read_u8-Reads,
  read_u32-Reads, read_u64-Reads, read_vec_u32-Reads, vec_u32, read_vec_u32, read_u64, read_u32,
}
use liteway.Wire.Seal.{Draw, add_random_padding, seal}
use liteway.Wire.Body.{
  PacketBody, data_packet, relay_forward, disconnect, lighthouse_query, lighthouse_response,
  lighthouse_not_found, keepalive, keepalive_ack, byte_of, opening, packet_seq, encrypt_body,
  encrypt_data_packet, encrypt_relay_forward_packet, encrypt_disconnect_packet,
  encrypt_lighthouse_query_packet, encrypt_lighthouse_response_packet,
  encrypt_lighthouse_not_found_packet, encrypt_keepalive_packet, encrypt_keepalive_ack_packet,
}
use liteway.Wire.Parse.{
  read_ip, read_addr, read_cert, read_response, read_relay_forward, read_fields, read_body,
}

module _ (c : Crates) where
  read_ip-Reads : (ip : IpAddr) → IsIpText c ip → Reads (read_ip c) (vec_u32 (c.ip_to_string ip)) ip
  unfolding read_ip
  read_ip-Reads ip h =
      let s = c.ip_to_string ip in
      subst (λ bs. Reads (read_ip c) bs ip) (append-nil (vec_u32 s))
        (bind-Reads read_vec_u32 _ (vec_u32 s) [] s ip (read_vec_u32-Reads s h.short) (
          bind-Reads (lift (c.from_utf8 s)) _ [] [] s ip (lift-Reads _ s h.utf8)
            (lift-Reads _ ip h.parse)))

  read_addr-Reads :
      (addr : SocketAddr)
      → IsAddrText c addr
      → Reads (read_addr c) (vec_u32 (c.addr_to_string addr)) addr
  unfolding read_addr
  read_addr-Reads addr h =
      let s = c.addr_to_string addr in
      subst (λ bs. Reads (read_addr c) bs addr) (append-nil (vec_u32 s))
        (bind-Reads read_vec_u32 _ (vec_u32 s) [] s addr (read_vec_u32-Reads s h.short) (
          bind-Reads (lift (c.from_utf8 s)) _ [] [] s addr (lift-Reads _ s h.utf8)
            (lift-Reads _ addr h.parse)))

  read_cert-Reads :
      (cert : Cert) → IsCertText c cert → Reads (read_cert c) (vec_u32 (c.cert_to_vec cert)) cert
  unfolding read_cert
  read_cert-Reads cert h =
      let s = c.cert_to_vec cert in
      subst (λ bs. Reads (read_cert c) bs cert) (append-nil (vec_u32 s))
        (bind-Reads read_vec_u32 _ (vec_u32 s) [] s cert (read_vec_u32-Reads s h.short)
          (lift-Reads _ cert h.parse))

-- The kind, and the bytes after the sequence number, that a body is sent with.
abbrev pub kind_of : PacketBody → ℕ
kind_of (data_packet seq b) = kind_data
kind_of (relay_forward seq next b) = kind_relay_forward
kind_of (disconnect seq) = kind_disconnect
kind_of (lighthouse_query seq ip) = kind_lighthouse_query
kind_of (lighthouse_response seq ip id addr cert relay) = kind_lighthouse_response
kind_of (lighthouse_not_found seq ip) = kind_lighthouse_not_found
kind_of (keepalive seq token) = kind_keepalive
kind_of (keepalive_ack seq token) = kind_keepalive_ack

abbrev pub Short : List ℕ → Type 0
Short bs = length bs < 2 ^ 32

module _ (c : Crates) where
  abbrev pub fields : PacketBody → List ℕ
  fields (data_packet seq b) = vec_u32 b
  fields (relay_forward seq next b) = be_bytes 4 next ++ vec_u32 b
  fields (disconnect seq) = []
  fields (lighthouse_query seq ip) = vec_u32 (c.ip_to_string ip)
  fields (lighthouse_response seq ip id addr cert relay) =
      vec_u32 (c.ip_to_string ip)
      ++ (be_bytes 4 id
          ++ (vec_u32 (c.addr_to_string addr)
              ++ (vec_u32 (c.cert_to_vec cert) ++ (byte_of relay ∷ []))))
  fields (lighthouse_not_found seq ip) = vec_u32 (c.ip_to_string ip)
  fields (keepalive seq token) = be_bytes 8 token
  fields (keepalive_ack seq token) = be_bytes 8 token

  -- The numbers fit their types, the lengths fit the four bytes that they are sent in, and the text
  -- forms are read back.
  abbrev pub Fits : PacketBody → Type 0
  Fits (data_packet seq b) = Short b
  Fits (relay_forward seq next b) = (next < 2 ^ 32) × Short b
  Fits (disconnect seq) = Unit
  Fits (lighthouse_query seq ip) = IsIpText c ip
  Fits (lighthouse_response seq ip id addr cert relay) =
      IsIpText c ip × (id < 2 ^ 32) × IsAddrText c addr × IsCertText c cert
  Fits (lighthouse_not_found seq ip) = IsIpText c ip
  Fits (keepalive seq token) = token < 2 ^ 64
  Fits (keepalive_ack seq token) = token < 2 ^ 64

  pub encrypt_body-seal :
      (body : PacketBody) (dst session : ℕ) (nk sk : List ℕ) (d : Draw)
      → encrypt_body c body dst session nk sk d
        ≡ seal c
            (kind_of body)
            dst
            session
            nk
            sk
            (add_random_padding (opening (kind_of body) (packet_seq body) ++ fields body) d)
            d
  unfolding encrypt_body packet_seq encrypt_data_packet encrypt_relay_forward_packet
      encrypt_disconnect_packet encrypt_lighthouse_query_packet encrypt_lighthouse_response_packet
      encrypt_lighthouse_not_found_packet encrypt_keepalive_packet encrypt_keepalive_ack_packet
  encrypt_body-seal (data_packet seq b) dst session nk sk d = refl
  encrypt_body-seal body dst session nk sk d = refl

relay_byte : (relay : Bool) → not (byte_of relay == 0) ≡ relay
relay_byte true = refl
relay_byte false = refl

module _ (c : Crates) where
  read_response-Reads :
      (seq : ℕ) (ip : IpAddr) (id : ℕ) (addr : SocketAddr) (cert : Cert) (relay : Bool)
      → Fits c (lighthouse_response seq ip id addr cert relay)
      → Reads
          (read_response c seq)
          (fields c (lighthouse_response seq ip id addr cert relay))
          (lighthouse_response seq ip id addr cert relay)
  unfolding read_response
  read_response-Reads seq ip id addr cert relay (fi, fid, fa, fc) =
      bind-Reads (read_ip c) _ _ _ ip _ (read_ip-Reads c ip fi) (
        bind-Reads read_u32 _ _ _ id _ (read_u32-Reads id fid) (
          bind-Reads (read_addr c) _ _ _ addr _ (read_addr-Reads c addr fa) (
            bind-Reads (read_cert c) _ _ _ cert _ (read_cert-Reads c cert fc) (
              subst (Reads _ (byte_of relay ∷ []))
                (ap (lighthouse_response seq ip id addr cert) (relay_byte relay))
                (then-Reads read_u8 _ _ _ (read_u8-Reads (byte_of relay)))))))

  read_fields-Reads :
      (body : PacketBody)
      → Fits c body
      → Reads (read_fields c (kind_of body) (packet_seq body)) (fields c body) body
  unfolding read_fields packet_seq read_relay_forward
  read_fields-Reads (data_packet seq b) f = then-Reads read_vec_u32 _ _ b (read_vec_u32-Reads b f)
  read_fields-Reads (relay_forward seq next b) f =
      bind-Reads read_u32 _ _ _ next _ (read_u32-Reads next f.0)
        (then-Reads read_vec_u32 _ _ b (read_vec_u32-Reads b f.1))
  read_fields-Reads (disconnect seq) f = return-Reads (disconnect seq)
  read_fields-Reads (lighthouse_query seq ip) f =
      then-Reads (read_ip c) _ _ ip (read_ip-Reads c ip f)
  read_fields-Reads (lighthouse_response seq ip id addr cert relay) f =
      read_response-Reads seq ip id addr cert relay f
  read_fields-Reads (lighthouse_not_found seq ip) f =
      then-Reads (read_ip c) _ _ ip (read_ip-Reads c ip f)
  read_fields-Reads (keepalive seq token) f = then-Reads read_u64 _ _ token (read_u64-Reads token f)
  read_fields-Reads (keepalive_ack seq token) f =
      then-Reads read_u64 _ _ token (read_u64-Reads token f)

  same_kind : (k : ℕ) → (k == k) ≡ true
  same_kind k = ground arith

  pub read_body-Reads :
      (body : PacketBody)
      → packet_seq body < 2 ^ 64
      → Fits c body
      → Reads
          (read_body c (kind_of body))
          (opening (kind_of body) (packet_seq body) ++ fields c body)
          body
  unfolding read_body
  read_body-Reads body h f =
      bind-Reads read_u8 _ (kind_of body ∷ []) _ (kind_of body) _ (read_u8-Reads (kind_of body)) (
        bind-Reads read_u64 _ (be_bytes 8 (packet_seq body)) _ (packet_seq body) _
          (read_u64-Reads (packet_seq body) h)
          (rw (same_kind (kind_of body)) (read_fields-Reads body f)))
