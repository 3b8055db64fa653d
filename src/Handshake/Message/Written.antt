-- ===== src/Handshake/Message/Written.antt =====
-- What is written into a handshake is read back from it.
use mathlib.Core.Path.{subst}
use liteway.Common.{ℕ, ◌+◌, ◌≤◌, ◌≡◌, refl, Bool, List, ◌++◌, arith, length, length-append}
use liteway.Crypto.{IsCertText}
use liteway.Net.{text_eqb, text_eqb_iff}
use liteway.Cert.{Cert, HybridVerifyKey, HybridSigningKey}
use liteway.Wire.{kind_handshake_1, kind_handshake_2}
use liteway.Wire.Reader.{vec_u32}
use liteway.Handshake.Result.{ok, ensure, HandshakeError, transcript_mismatch}
use liteway.Handshake.Reader.{bytes, Takes, bytes-Takes, check-Takes, bind-Takes, then-Takes}
use liteway.Handshake.Message.{
  opening, HandshakeDraw, Primitives, signed_1, signed_2, Handshake1Plain, Handshake2Plain,
  plain_message, mlkem_pk_len, mlkem_ct_len, ed25519_sig_len, mldsa_sig_len,
}
use liteway.Handshake.Message.Parse.{
  read_opening, read_cert, read_signed_1, read_signed_2, parse_handshake_1, parse_handshake_2,
  read_handshake_1, read_handshake_2,
}
use liteway.Handshake.Message.Layout.{
  IsHandshakeDraw, IsClose, HandshakeLaws, IsMember, relay_flag_read, read_opening-Takes,
  read_cert-Takes, whole_message, opening-length, plain_message-long, vec_u32-length,
}

module _ (p : Primitives) where
  -- What a first handshake says.
  abbrev pub sent_1 : Cert → Bool → HandshakeDraw → Handshake1Plain
  sent_1 cert relay d = record {
    cert = cert;
    rx_session_id = d.session_id;
    eph_x25519_pk = p.agreement.x25519_public d.eph_x25519;
    eph_mlkem_pk = p.agreement.mlkem_public d.eph_mlkem;
    peer_is_relay = relay;
  }

  read_signed_1-Takes :
      (cert : Cert) (relay : Bool) (now sent : ℕ) (d : HandshakeDraw)
      → HandshakeLaws p
      → IsHandshakeDraw d
      → IsClose now sent
      → IsCertText p.crates cert
      → Takes (read_signed_1 p now) (signed_1 p cert relay sent d) (sent_1 cert relay d)
  unfolding read_signed_1 signed_1
  read_signed_1-Takes cert relay now sent d l v h t =
      subst
        (λ r.
          Takes (read_signed_1 p now) (signed_1 p cert relay sent d)
            (record (sent_1 cert relay d) { peer_is_relay = r }))
        (relay_flag_read relay)
        (bind-Takes (read_opening kind_handshake_1 now) _
          (read_opening-Takes kind_handshake_1 now sent relay d v h)
          (bind-Takes (bytes 32) _ (bytes-Takes 32 _ (l.x25519_public_length d.eph_x25519)) (
            bind-Takes (bytes mlkem_pk_len) _
              (bytes-Takes mlkem_pk_len _ (l.mlkem_public_length d.eph_mlkem))
              (then-Takes (read_cert p) _ (read_cert-Takes p cert t)))))

  pub signed_1-length :
      (cert : Cert) (relay : Bool) (sent : ℕ) (d : HandshakeDraw)
      → HandshakeLaws p
      → IsHandshakeDraw d
      → 32 + 32 + mlkem_pk_len + 4 ≤ length (signed_1 p cert relay sent d)
  unfolding signed_1
  signed_1-length cert relay sent d l v =
      let x = p.agreement.x25519_public d.eph_x25519 in
      let k = p.agreement.mlkem_public d.eph_mlkem in
      let json = vec_u32 (p.crates.cert_to_vec cert) in
      omega (
        arith,
        length-append (opening kind_handshake_1 relay sent d) (x ++ (k ++ json)),
        length-append x (k ++ json),
        length-append k json,
        opening-length p kind_handshake_1 sent relay d v,
        l.x25519_public_length d.eph_x25519,
        l.mlkem_public_length d.eph_mlkem,
        vec_u32-length p (p.crates.cert_to_vec cert),
      )

  -- What a node of the network says in a first handshake is what is read, up to five minutes later or
  -- earlier.
  pub parse_handshake_1-plain_message :
      (ca_vk : HybridVerifyKey) (now sent : ℕ) (cert : Cert) (sk : HybridSigningKey) (relay : Bool)
      (d : HandshakeDraw)
      → HandshakeLaws p
      → IsHandshakeDraw d
      → IsClose now sent
      → IsMember p ca_vk now cert sk
      → parse_handshake_1 p now (plain_message p (signed_1 p cert relay sent d) sk d) ca_vk
        ≡ ok (sent_1 cert relay d)
  unfolding parse_handshake_1 read_handshake_1
  parse_handshake_1-plain_message ca_vk now sent cert sk relay d l v h m =
      rw
        (plain_message-long p ca_vk now (64 + mlkem_pk_len + 4 + ed25519_sig_len + mldsa_sig_len)
          cert sk (signed_1 p cert relay sent d) d m
          (omega (arith, signed_1-length cert relay sent d l v)))
        (whole_message p (read_signed_1 p now) (λ h1. h1.cert) (sent_1 cert relay d) ca_vk now sk
          (signed_1 p cert relay sent d) d (read_signed_1-Takes cert relay now sent d l v h m.json)
          m)

  -- What a second handshake says.
  abbrev pub sent_2 : Cert → Bool → HandshakeDraw → List ℕ → Handshake2Plain
  sent_2 cert relay d mlkem_ct = record {
    cert = cert;
    rx_session_id = d.session_id;
    eph_x25519_pk = p.agreement.x25519_public d.eph_x25519;
    mlkem_ct = mlkem_ct;
    peer_is_relay = relay;
  }

  digest_same : (bs : List ℕ) (e : HandshakeError) → ensure (text_eqb bs bs) e ≡ ok tt
  digest_same bs e = rw ((text_eqb_iff bs bs).1 refl) refl

  read_signed_2-Takes :
      (cert : Cert) (relay : Bool) (now sent : ℕ) (d : HandshakeDraw) (mlkem_ct hs1_msg : List ℕ)
      → HandshakeLaws p
      → IsHandshakeDraw d
      → IsClose now sent
      → IsCertText p.crates cert
      → length mlkem_ct ≡ mlkem_ct_len
      → Takes
          (read_signed_2 p now hs1_msg)
          (signed_2 p cert relay sent d mlkem_ct hs1_msg)
          (sent_2 cert relay d mlkem_ct)
  unfolding read_signed_2 signed_2
  read_signed_2-Takes cert relay now sent d mlkem_ct hs1_msg l v h t k =
      subst
        (λ r.
          Takes (read_signed_2 p now hs1_msg) (signed_2 p cert relay sent d mlkem_ct hs1_msg)
            (record (sent_2 cert relay d mlkem_ct) { peer_is_relay = r }))
        (relay_flag_read relay)
        (bind-Takes (read_opening kind_handshake_2 now) _
          (read_opening-Takes kind_handshake_2 now sent relay d v h)
          (bind-Takes (bytes 32) _ (bytes-Takes 32 _ (l.x25519_public_length d.eph_x25519)) (
            bind-Takes (bytes mlkem_ct_len) _ (bytes-Takes mlkem_ct_len mlkem_ct k) (
              bind-Takes (bytes 32) _ (bytes-Takes 32 _ (l.digest_length hs1_msg)) (
                check-Takes _ (digest_same (p.crates.hash hs1_msg) transcript_mismatch)
                  (then-Takes (read_cert p) _ (read_cert-Takes p cert t)))))))

  pub signed_2-length :
      (cert : Cert) (relay : Bool) (sent : ℕ) (d : HandshakeDraw) (mlkem_ct hs1_msg : List ℕ)
      → HandshakeLaws p
      → IsHandshakeDraw d
      → length mlkem_ct ≡ mlkem_ct_len
      → 32 + 32 + mlkem_ct_len + 32 + 4 ≤ length (signed_2 p cert relay sent d mlkem_ct hs1_msg)
  unfolding signed_2
  signed_2-length cert relay sent d mlkem_ct hs1_msg l v k =
      let x = p.agreement.x25519_public d.eph_x25519 in
      let digest = p.crates.hash hs1_msg in
      let json = vec_u32 (p.crates.cert_to_vec cert) in
      omega (
        arith,
        length-append (opening kind_handshake_2 relay sent d) (x ++ (mlkem_ct ++ (digest ++ json))),
        length-append x (mlkem_ct ++ (digest ++ json)),
        length-append mlkem_ct (digest ++ json),
        length-append digest json,
        opening-length p kind_handshake_2 sent relay d v,
        l.x25519_public_length d.eph_x25519,
        l.digest_length hs1_msg,
        vec_u32-length p (p.crates.cert_to_vec cert),
      )

  -- The same of a second handshake, at the node that sent the first.
  pub parse_handshake_2-plain_message :
      (ca_vk : HybridVerifyKey) (now sent : ℕ) (cert : Cert) (sk : HybridSigningKey) (relay : Bool)
      (d : HandshakeDraw) (mlkem_ct hs1_msg : List ℕ)
      → HandshakeLaws p
      → IsHandshakeDraw d
      → IsClose now sent
      → IsMember p ca_vk now cert sk
      → length mlkem_ct ≡ mlkem_ct_len
      → parse_handshake_2 p now
          (plain_message p (signed_2 p cert relay sent d mlkem_ct hs1_msg) sk d)
          hs1_msg
          ca_vk
        ≡ ok (sent_2 cert relay d mlkem_ct)
  unfolding parse_handshake_2 read_handshake_2
  parse_handshake_2-plain_message ca_vk now sent cert sk relay d mlkem_ct hs1_msg l v h m k =
      rw
        (plain_message-long p ca_vk now (96 + mlkem_ct_len + 4 + ed25519_sig_len + mldsa_sig_len)
          cert sk (signed_2 p cert relay sent d mlkem_ct hs1_msg) d m
          (omega (arith, signed_2-length cert relay sent d mlkem_ct hs1_msg l v k)))
        (whole_message p (read_signed_2 p now hs1_msg) (λ h2. h2.cert)
          (sent_2 cert relay d mlkem_ct) ca_vk now sk
          (signed_2 p cert relay sent d mlkem_ct hs1_msg) d
          (read_signed_2-Takes cert relay now sent d mlkem_ct hs1_msg l v h m.json k) m)
