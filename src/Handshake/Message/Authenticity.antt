-- ===== src/Handshake/Message/Authenticity.antt =====
-- What an accepted handshake proves of its sender.
pub mod Signed
use mathlib.Core.Path.{subst, ap₂}
use liteway.Common.{
  ℕ, ◌≤◌, ◌≡◌, refl, sym, ap, ◌∙◌, Bool, true, false, some, List, arith, take, drop,
}
use liteway.Net.{text_eqb, text_eqb_iff}
use liteway.Cert.{pos, Cert, HybridVerifyKey, HybridSigningKey}
use liteway.Pending.{HandshakeInitiate}
use liteway.Wire.{slice, kind_handshake_2}
use liteway.Wire.Reader.{Reader}
use liteway.Handshake.{open_handshake}
use liteway.Handshake.Result.{
  HandshakeError, ok, too_short, or_err, ensure, decrypt_failed, transcript_mismatch,
  invalid_mlkem_key, invalid_mlkem_ciphertext,
}
use liteway.Handshake.Reader.{lift, bytes}
use liteway.Handshake.Message.{
  Primitives, HandshakeDraw, HandshakeResponse, HandshakeResult, Handshake2Plain, mlkem_ct_len,
}
use liteway.Handshake.Message.Parse.{
  read_opening, read_cert, read_signed_2, read_handshake_2, parse_handshake_1, parse_handshake_2,
}
use liteway.Handshake.Message.Process.{process_handshake_1, process_handshake_2, respond, conclude}
use liteway.Handshake.Moves.{
  bind-ok, chain-ok, or_err-ok, otherwise, lift-ok, Grows, bytes-Moves, lift-Moves, return-Moves,
  bind-Grows, Moves-Grows,
}
use liteway.Handshake.Message.Authenticity.Signed.{
  return-ok, bytes-value, EndsWithCert, EndsWithCert-at, read_cert-ok, read_opening-Moves,
  read_cert-Grows, IsSignedBy, whole-ok, parse_handshake_1-ok,
}

module _ (p : Primitives) where
  -- A first handshake that is accepted carries a certificate that the authority has signed and that is
  -- valid now, and the keys of that certificate have signed the message, which was sealed under the
  -- network key, from its first byte to the end of the certificate: all that it says of its sender.
  pub process_handshake_1-authentic :
      (message : List ℕ) (my_cert : Cert) (sk : HybridSigningKey) (network_key : List ℕ)
      (ca_vk : HybridVerifyKey) (relay : Bool) (now : ℕ) (d : HandshakeDraw)
      (response : HandshakeResponse)
      → process_handshake_1 p message my_cert sk network_key ca_vk relay now d ≡ ok response
      → (plaintext : List ℕ) × (n : ℕ) × (open_handshake p.crates network_key message
          ≡ some plaintext)
        × EndsWithCert p 1248 response.peer_cert plaintext n
        × IsSignedBy p now ca_vk response.peer_cert plaintext n
  unfolding process_handshake_1 respond
  process_handshake_1-authentic message my_cert sk network_key ca_vk relay now d response h =
      let (plaintext, e1, h1) =
        chain-ok (or_err (open_handshake p.crates network_key message) decrypt_failed) _ response
          h in
      let (hs1, e2, h2) = chain-ok (parse_handshake_1 p now plaintext ca_vk) _ response h1 in
      let (u, e3, h3) =
        chain-ok (ensure (p.agreement.is_mlkem_key hs1.eph_mlkem_pk) invalid_mlkem_key) _ response
          h2 in
      let (n, ends, signed) = parse_handshake_1-ok p now plaintext ca_vk hs1 e2 in
      let same : respond p message my_cert sk network_key relay now d hs1 ≡ response = cc in
      (
        plaintext,
        n,
        or_err-ok _ decrypt_failed plaintext e1,
        subst (λ x. EndsWithCert p 1248 x plaintext n) (ap (λ x. x.peer_cert) same) ends,
        subst (λ x. IsSignedBy p now ca_vk x plaintext n) (ap (λ x. x.peer_cert) same) signed,
      )

  read_signed_2-Grows : (now : ℕ) (hs1_msg : List ℕ) → Grows (read_signed_2 p now hs1_msg)
  unfolding read_signed_2
  read_signed_2-Grows now hs1_msg =
      bind-Grows _ _ (Moves-Grows 32 _ (read_opening-Moves kind_handshake_2 now)) (λ o.
        bind-Grows _ _ (Moves-Grows 32 _ (bytes-Moves 32)) (λ x.
          bind-Grows _ _ (Moves-Grows mlkem_ct_len _ (bytes-Moves mlkem_ct_len)) (λ ct.
            bind-Grows _ _ (Moves-Grows 32 _ (bytes-Moves 32)) (λ digest.
              bind-Grows _ _ (Moves-Grows 0 _ (lift-Moves _)) (λ _.
                bind-Grows _ _ (read_cert-Grows p) (λ cert. Moves-Grows 0 _ (return-Moves _)))))))

  ensure-ok : (test : Bool) (e : HandshakeError) → ensure test e ≡ ok tt → test ≡ true
  ensure-ok true e h = refl
  ensure-ok false e h = absurd (cc)

  read_signed_2-ok :
      (now : ℕ) (hs1_msg plaintext : List ℕ) (hs2 : Handshake2Plain) (r : Reader)
      → read_signed_2 p now hs1_msg (record { input = plaintext; pos = 0 }) ≡ ok (hs2, r)
      → (slice plaintext 1152 32 ≡ p.crates.hash hs1_msg)
        × (1184 ≤ r.pos)
        × EndsWithCert p 1184 hs2.cert plaintext r.pos
  unfolding read_signed_2
  read_signed_2-ok now hs1_msg plaintext hs2 r h =
      let start : Reader = record { input = plaintext; pos = 0 } in
      let (o, r1, e1, h1) = bind-ok (read_opening kind_handshake_2 now) _ start r hs2 h in
      let (x, r2, e2, h2) = bind-ok (bytes 32) _ r1 r hs2 h1 in
      let (ct, r3, e3, h3) = bind-ok (bytes mlkem_ct_len) _ r2 r hs2 h2 in
      let (digest, r4, e4, h4) = bind-ok (bytes 32) _ r3 r hs2 h3 in
      let (u, r5, e5, h5) =
        bind-ok (lift (ensure (text_eqb digest (p.crates.hash hs1_msg)) transcript_mismatch)) _ r4 r
          hs2 h4 in
      let (checked, _) = lift-ok _ r4 r5 u e5 in
      let (cert, r6, e6, h6) = bind-ok (read_cert p) _ r5 r hs2 h5 in
      let (i1, p1) = (read_opening-Moves kind_handshake_2 now).moves start r1 o e1 in
      let (i2, p2) = (bytes-Moves 32).moves r1 r2 x e2 in
      let (i3, p3) = (bytes-Moves mlkem_ct_len).moves r2 r3 ct e3 in
      let (i4, p4) = (bytes-Moves 32).moves r3 r4 digest e4 in
      let (i5, p5) = (lift-Moves _).moves r4 r5 u e5 in
      let (_, p6) = (read_cert-Grows p).grows r5 r6 cert e6 in
      let (_, p7) = (return-Moves _).moves r6 r hs2 h6 in
      let place : r3.pos ≡ 1152 = omega arith in
      let hashed : digest ≡ p.crates.hash hs1_msg =
        (text_eqb_iff digest (p.crates.hash hs1_msg)).0 (ensure-ok _ transcript_mismatch checked) in
      (
        ap₂ (λ k bs. take 32 (drop k bs)) (sym place) (sym (i3 ∙ i2 ∙ i1))
            ∙ sym (bytes-value 32 r3 r4 digest e4)
            ∙ hashed,
        omega arith,
        EndsWithCert-at p r5.pos 1184 r5.input plaintext r6.pos r.pos cert hs2.cert (omega arith)
            (i5 ∙ i4 ∙ i3 ∙ i2 ∙ i1) (omega arith) (ap (λ x. x.cert) (return-ok _ r6 r hs2 h6))
            (read_cert-ok p r5 r6 cert e6),
      )

  parse_handshake_2-ok :
      (now : ℕ) (plaintext hs1_msg : List ℕ) (ca_vk : HybridVerifyKey) (hs2 : Handshake2Plain)
      → parse_handshake_2 p now plaintext hs1_msg ca_vk ≡ ok hs2
      → (n : ℕ) × (slice plaintext 1152 32 ≡ p.crates.hash hs1_msg)
        × (1184 ≤ n)
        × EndsWithCert p 1184 hs2.cert plaintext n
        × IsSignedBy p now ca_vk hs2.cert plaintext n
  unfolding parse_handshake_2 read_handshake_2
  parse_handshake_2-ok now plaintext hs1_msg ca_vk hs2 h =
      let (r, e, signed) =
        whole-ok p (read_signed_2 p now hs1_msg) (λ x. x.cert) now ca_vk plaintext hs2
          (read_signed_2-Grows now hs1_msg) (otherwise _ too_short _ hs2 h) in
      let (hashed, far, ends) = read_signed_2-ok now hs1_msg plaintext hs2 r e in
      (r.pos, hashed, far, ends, signed)

  -- An answer that is accepted carries a certificate that the authority has signed and that is valid
  -- now, and the keys of that certificate have signed the bytes from the first to the end of the
  -- certificate, among which is the hash of the very message that this node sent.
  pub process_handshake_2-authentic :
      (message : List ℕ) (initiate : HandshakeInitiate) (network_key : List ℕ)
      (ca_vk : HybridVerifyKey) (now : ℕ) (outcome : HandshakeResult)
      → process_handshake_2 p message initiate network_key ca_vk now ≡ ok outcome
      → (plaintext : List ℕ) × (n : ℕ) × (open_handshake p.crates network_key message
          ≡ some plaintext)
        × (slice plaintext 1152 32 ≡ p.crates.hash initiate.msg)
        × (1184 ≤ n)
        × EndsWithCert p 1184 outcome.peer_cert plaintext n
        × IsSignedBy p now ca_vk outcome.peer_cert plaintext n
  unfolding process_handshake_2 conclude
  process_handshake_2-authentic message initiate network_key ca_vk now outcome h =
      let (plaintext, e1, h1) =
        chain-ok (or_err (open_handshake p.crates network_key message) decrypt_failed) _ outcome
          h in
      let (hs2, e2, h2) =
        chain-ok (parse_handshake_2 p now plaintext initiate.msg ca_vk) _ outcome h1 in
      let (u, e3, h3) =
        chain-ok (ensure (p.agreement.is_mlkem_ciphertext hs2.mlkem_ct) invalid_mlkem_ciphertext) _
          outcome h2 in
      let (n, hashed, far, ends, signed) =
        parse_handshake_2-ok now plaintext initiate.msg ca_vk hs2 e2 in
      let same : conclude p message initiate hs2 ≡ outcome = cc in
      (
        plaintext,
        n,
        or_err-ok _ decrypt_failed plaintext e1,
        hashed,
        far,
        subst (λ x. EndsWithCert p 1184 x plaintext n) (ap (λ x. x.peer_cert) same) ends,
        subst (λ x. IsSignedBy p now ca_vk x plaintext n) (ap (λ x. x.peer_cert) same) signed,
      )
