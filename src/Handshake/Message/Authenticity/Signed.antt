-- ===== src/Handshake/Message/Authenticity/Signed.antt =====
-- What a signed handshake message has been checked for: `verify_peer_cert_and_sig` and the reading of
-- HANDSHAKE_1 of liteway-core/src/handshake.rs.
use mathlib.Core.Path.{subst, ap₂}
use liteway.Common.{ℕ, ◌+◌, ◌≡◌, sym, ap, ◌∙◌, true, some, List, arith, take, drop}
use liteway.Common.Bytes.{from_be}
use liteway.Cert.{pos, Cert, HybridSignature, HybridVerifyKey, hybrid_verify, verify}
use liteway.Wire.{slice, kind_handshake_1}
use liteway.Wire.Reader.{Reader}
use liteway.Handshake.Result.{Result, ok, err, too_short, invalid_cert_json}
use liteway.Handshake.Reader.{
  R, ◌>>=◌, ◌>>◌, return, bytes, read_u8, read_u16, read_u32, read_u64, read_vec_u32, taken,
}
use liteway.Handshake.Message.{
  Primitives, Handshake1Plain, ed25519_sig_len, mldsa_sig_len, mlkem_pk_len,
}
use liteway.Handshake.Message.Parse.{
  read_opening, read_cert, read_signatures, read_signed_1, read_handshake_1, parse_handshake_1,
  run_reader, result, verify_peer_cert_and_sig,
}
use liteway.Handshake.Message.Layout.{verify_key}
use liteway.Handshake.Moves.{
  bind-ok, or_err-ok, otherwise, lift-ok, Moves, Grows, bytes-Moves, lift-Moves, return-Moves,
  bind-Moves, bind-Grows, Moves-Grows, number-Moves,
}

pub read_opening-Moves : (kind now : ℕ) → Moves 32 (read_opening kind now)
unfolding read_opening read_u8 read_u16 read_u32 read_u64
read_opening-Moves kind now = bind-Moves 1 31 _ _ (number-Moves 1 _) (λ k.
    bind-Moves 0 31 _ _ (lift-Moves _) (λ _. bind-Moves 1 30 _ _ (number-Moves 1 _) (λ v.
      bind-Moves 0 30 _ _ (lift-Moves _) (λ _. bind-Moves 2 28 _ _ (number-Moves 2 _) (λ flags.
        bind-Moves 8 20 _ _ (number-Moves 8 _) (λ timestamp.
          bind-Moves 0 20 _ _ (lift-Moves _) (λ _.
            bind-Moves 16 4 _ _ (bytes-Moves 16)
              (λ random. bind-Moves 4 0 _ _ (number-Moves 4 _) (λ id. return-Moves _)))))))))

pub bytes-value :
    (n : ℕ) (r r' : Reader) (bs : List ℕ)
    → bytes n r ≡ ok (bs, r')
    → bs ≡ take n (drop r.pos r.input)
unfolding bytes
bytes-value n r r' bs h = ground arith

pub return-ok : {A : Type 0} (a : A) (r r' : Reader) (b : A) → return a r ≡ ok (b, r') → a ≡ b
return-ok a r r' b h = cc

module _ (p : Primitives) where
  pub read_cert-Grows : Grows (read_cert p)
  unfolding read_cert read_vec_u32 read_u32
  read_cert-Grows =
      bind-Grows _ _
        (bind-Grows _ _ (Moves-Grows 4 _ (number-Moves 4 _))
          (λ len. Moves-Grows len _ (bytes-Moves len)))
        (λ json. Moves-Grows 0 _ (lift-Moves _))

  -- The certificate stands at this place of the message, after its length in four bytes, and the first
  -- `n` bytes of the message are those up to its end.
  pub record EndsWithCert (start : ℕ) (cert : Cert) (plaintext : List ℕ) (n : ℕ) : Type 0 where
    pub size : ℕ
    pub measured : size ≡ from_be (slice plaintext start 4)
    pub parsed : p.crates.cert_from_slice (slice plaintext (start + 4) size) ≡ some cert
    pub up_to : n ≡ start + 4 + size

  pub read_cert-ok :
      (r r' : Reader) (cert : Cert)
      → read_cert p r ≡ ok (cert, r')
      → EndsWithCert r.pos cert r.input r'.pos
  unfolding read_cert read_vec_u32 read_u32 bytes
  read_cert-ok r r' cert h =
      let (text, r1, e1, h1) = bind-ok read_vec_u32 _ r r' cert h in
      let (len, r2, e2, h2) = bind-ok read_u32 _ r r1 text e1 in
      let (four, r3, e3, h3) = bind-ok (bytes 4) _ r r2 len e2 in
      let (parsed, same) = lift-ok _ r1 r' cert h1 in
      let (i3, p3) = (bytes-Moves 4).moves r r3 four e3 in
      let (i2, p2) = (return-Moves _).moves r3 r2 len h3 in
      let (i1, p1) = (bytes-Moves len).moves r2 r1 text h2 in
      let (i0, p0) = (lift-Moves _).moves r1 r' cert h1 in
      let place : r2.pos ≡ r.pos + 4 = omega arith in
      let value : from_be four ≡ len = cc in
      let whole : text ≡ slice r.input (r.pos + 4) len =
        bytes-value len r2 r1 text h2 ∙ ap₂ (λ k bs. take len (drop k bs)) place (i2 ∙ i3) in
      record {
        size = len;
        measured = sym value ∙ ap from_be (bytes-value 4 r r3 four e3);
        parsed =
            ap p.crates.cert_from_slice (sym whole) ∙ or_err-ok _ invalid_cert_json cert parsed;
        up_to = omega arith;
      }

  -- The same, of what has been found to be equal.
  pub EndsWithCert-at :
      (k k' : ℕ) (input input' : List ℕ) (n n' : ℕ) (cert cert' : Cert)
      → k ≡ k'
      → input ≡ input'
      → n ≡ n'
      → cert ≡ cert'
      → EndsWithCert k cert input n
      → EndsWithCert k' cert' input' n'
  EndsWithCert-at k k' input input' n n' cert cert' ek ei en ec h =
      subst (λ x. EndsWithCert k' x input' n') ec
        (subst (λ x. EndsWithCert k' cert input' x) en
          (subst (λ x. EndsWithCert k' cert x n) ei
            (subst (λ x. EndsWithCert x cert input n) ek h)))

  read_signed_1-Grows : (now : ℕ) → Grows (read_signed_1 p now)
  unfolding read_signed_1
  read_signed_1-Grows now =
      bind-Grows _ _ (Moves-Grows 32 _ (read_opening-Moves kind_handshake_1 now)) (λ o.
        bind-Grows _ _ (Moves-Grows 32 _ (bytes-Moves 32)) (λ x.
          bind-Grows _ _ (Moves-Grows mlkem_pk_len _ (bytes-Moves mlkem_pk_len))
            (λ k. bind-Grows _ _ read_cert-Grows (λ cert. Moves-Grows 0 _ (return-Moves _)))))

  -- The authority has signed the certificate, which is valid now, and the key of the certificate has
  -- signed the first `n` bytes of the message.
  pub record IsSignedBy (now : ℕ) (ca_vk : HybridVerifyKey) (cert : Cert) (plaintext : List ℕ)
      (n : ℕ) : Type 0 where
    pub verified : verify p.signatures (pos now) cert ca_vk ≡ true
    pub signature : HybridSignature
    pub signed : hybrid_verify p.signatures (verify_key p cert) (take n plaintext) signature ≡ true

  verify_peer_cert_and_sig-ok :
      (now : ℕ) (cert : Cert) (ca_vk : HybridVerifyKey) (plaintext : List ℕ) (n : ℕ)
      (sig : HybridSignature)
      → verify_peer_cert_and_sig p now cert ca_vk (take n plaintext) sig ≡ ok tt
      → IsSignedBy now ca_vk cert plaintext n
  unfolding verify_peer_cert_and_sig
  verify_peer_cert_and_sig-ok now cert ca_vk plaintext n sig h = record {
    verified = ground arith;
    signature = sig;
    signed = ground arith;
  }

  read_signatures-ok :
      (now : ℕ) (cert : Cert) (ca_vk : HybridVerifyKey) (r r' : Reader)
      → read_signatures p now cert ca_vk r ≡ ok (tt, r')
      → IsSignedBy now ca_vk cert r.input r.pos
  unfolding read_signatures taken
  read_signatures-ok now cert ca_vk r r' h =
      let (ed, r1, _, h1) = bind-ok (bytes ed25519_sig_len) _ r r' tt h in
      let (ml, r2, _, h2) = bind-ok (bytes mldsa_sig_len) _ r1 r' tt h1 in
      let (e, _) = lift-ok _ r2 r' tt h2 in
      verify_peer_cert_and_sig-ok now cert ca_vk r.input r.pos _ e

  result-ok :
      {A : Type 0} (x : Result (A × Reader)) (a : A)
      → result x ≡ ok a
      → (r : Reader) × (x ≡ ok (a, r))
  result-ok (err e) a h = absurd (cc)
  result-ok (ok (b, r)) a h = (r, cc)

  -- A message that is read with its signatures: what its signed part reads as, and that it is signed.
  pub whole-ok :
      {A : Type 0} (m : R A) (cert_of : A → Cert) (now : ℕ) (ca_vk : HybridVerifyKey)
      (plaintext : List ℕ) (a : A)
      → Grows m
      → run_reader plaintext (m >>= λ h. (read_signatures p now (cert_of h) ca_vk >> return h))
        ≡ ok a
      → (r : Reader) × (m (record { input = plaintext; pos = 0 }) ≡ ok (a, r))
        × IsSignedBy now ca_vk (cert_of a) plaintext r.pos
  whole-ok m cert_of now ca_vk plaintext a g h =
      let start : Reader = record { input = plaintext; pos = 0 } in
      let (r', e) = result-ok _ a h in
      let (b, r1, e1, e2) = bind-ok m _ start r' a e in
      let (u, r2, e3, e4) =
        bind-ok (read_signatures p now (cert_of b) ca_vk) (λ _. return b) r1 r' a e2 in
      let same : b ≡ a = cc in
      let (i, _) = g.grows start r1 b e1 in
      let checked : IsSignedBy now ca_vk (cert_of b) r1.input r1.pos =
        read_signatures-ok now (cert_of b) ca_vk r1 r2 e3 in
      (
        r1,
        e1 ∙ ap (λ x. ok (x, r1)) same,
        subst (λ x. IsSignedBy now ca_vk (cert_of x) plaintext r1.pos) same
            (subst (λ x. IsSignedBy now ca_vk (cert_of b) x r1.pos) i checked),
      )

  read_signed_1-ok :
      (now : ℕ) (plaintext : List ℕ) (hs1 : Handshake1Plain) (r : Reader)
      → read_signed_1 p now (record { input = plaintext; pos = 0 }) ≡ ok (hs1, r)
      → EndsWithCert 1248 hs1.cert plaintext r.pos
  unfolding read_signed_1
  read_signed_1-ok now plaintext hs1 r h =
      let start : Reader = record { input = plaintext; pos = 0 } in
      let (o, r1, e1, h1) = bind-ok (read_opening kind_handshake_1 now) _ start r hs1 h in
      let (x, r2, e2, h2) = bind-ok (bytes 32) _ r1 r hs1 h1 in
      let (k, r3, e3, h3) = bind-ok (bytes mlkem_pk_len) _ r2 r hs1 h2 in
      let (cert, r4, e4, h4) = bind-ok (read_cert p) _ r3 r hs1 h3 in
      let (i1, p1) = (read_opening-Moves kind_handshake_1 now).moves start r1 o e1 in
      let (i2, p2) = (bytes-Moves 32).moves r1 r2 x e2 in
      let (i3, p3) = (bytes-Moves mlkem_pk_len).moves r2 r3 k e3 in
      let (_, p4) = (return-Moves _).moves r4 r hs1 h4 in
      let place : r3.pos ≡ 1248 = omega arith in
      let stop : r4.pos ≡ r.pos = omega arith in
      EndsWithCert-at r3.pos 1248 r3.input plaintext r4.pos r.pos cert hs1.cert place (i3 ∙ i2 ∙ i1)
        stop (ap (λ x. x.cert) (return-ok _ r4 r hs1 h4)) (read_cert-ok r3 r4 cert e4)

  pub parse_handshake_1-ok :
      (now : ℕ) (plaintext : List ℕ) (ca_vk : HybridVerifyKey) (hs1 : Handshake1Plain)
      → parse_handshake_1 p now plaintext ca_vk ≡ ok hs1
      → (n : ℕ) × EndsWithCert 1248 hs1.cert plaintext n × IsSignedBy now ca_vk hs1.cert plaintext n
  unfolding parse_handshake_1 read_handshake_1
  parse_handshake_1-ok now plaintext ca_vk hs1 h =
      let (r, e, signed) =
        whole-ok (read_signed_1 p now) (λ x. x.cert) now ca_vk plaintext hs1
          (read_signed_1-Grows now) (otherwise _ too_short _ hs1 h) in
      (r.pos, read_signed_1-ok now plaintext hs1 r e, signed)
