-- ===== src/Handshake/Message/Layout.antt =====
-- The parts that both messages of a handshake share: how they are written and read.
use mathlib.Core.Path.{subst}
use mathlib.Core.List.{append_assoc, append-nil}
use liteway.Common.{
  ℕ, ◌+◌, ◌%◌, ◌^◌, ◌<◌, ◌≤◌, ◌≡◌, ◌≢◌, refl, ap, ◌∙◌, Bool, true, false, List, [], ◌++◌, arith,
  ltb, ◌==◌, length, length-append, take-length-append,
}
use liteway.Common.Bytes.{be_bytes}
use liteway.Crypto.{Laws, IsCertText}
use liteway.Cert.{pos, Cert, HybridVerifyKey, HybridSigningKey, verify, hybrid_verify}
use liteway.Wire.Reader.{vec_u32}
use liteway.Wire.Seal.{IsDraw, add_random_padding}
use liteway.Handshake.Result.{ok, or_err, ensure, HandshakeError, wrong_kind, invalid_cert_json}
use liteway.Handshake.Reader.{
  R, ◌>>=◌, ◌>>◌, return, lift, bytes, read_u8, read_u16, read_u32, read_u64, read_vec_u32, between,
  Takes, bytes-Takes, lift-Takes, check-Takes, bind-Takes, then-Takes, read_u8-Takes,
  read_u16-Takes, read_u32-Takes, read_u64-Takes, read_vec_u32-Takes, taken,
}
use liteway.Handshake.Message.{
  handshake_version, flags_of, opening, HandshakeDraw, Primitives, with_signature, sign_node,
  plain_message, mlkem_pk_len, mlkem_ct_len, ed25519_sig_len, mldsa_sig_len,
}
use liteway.Handshake.Message.Parse.{
  validate_timestamp, has_relay_flag, read_opening, read_cert, verify_peer_cert_and_sig,
  read_signatures, run_reader,
}

pub record IsHandshakeDraw (d : HandshakeDraw) : Type 0 where
  pub random_length : length d.random ≡ 16
  pub session_u32 : d.session_id < 2 ^ 32
  pub not_zero : d.session_id ≢ 0
  pub packet : IsDraw d.packet

pub flags_fit : (relay : Bool) → flags_of relay < 2 ^ 16
flags_fit true = omega arith
flags_fit false = omega arith

pub relay_flag_read : (relay : Bool) → has_relay_flag (flags_of relay) ≡ relay
relay_flag_read true = refl
relay_flag_read false = refl

-- The reader's clock is at most 300 seconds before or after the writer's.
pub record IsClose (now sent : ℕ) : Type 0 where
  pub not_late : now ≤ sent + 300
  pub not_early : sent ≤ now + 300
  pub fits : sent < 2 ^ 64

pub validate_timestamp-IsClose :
    (now sent : ℕ) → IsClose now sent → validate_timestamp now sent ≡ ok tt
unfolding validate_timestamp
validate_timestamp-IsClose now sent h = ground (arith, h.not_late, h.not_early, h.fits)

pub passes : (k : ℕ) (e : HandshakeError) → ensure (k == k) e ≡ ok tt
passes k e = ground arith

pub read_opening-Takes :
    (kind now sent : ℕ) (relay : Bool) (d : HandshakeDraw)
    → IsHandshakeDraw d
    → IsClose now sent
    → Takes (read_opening kind now) (opening kind relay sent d) (flags_of relay, d.session_id)
unfolding read_opening opening
read_opening-Takes kind now sent relay d v h = bind-Takes read_u8 _ (read_u8-Takes kind) (
    check-Takes _ (passes kind wrong_kind) (
      bind-Takes read_u8 _ (read_u8-Takes handshake_version) (
        check-Takes _ refl (
          bind-Takes read_u16 _ (read_u16-Takes (flags_of relay) (flags_fit relay)) (
            bind-Takes read_u64 _ (read_u64-Takes sent h.fits) (
              check-Takes _ (validate_timestamp-IsClose now sent h) (
                bind-Takes (bytes 16) _ (bytes-Takes 16 d.random v.random_length)
                  (then-Takes read_u32 _ (read_u32-Takes d.session_id v.session_u32)))))))))

-- What the crates promise of the keys and of the hash.
pub record HandshakeLaws (p : Primitives) : Type 0 where
  pub packets : Laws p.crates
  pub digest_length : (msg : List ℕ) → length (p.crates.hash msg) ≡ 32
  pub x25519_public_length : (sk : List ℕ) → length (p.agreement.x25519_public sk) ≡ 32
  pub mlkem_public_length : (sk : List ℕ) → length (p.agreement.mlkem_public sk) ≡ mlkem_pk_len
  pub mlkem_public_key :
      (sk : List ℕ) → p.agreement.is_mlkem_key (p.agreement.mlkem_public sk) ≡ true
  pub same_secret :
      (a b : List ℕ)
      → p.agreement.diffie_hellman a (p.agreement.x25519_public b)
        ≡ p.agreement.diffie_hellman b (p.agreement.x25519_public a)
  pub ciphertext_length :
      (pk random : List ℕ) → length (p.agreement.encapsulate pk random).0 ≡ mlkem_ct_len
  pub ciphertext_form :
      (pk random : List ℕ)
      → p.agreement.is_mlkem_ciphertext (p.agreement.encapsulate pk random).0 ≡ true
  pub decapsulate_encapsulate :
      (sk random : List ℕ)
      → p.agreement.decapsulate sk (p.agreement.encapsulate (p.agreement.mlkem_public sk) random).0
        ≡ (p.agreement.encapsulate (p.agreement.mlkem_public sk) random).1

module _ (p : Primitives) where
  pub read_cert-Takes :
      (cert : Cert)
      → IsCertText p.crates cert
      → Takes (read_cert p) (vec_u32 (p.crates.cert_to_vec cert)) cert
  unfolding read_cert
  read_cert-Takes cert h =
      subst (λ bs. Takes (read_cert p) bs cert) (append-nil _)
        (bind-Takes read_vec_u32 _ (read_vec_u32-Takes _ h.short)
          (lift-Takes _ cert (ap (λ o. or_err o invalid_cert_json) h.parse)))

  abbrev pub verify_key : Cert → HybridVerifyKey
  verify_key cert = record {
    ed25519 = cert.body.keys.ed25519_pk;
    ml_dsa = cert.body.keys.ml_dsa_pk;
  }

  -- A node of the network: the authority has signed its certificate, which is valid now, and the node
  -- signs with the keys of its certificate.
  pub record IsMember (ca_vk : HybridVerifyKey) (now : ℕ) (cert : Cert) (sk : HybridSigningKey)
      : Type 0 where
    pub json : IsCertText p.crates cert
    pub verified : verify p.signatures (pos now) cert ca_vk ≡ true
    pub signs :
        (msg : List ℕ)
        → hybrid_verify p.signatures (verify_key cert) msg (sign_node p sk msg) ≡ true
    pub ed25519_length : (msg : List ℕ) → length (sign_node p sk msg).ed25519 ≡ ed25519_sig_len
    pub ml_dsa_length : (msg : List ℕ) → length (sign_node p sk msg).ml_dsa ≡ mldsa_sig_len

  IsMember-verified :
      (ca_vk : HybridVerifyKey) (now : ℕ) (cert : Cert) (sk : HybridSigningKey) (signed : List ℕ)
      → IsMember ca_vk now cert sk
      → verify_peer_cert_and_sig p now cert ca_vk signed (sign_node p sk signed) ≡ ok tt
  unfolding verify_peer_cert_and_sig
  IsMember-verified ca_vk now cert sk signed m = rw (m.verified, m.signs signed)

  -- `read_signatures`, from the first signature on.
  abbrev both : HybridVerifyKey → ℕ → Cert → List ℕ → R (Unit {0})
  both ca_vk now cert signed = bytes ed25519_sig_len >>= λ ed25519.
      bytes mldsa_sig_len >>= λ ml_dsa. lift (
        verify_peer_cert_and_sig p now cert ca_vk signed
          (record { ed25519 = ed25519; ml_dsa = ml_dsa }))

  both-Takes :
      (ca_vk : HybridVerifyKey) (now : ℕ) (cert : Cert) (sk : HybridSigningKey) (signed : List ℕ)
      → IsMember ca_vk now cert sk
      → let sig = sign_node p sk signed in
        Takes (both ca_vk now cert signed) (sig.ed25519 ++ sig.ml_dsa) tt
  both-Takes ca_vk now cert sk signed m =
      let sig = sign_node p sk signed in
      subst (λ bs. Takes (both ca_vk now cert signed) (sig.ed25519 ++ bs) tt)
        (append-nil sig.ml_dsa)
        (bind-Takes (bytes ed25519_sig_len) _
          (bytes-Takes ed25519_sig_len _ (m.ed25519_length signed))
          (bind-Takes (bytes mldsa_sig_len) _ (bytes-Takes mldsa_sig_len _ (m.ml_dsa_length signed))
            (lift-Takes _ tt (IsMember-verified ca_vk now cert sk signed m))))

  read_signatures-signed :
      (ca_vk : HybridVerifyKey) (now : ℕ) (cert : Cert) (sk : HybridSigningKey)
      (signed pad : List ℕ)
      → IsMember ca_vk now cert sk
      → let sig = sign_node p sk signed in
        read_signatures p now cert ca_vk (between signed ((sig.ed25519 ++ sig.ml_dsa) ++ pad))
        ≡ ok (tt, between (with_signature p signed sig) pad)
  unfolding read_signatures taken
  read_signatures-signed ca_vk now cert sk signed pad m =
      let sig = sign_node p sk signed in
      rw (take-length-append signed ((sig.ed25519 ++ sig.ml_dsa) ++ pad))
        ((both-Takes ca_vk now cert sk signed m).run signed pad)

  -- The whole of a message, once its signed part can be read.
  pub whole_message :
      {A : Type 0} (m : R A) (cert_of : A → Cert) (a : A) (ca_vk : HybridVerifyKey) (now : ℕ)
      (sk : HybridSigningKey) (signed : List ℕ) (d : HandshakeDraw)
      → Takes m signed a
      → IsMember ca_vk now (cert_of a) sk
      → run_reader
          (plain_message p signed sk d)
          (m >>= λ h. (read_signatures p now (cert_of h) ca_vk >> return h))
        ≡ ok a
  unfolding plain_message add_random_padding
  whole_message m cert_of a ca_vk now sk signed d reads member =
      let sig = sign_node p sk signed in
      let pad = d.packet.padding (d.packet.pad_byte % 32) in
      ap (λ all. run_reader all (m >>= λ h. (read_signatures p now (cert_of h) ca_vk >> return h)))
        (append_assoc signed (sig.ed25519 ++ sig.ml_dsa) pad)
      ∙ rw
          (
            reads.run [] ((sig.ed25519 ++ sig.ml_dsa) ++ pad),
            ◌>>=◌,
            read_signatures-signed ca_vk now (cert_of a) sk signed pad member,
          )
          refl

  pub opening-length :
      (kind sent : ℕ) (relay : Bool) (d : HandshakeDraw)
      → IsHandshakeDraw d
      → length (opening kind relay sent d) ≡ 32
  unfolding opening
  opening-length kind sent relay d v =
      ground (arith, v.random_length, length-append d.random (be_bytes 4 d.session_id))

  pub plain_message-long :
      (ca_vk : HybridVerifyKey) (now n : ℕ) (cert : Cert) (sk : HybridSigningKey) (signed : List ℕ)
      (d : HandshakeDraw)
      → IsMember ca_vk now cert sk
      → n ≤ length signed + (ed25519_sig_len + mldsa_sig_len)
      → ltb (length (plain_message p signed sk d)) n ≡ false
  unfolding plain_message add_random_padding
  plain_message-long ca_vk now n cert sk signed d m h =
      let sig = sign_node p sk signed in
      let pad = d.packet.padding (d.packet.pad_byte % 32) in
      ground (
        arith,
        length-append (signed ++ (sig.ed25519 ++ sig.ml_dsa)) pad,
        length-append signed (sig.ed25519 ++ sig.ml_dsa),
        length-append sig.ed25519 sig.ml_dsa,
        m.ed25519_length signed,
        m.ml_dsa_length signed,
      )

  pub vec_u32-length : (xs : List ℕ) → 4 ≤ length (vec_u32 xs)
  unfolding vec_u32
  vec_u32-length xs = omega (arith, length-append (be_bytes 4 (length xs % 2 ^ 32)) xs)
