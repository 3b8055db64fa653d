-- ===== src/Handshake/Message/Refusals.antt =====
-- What a handshake is refused for, and with which error.
pub mod Reads
use mathlib.Core.List.{append_assoc}
use liteway.Common.{ℕ, ◌+◌, ◌%◌, ◌≡◌, ◌≢◌, refl, sym, ap, ◌∙◌, Bool, List, ◌++◌, arith, length}
use liteway.Cert.{HybridVerifyKey, HybridSigningKey, hybrid_sign}
use liteway.Pending.{HandshakeInitiate}
use liteway.Wire.{kind_handshake_1, kind_handshake_2, is_known}
use liteway.Wire.Reader.{vec_u32}
use liteway.Wire.Seal.{add_random_padding}
use liteway.Handshake.Result.{HandshakeError, clock_skew, transcript_mismatch, err}
use liteway.Handshake.Reader.{R, bytes, bytes-Takes}
use liteway.Handshake.Message.{
  Primitives, HandshakeDraw, opening, signed_1, signed_2, plain_message, create_handshake_1,
  mlkem_ct_len, mlkem_pk_len, ed25519_sig_len, mldsa_sig_len,
}
use liteway.Handshake.Message.Parse.{
  read_opening, read_signed_1, read_signed_2, read_handshake_1, read_handshake_2, parse_handshake_1,
  parse_handshake_2, run_reader,
}
use liteway.Handshake.Message.Process.{process_handshake_1, process_handshake_2, respond}
use liteway.Handshake.Message.Layout.{
  IsHandshakeDraw, IsClose, HandshakeLaws, IsMember, read_opening-Takes, plain_message-long,
}
use liteway.Handshake.Message.Written.{signed_1-length, signed_2-length}
use liteway.Handshake.Message.Agreement.{
  End, first_of, answer_of, open-plain_message, ciphertext_of,
}
use liteway.Handshake.Message.Refusals.Reads.{
  Fails, first-Fails, next-Fails, check-Fails, last-Fails, run_reader-Fails, IsFar,
  read_opening-Fails, mismatch,
}

module _ (p : Primitives) where
  -- A read that fails at the start of the signed part fails on the whole message.
  whole_message-Fails :
      {A : Type 0} (m : R A) (start more : List ℕ) (sk : HybridSigningKey) (d : HandshakeDraw)
      (e : HandshakeError)
      → Fails m start e
      → run_reader (plain_message p (start ++ more) sk d) m ≡ err e
  unfolding plain_message add_random_padding
  whole_message-Fails m start more sk d e h =
      let sig = hybrid_sign p.signatures sk (start ++ more) in
      let sigs = sig.ed25519 ++ sig.ml_dsa in
      let pad = d.packet.padding (d.packet.pad_byte % 32) in
      ap (λ all. run_reader all m)
        (append_assoc (start ++ more) sigs pad ∙ append_assoc start more (sigs ++ pad))
      ∙ run_reader-Fails m (more ++ (sigs ++ pad)) h

  read_handshake_1-Fails :
      (ca_vk : HybridVerifyKey) (now sent : ℕ) (relay : Bool) (d : HandshakeDraw)
      → IsFar now sent
      → Fails (read_handshake_1 p now ca_vk) (opening kind_handshake_1 relay sent d) clock_skew
  unfolding read_handshake_1 read_signed_1
  read_handshake_1-Fails ca_vk now sent relay d h = first-Fails (read_signed_1 p now) _ (
      first-Fails (read_opening kind_handshake_1 now) _
        (read_opening-Fails kind_handshake_1 now sent relay d h))

  -- A first handshake of a node of the network that says a time more than five minutes before or after
  -- the receiver's is refused as one with a wrong clock.
  pub process_handshake_1-first_of_far :
      (a b : End) (network_key : List ℕ) (ca_vk : HybridVerifyKey) (sent now : ℕ)
      → HandshakeLaws p
      → IsHandshakeDraw a.draw
      → IsFar now sent
      → IsMember p ca_vk now a.cert a.signing_key
      → process_handshake_1 p
          (first_of p a network_key sent).msg
          b.cert
          b.signing_key
          network_key
          ca_vk
          b.is_relay
          now
          b.draw
        ≡ err clock_skew
  unfolding process_handshake_1 create_handshake_1 signed_1 opening is_known parse_handshake_1
  process_handshake_1-first_of_far a b network_key ca_vk sent now l v h m =
      rw
        (
          open-plain_message p kind_handshake_1 _ network_key a.signing_key a.draw.session_id a.draw
              l v refl (λ e. omega arith) (omega arith) v.session_u32,
          plain_message-long p ca_vk now (64 + mlkem_pk_len + 4 + ed25519_sig_len + mldsa_sig_len)
              a.cert a.signing_key (signed_1 p a.cert a.is_relay sent a.draw) a.draw m
              (omega (arith, signed_1-length p a.cert a.is_relay sent a.draw l v)),
          whole_message-Fails (read_handshake_1 p now ca_vk)
              (opening kind_handshake_1 a.is_relay sent a.draw) _ a.signing_key a.draw clock_skew
              (read_handshake_1-Fails ca_vk now sent a.is_relay a.draw h),
        )
        refl

  -- The signed part of an answer, up to the hash of the message that it answers.
  abbrev start_2 : End → HandshakeDraw → List ℕ → ℕ → List ℕ → List ℕ
  start_2 b d mlkem_ct answered hs1_msg =
      opening kind_handshake_2 b.is_relay answered d
      ++ (p.agreement.x25519_public d.eph_x25519 ++ (mlkem_ct ++ p.crates.hash hs1_msg))

  read_handshake_2-Fails :
      (b : End) (ca_vk : HybridVerifyKey) (now answered : ℕ) (mlkem_ct hs1_msg other_msg : List ℕ)
      → HandshakeLaws p
      → IsHandshakeDraw b.draw
      → IsClose now answered
      → length mlkem_ct ≡ mlkem_ct_len
      → p.crates.hash hs1_msg ≢ p.crates.hash other_msg
      → Fails
          (read_handshake_2 p now other_msg ca_vk)
          (start_2 b b.draw mlkem_ct answered hs1_msg)
          transcript_mismatch
  unfolding read_handshake_2 read_signed_2
  read_handshake_2-Fails b ca_vk now answered mlkem_ct hs1_msg other_msg l v h k ne =
      first-Fails (read_signed_2 p now other_msg) _ (
        next-Fails (read_opening kind_handshake_2 now) _
          (read_opening-Takes kind_handshake_2 now answered b.is_relay b.draw v h)
          (next-Fails (bytes 32) _ (bytes-Takes 32 _ (l.x25519_public_length b.draw.eph_x25519)) (
            next-Fails (bytes mlkem_ct_len) _ (bytes-Takes mlkem_ct_len mlkem_ct k) (
              last-Fails (bytes 32) _ (bytes-Takes 32 _ (l.digest_length hs1_msg))
                (check-Fails _ (mismatch (p.crates.hash hs1_msg) (p.crates.hash other_msg) ne))))))

  regroup :
      (b : End) (mlkem_ct hs1_msg : List ℕ) (answered : ℕ)
      → signed_2 p b.cert b.is_relay answered b.draw mlkem_ct hs1_msg
        ≡ start_2 b b.draw mlkem_ct answered hs1_msg ++ vec_u32 (p.crates.cert_to_vec b.cert)
  unfolding signed_2
  regroup b mlkem_ct hs1_msg answered =
      let x = p.agreement.x25519_public b.draw.eph_x25519 in
      let digest = p.crates.hash hs1_msg in
      let json = vec_u32 (p.crates.cert_to_vec b.cert) in
      let start = opening kind_handshake_2 b.is_relay answered b.draw in
      ap (λ r. start ++ (x ++ r)) (sym (append_assoc mlkem_ct digest json))
      ∙ ap (λ r. start ++ r) (sym (append_assoc x (mlkem_ct ++ digest) json))
      ∙ sym (append_assoc start (x ++ (mlkem_ct ++ digest)) json)

  -- An answer to one first message is refused where another was sent, if the hashes of the two messages
  -- differ: with the error of a wrong transcript, however valid the answer is by itself.
  pub process_handshake_2-other_answer :
      (a b : End) (initiate : HandshakeInitiate) (network_key : List ℕ) (ca_vk : HybridVerifyKey)
      (sent answered now : ℕ)
      → HandshakeLaws p
      → IsHandshakeDraw a.draw
      → IsHandshakeDraw b.draw
      → IsClose now answered
      → IsMember p ca_vk now b.cert b.signing_key
      → p.crates.hash (first_of p a network_key sent).msg ≢ p.crates.hash initiate.msg
      → process_handshake_2 p
          (answer_of p a b network_key sent answered).msg
          initiate
          network_key
          ca_vk
          now
        ≡ err transcript_mismatch
  unfolding process_handshake_2 respond signed_2 opening is_known parse_handshake_2
  process_handshake_2-other_answer a b initiate network_key ca_vk sent answered now l v w h m ne =
      let msg = (first_of p a network_key sent).msg in
      let ct = ciphertext_of p a b in
      let enough : length ct ≡ mlkem_ct_len = l.ciphertext_length _ b.draw.encapsulation in
      let json = vec_u32 (p.crates.cert_to_vec b.cert) in
      let signed : signed_2 p b.cert b.is_relay answered b.draw ct msg
          ≡ start_2 b b.draw ct answered msg ++ json =
        regroup b ct msg answered in
      rw
        (
          open-plain_message p kind_handshake_2 _ network_key b.signing_key a.draw.session_id b.draw
              l w refl (λ e. omega arith) (omega arith) v.session_u32,
          plain_message-long p ca_vk now (96 + mlkem_ct_len + 4 + ed25519_sig_len + mldsa_sig_len)
              b.cert b.signing_key (signed_2 p b.cert b.is_relay answered b.draw ct msg) b.draw m
              (omega
                (arith, signed_2-length p b.cert b.is_relay answered b.draw ct msg l w enough)),
          signed,
          whole_message-Fails (read_handshake_2 p now initiate.msg ca_vk)
              (start_2 b b.draw ct answered msg) json b.signing_key b.draw transcript_mismatch
              (read_handshake_2-Fails b ca_vk now answered ct msg initiate.msg l w h enough ne),
        )
        refl
