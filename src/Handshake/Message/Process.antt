-- ===== src/Handshake/Message/Process.antt =====
-- `process_handshake_1` and `process_handshake_2`.
use liteway.Common.{ℕ, Bool, List, ◌++◌}
use liteway.Crypto.{Crates}
use liteway.Cert.{Cert, HybridVerifyKey, HybridSigningKey}
use liteway.Pending.{HandshakeInitiate}
use liteway.Handshake.{seal_handshake_with_header, open_handshake}
use liteway.Handshake.Message.{
  Primitives, HandshakeDraw, HandshakeResult, HandshakeResponse, Handshake1Plain, Handshake2Plain,
  derive_session_v2, plain_message, signed_2,
}
use liteway.Handshake.Result.{
  decrypt_failed, invalid_mlkem_key, invalid_mlkem_ciphertext, Result, ok, ◌>>=◌, ◌>>◌, or_err,
  ensure,
}
use liteway.Handshake.Message.Parse.{parse_handshake_1, parse_handshake_2}

module _ (p : Primitives) where
  abbrev c : Crates
  c = p.crates

  -- The rest of `process_handshake_1`, once the message is parsed.
  unfoldable pub respond :
      List ℕ
      → Cert
      → HybridSigningKey
      → List ℕ
      → Bool
      → ℕ
      → HandshakeDraw
      → Handshake1Plain
      → HandshakeResponse
  respond message my_cert my_signing_key network_key relay_flag now d hs1 =
      let (mlkem_ct, mlkem_ss) = p.agreement.encapsulate hs1.eph_mlkem_pk d.encapsulation in
      let x25519_ss = p.agreement.diffie_hellman d.eph_x25519 hs1.eph_x25519_pk in
      let signed = signed_2 p my_cert relay_flag now d mlkem_ct message in
      let msg =
        seal_handshake_with_header c network_key (plain_message p signed my_signing_key d) 0
          hs1.rx_session_id d.packet in
      record {
        msg = msg;
        session_key = derive_session_v2 p (x25519_ss ++ mlkem_ss) message msg;
        peer_cert = hs1.cert;
        peer_is_relay = hs1.peer_is_relay;
        my_rx_session_id = d.session_id;
        peer_rx_session_id = hs1.rx_session_id;
      }

  unfoldable pub process_handshake_1 :
      List ℕ
      → Cert
      → HybridSigningKey
      → List ℕ
      → HybridVerifyKey
      → Bool
      → ℕ
      → HandshakeDraw
      → Result HandshakeResponse
  process_handshake_1 message my_cert my_signing_key network_key ca_vk relay_flag now d = do
    plaintext ← or_err (open_handshake c network_key message) decrypt_failed
    hs1 ← parse_handshake_1 p now plaintext ca_vk
    ensure (p.agreement.is_mlkem_key hs1.eph_mlkem_pk) invalid_mlkem_key
    ok (respond message my_cert my_signing_key network_key relay_flag now d hs1)

  -- The rest of `process_handshake_2`, once the message is parsed.
  unfoldable pub conclude : List ℕ → HandshakeInitiate → Handshake2Plain → HandshakeResult
  conclude message initiate hs2 =
      let x25519_ss = p.agreement.diffie_hellman initiate.eph_x25519_sk hs2.eph_x25519_pk in
      let mlkem_ss = p.agreement.decapsulate initiate.eph_mlkem_sk hs2.mlkem_ct in
      record {
        peer_cert = hs2.cert;
        session_key = derive_session_v2 p (x25519_ss ++ mlkem_ss) initiate.msg message;
        peer_eph_x25519 = hs2.eph_x25519_pk;
        peer_is_relay = hs2.peer_is_relay;
        my_rx_session_id = initiate.my_rx_session_id;
        peer_rx_session_id = hs2.rx_session_id;
      }

  unfoldable pub process_handshake_2 :
      List ℕ → HandshakeInitiate → List ℕ → HybridVerifyKey → ℕ → Result HandshakeResult
  process_handshake_2 message initiate network_key ca_vk now = do
    plaintext ← or_err (open_handshake c network_key message) decrypt_failed
    hs2 ← parse_handshake_2 p now plaintext initiate.msg ca_vk
    ensure (p.agreement.is_mlkem_ciphertext hs2.mlkem_ct) invalid_mlkem_ciphertext
    ok (conclude message initiate hs2)
