-- ===== src/Handshake/Message/Parse.antt =====
-- `parse_handshake_1`, `parse_handshake_2` and the checks they make.
use liteway.Common.{ℕ, ◌+◌, ◌-◌, ◌^◌, min, Bool, not, ◌||◌, List, ltb, ◌==◌, if◌then◌else◌, length}
use Prim.Native.Nat.{bit_and}
use liteway.Crypto.{Crates}
use liteway.Net.{text_eqb}
use liteway.Cert.{pos, Cert, HybridSignature, HybridVerifyKey, hybrid_verify, verify}
use liteway.Wire.{kind_handshake_1, kind_handshake_2}
use liteway.Wire.Reader.{Reader}
use liteway.Handshake.Message.{
  handshake_version, flag_relay, handshake_max_clock_skew_secs, mlkem_pk_len, mlkem_ct_len,
  ed25519_sig_len, mldsa_sig_len, Primitives, Handshake1Plain, Handshake2Plain,
}
use liteway.Handshake.Result.{
  too_short, wrong_kind, unsupported_version, clock_skew, invalid_cert_json, transcript_mismatch,
  cert_verification_failed, signature_failed, Result, ok, err, or_err, ensure,
}
use liteway.Handshake.Reader.{
  R, ◌>>=◌, ◌>>◌, return, lift, bytes, read_u8, read_u16, read_u32, read_u64, read_vec_u32, taken,
}

-- `validate_timestamp`; `saturating_add` stops at the largest `u64`.
unfoldable pub validate_timestamp : ℕ → ℕ → Result (Unit {0})
validate_timestamp now timestamp =
    let earliest = now - handshake_max_clock_skew_secs in
    let latest = min (now + handshake_max_clock_skew_secs) (2 ^ 64 - 1) in
    if ltb timestamp earliest || ltb latest timestamp then err clock_skew else ok tt

-- `flags & FLAG_RELAY != 0`
abbrev pub has_relay_flag : ℕ → Bool
has_relay_flag flags = not (bit_and flags flag_relay == 0)

-- The same bytes read: the flags and the session id.
unfoldable pub read_opening : ℕ → ℕ → R (ℕ × ℕ)
read_opening expected now = do
  kind ← read_u8
  lift (ensure (kind == expected) wrong_kind)
  version ← read_u8
  lift (ensure (version == handshake_version) unsupported_version)
  flags ← read_u16
  timestamp ← read_u64
  lift (validate_timestamp now timestamp)
  random ← bytes 16
  rx_session_id ← read_u32
  return (flags, rx_session_id)

-- What a read returned, without the reader.
abbrev pub result : {A : Type 0} → Result (A × Reader) → Result A
result (err e) = err e
result (ok (a, r)) = ok a

abbrev pub run_reader : {A : Type 0} → List ℕ → R A → Result A
run_reader input m = result (m (record { input = input; pos = 0 }))

module _ (p : Primitives) where
  abbrev c : Crates
  c = p.crates

  unfoldable pub verify_peer_cert_and_sig :
      ℕ → Cert → HybridVerifyKey → List ℕ → HybridSignature → Result (Unit {0})
  verify_peer_cert_and_sig now cert ca_vk signed sig =
      let vk : HybridVerifyKey = record {
        ed25519 = cert.body.keys.ed25519_pk;
        ml_dsa = cert.body.keys.ml_dsa_pk;
      } in
      if not (verify p.signatures (pos now) cert ca_vk)
      then err cert_verification_failed
      else if not (hybrid_verify p.signatures vk signed sig)
      then err signature_failed
      else ok tt

  -- The certificate at the end of the signed part.
  unfoldable pub read_cert : R Cert
  read_cert = do
    cert_bytes ← read_vec_u32
    lift (or_err (c.cert_from_slice cert_bytes) invalid_cert_json)

  -- The signatures, over what has been read before them.
  unfoldable pub read_signatures : ℕ → Cert → HybridVerifyKey → R (Unit {0})
  read_signatures now cert ca_vk = do
    signed ← taken
    ed25519 ← bytes ed25519_sig_len
    ml_dsa ← bytes mldsa_sig_len
    lift (
        verify_peer_cert_and_sig now cert ca_vk signed
          (record { ed25519 = ed25519; ml_dsa = ml_dsa }))

  unfoldable pub read_signed_1 : ℕ → R Handshake1Plain
  read_signed_1 now = do
    (flags, rx_session_id) ← read_opening kind_handshake_1 now
    eph_x25519_pk ← bytes 32
    eph_mlkem_pk ← bytes mlkem_pk_len
    cert ← read_cert
    return (record {
      cert = cert;
      rx_session_id = rx_session_id;
      eph_x25519_pk = eph_x25519_pk;
      eph_mlkem_pk = eph_mlkem_pk;
      peer_is_relay = has_relay_flag flags;
    })

  unfoldable pub read_handshake_1 : ℕ → HybridVerifyKey → R Handshake1Plain
  read_handshake_1 now ca_vk = do
    hs1 ← read_signed_1 now
    read_signatures now hs1.cert ca_vk
    return hs1

  unfoldable pub parse_handshake_1 : ℕ → List ℕ → HybridVerifyKey → Result Handshake1Plain
  parse_handshake_1 now message ca_vk =
      let signed_len = 1 + 1 + 2 + 8 + 16 + 4 + 32 + mlkem_pk_len in
      if ltb (length message) (signed_len + 4 + ed25519_sig_len + mldsa_sig_len)
      then err too_short
      else run_reader message (read_handshake_1 now ca_vk)

  unfoldable pub read_signed_2 : ℕ → List ℕ → R Handshake2Plain
  read_signed_2 now expected_hs1_msg = do
    (flags, rx_session_id) ← read_opening kind_handshake_2 now
    eph_x25519_pk ← bytes 32
    mlkem_ct ← bytes mlkem_ct_len
    hs1_hash ← bytes 32
    lift (ensure (text_eqb hs1_hash (c.hash expected_hs1_msg)) transcript_mismatch)
    cert ← read_cert
    return (record {
      cert = cert;
      rx_session_id = rx_session_id;
      eph_x25519_pk = eph_x25519_pk;
      mlkem_ct = mlkem_ct;
      peer_is_relay = has_relay_flag flags;
    })

  unfoldable pub read_handshake_2 : ℕ → List ℕ → HybridVerifyKey → R Handshake2Plain
  read_handshake_2 now expected_hs1_msg ca_vk = do
    hs2 ← read_signed_2 now expected_hs1_msg
    read_signatures now hs2.cert ca_vk
    return hs2

  unfoldable pub parse_handshake_2 : ℕ → List ℕ → List ℕ → HybridVerifyKey → Result Handshake2Plain
  parse_handshake_2 now message expected_hs1_msg ca_vk =
      let signed_len = 1 + 1 + 2 + 8 + 16 + 4 + 32 + mlkem_ct_len + 32 in
      if ltb (length message) (signed_len + 4 + ed25519_sig_len + mldsa_sig_len)
      then err too_short
      else run_reader message (read_handshake_2 now expected_hs1_msg ca_vk)
