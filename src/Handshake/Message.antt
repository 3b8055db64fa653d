-- ===== src/Handshake/Message.antt =====
-- The two messages of a handshake: `create_handshake_1`, `process_handshake_1`,
-- `process_handshake_2` and what they call in liteway-core/src/handshake.rs. Random bytes and the
-- time are arguments.
pub mod Parse
pub mod Process
pub mod Layout
pub mod Written
pub mod Agreement
pub mod Refusals
pub mod Authenticity
pub mod Sample
mod Tests
use liteway.Common.{
  ℕ, ◌+◌, ◌-◌, ◌%◌, ◌^◌, ◌≡◌, ◌≢◌, ◌<◌, min, Bool, true, false, not, ◌||◌, List, [], ◌∷◌, ◌++◌, ltb,
  ◌==◌, if◌then◌else◌, length, Option,
}
use Prim.Native.Nat.{bit_and}
use liteway.Common.Bytes.{be_bytes}
use liteway.Crypto.{Crates}
use liteway.Net.{text, text_eqb}
use liteway.Cert.{
  pos, Cert, HybridSignature, HybridVerifyKey, HybridSigningKey, Signatures, hybrid_sign,
  hybrid_verify, verify,
}
use liteway.Pending.{HandshakeInitiate}
use liteway.Wire.{NetworkHeader, kind_handshake_1, kind_handshake_2, network_header}
use liteway.Wire.Reader.{Reader, vec_u32}
use liteway.Wire.Seal.{Draw, add_random_padding}
use liteway.Handshake.{seal_handshake_with_header, open_handshake}

-- `HANDSHAKE_VERSION`, `FLAG_RELAY` and `HANDSHAKE_MAX_CLOCK_SKEW_SECS`
abbrev pub handshake_version : ℕ
handshake_version = 2

abbrev pub flag_relay : ℕ
flag_relay = 1

abbrev pub handshake_max_clock_skew_secs : ℕ
handshake_max_clock_skew_secs = 300

-- `MLKEM_PK_LEN`, `MLKEM_CT_LEN`, `ED25519_SIG_LEN` and `MLDSA_SIG_LEN` of crypto.rs.
abbrev pub mlkem_pk_len : ℕ
mlkem_pk_len = 1184

abbrev pub mlkem_ct_len : ℕ
mlkem_ct_len = 1088

abbrev pub ed25519_sig_len : ℕ
ed25519_sig_len = 64

abbrev pub mldsa_sig_len : ℕ
mldsa_sig_len = 3309

-- The crates `x25519-dalek` and `ml-kem`: public keys of secret keys, the agreement, and the
-- encapsulation under a public key with random bytes, as a ciphertext and a secret.
pub record KeyAgreement : Type 0 where
  pub x25519_public : List ℕ → List ℕ
  pub diffie_hellman : List ℕ → List ℕ → List ℕ
  pub mlkem_public : List ℕ → List ℕ
  pub is_mlkem_key : List ℕ → Bool
  pub encapsulate : List ℕ → List ℕ → List ℕ × List ℕ
  pub is_mlkem_ciphertext : List ℕ → Bool
  pub decapsulate : List ℕ → List ℕ → List ℕ

pub record Primitives : Type 0 where
  pub crates : Crates
  pub signatures : Signatures
  pub agreement : KeyAgreement

-- What one handshake draws. The loop of `random_session_id` ends with an id that is not 0.
pub record HandshakeDraw : Type 0 where
  pub eph_x25519 : List ℕ
  pub eph_mlkem : List ℕ
  pub random : List ℕ
  pub session_id : ℕ
  pub encapsulation : List ℕ
  pub packet : Draw

pub record HandshakeResult : Type 0 where
  pub peer_cert : Cert
  pub session_key : List ℕ
  pub peer_eph_x25519 : List ℕ
  pub peer_is_relay : Bool
  pub my_rx_session_id : ℕ
  pub peer_rx_session_id : ℕ

pub record HandshakeResponse : Type 0 where
  pub msg : List ℕ
  pub session_key : List ℕ
  pub peer_cert : Cert
  pub peer_is_relay : Bool
  pub my_rx_session_id : ℕ
  pub peer_rx_session_id : ℕ

pub record Handshake1Plain : Type 0 where
  pub cert : Cert
  pub rx_session_id : ℕ
  pub eph_x25519_pk : List ℕ
  pub eph_mlkem_pk : List ℕ
  pub peer_is_relay : Bool

pub record Handshake2Plain : Type 0 where
  pub cert : Cert
  pub rx_session_id : ℕ
  pub eph_x25519_pk : List ℕ
  pub mlkem_ct : List ℕ
  pub peer_is_relay : Bool

abbrev pub flags_of : Bool → ℕ
flags_of relay_flag = if relay_flag then flag_relay else 0

-- What both messages start with, up to the session id.
unfoldable pub opening : ℕ → Bool → ℕ → HandshakeDraw → List ℕ
opening kind relay_flag now d =
    (kind ∷ [])
    ++ ((handshake_version ∷ [])
        ++ (be_bytes 2 (flags_of relay_flag)
            ++ (be_bytes 8 now ++ (d.random ++ be_bytes 4 d.session_id))))

module _ (p : Primitives) where
  abbrev c : Crates
  c = p.crates

  -- `sign_node`; the two signatures as they follow the message.
  abbrev pub sign_node : HybridSigningKey → List ℕ → HybridSignature
  sign_node sk msg = hybrid_sign p.signatures sk msg

  abbrev pub with_signature : List ℕ → HybridSignature → List ℕ
  with_signature signed sig = signed ++ (sig.ed25519 ++ sig.ml_dsa)

  unfoldable pub derive_session_v2 : List ℕ → List ℕ → List ℕ → List ℕ
  derive_session_v2 hybrid_ss hs1_msg hs2_msg =
      c.derive_key (text "liteway-session-v2") (hybrid_ss ++ (c.hash hs1_msg ++ c.hash hs2_msg))

  -- The signed part of a first handshake.
  unfoldable pub signed_1 : Cert → Bool → ℕ → HandshakeDraw → List ℕ
  signed_1 my_cert relay_flag now d =
      opening kind_handshake_1 relay_flag now d
      ++ (p.agreement.x25519_public d.eph_x25519
          ++ (p.agreement.mlkem_public d.eph_mlkem ++ vec_u32 (c.cert_to_vec my_cert)))

  -- The plaintext that is sealed: signed, with its signatures and the padding.
  unfoldable pub plain_message : List ℕ → HybridSigningKey → HandshakeDraw → List ℕ
  plain_message signed sk d =
      add_random_padding (with_signature signed (sign_node sk signed)) d.packet

  unfoldable pub create_handshake_1 :
      Cert → HybridSigningKey → List ℕ → Bool → ℕ → HandshakeDraw → HandshakeInitiate
  create_handshake_1 my_cert my_signing_key network_key relay_flag now d = record {
    msg =
        seal_handshake_with_header c network_key
          (plain_message (signed_1 my_cert relay_flag now d) my_signing_key d) 0 d.session_id
          d.packet;
    eph_x25519_sk = d.eph_x25519;
    eph_mlkem_sk = d.eph_mlkem;
    my_rx_session_id = d.session_id;
  }

  unfoldable pub handshake_kind : List ℕ → List ℕ → Option ℕ
  handshake_kind message network_key = kind_of (network_header c message network_key)
    where
      kind_of : Option NetworkHeader → Option ℕ
      kind_of Option.none = Option.none
      kind_of (Option.some header) = Option.some header.kind

  -- The signed part of a second handshake, which answers the message `hs1_msg`.
  unfoldable pub signed_2 : Cert → Bool → ℕ → HandshakeDraw → List ℕ → List ℕ → List ℕ
  signed_2 my_cert relay_flag now d mlkem_ct hs1_msg =
      opening kind_handshake_2 relay_flag now d
      ++ (p.agreement.x25519_public d.eph_x25519
          ++ (mlkem_ct ++ (c.hash hs1_msg ++ vec_u32 (c.cert_to_vec my_cert))))
