-- ===== src/Cert.antt =====
-- The data of liteway-core/src/cert.rs, and `Cert::verify`. A time stamp is its seconds since 1970.
pub mod Validity
mod Tests
use liteway.Common.{
  ℕ, zero, suc, ◌+◌, ◌-◌, ◌≤◌, ◌≡◌, Bool, true, false, not, ◌&&◌, ◌||◌, Option, List, ltb,
  if◌then◌else◌,
}
use liteway.Net.{Text}

-- `i64`; `negsuc n` is -(n + 1).
pub data ℤ : Type 0 where
  pos : ℕ → ℤ
  negsuc : ℕ → ℤ

abbrev pub ltb_ℤ : ℤ → ℤ → Bool
ltb_ℤ (pos a) (pos b) = ltb a b
ltb_ℤ (pos a) (negsuc b) = false
ltb_ℤ (negsuc a) (pos b) = true
ltb_ℤ (negsuc a) (negsuc b) = ltb b a

pub record CertMeta : Type 0 where
  pub name : Text
  pub is_ca : Bool
  pub not_before : ℤ
  pub not_after : ℤ
  pub groups : List Text

pub record KeyMaterial : Type 0 where
  pub ed25519_pk : List ℕ
  pub ml_dsa_pk : List ℕ

pub record NodeAddresses : Type 0 where
  pub ip : Text
  pub subnets : List Text

pub record CertBody : Type 0 where
  pub meta : CertMeta
  pub keys : KeyMaterial
  pub addresses : Option NodeAddresses

-- `CertSignature`, and `HybridSignature` of crypto.rs.
pub record HybridSignature : Type 0 where
  pub ed25519 : List ℕ
  pub ml_dsa : List ℕ

-- `CaVerifyKey`, and `HybridVerifyKey` of crypto.rs.
pub record HybridVerifyKey : Type 0 where
  pub ed25519 : List ℕ
  pub ml_dsa : List ℕ

-- `CaSigningKey`, `NodeSigningSecretKey`, and `HybridSigningKey` of crypto.rs.
pub record HybridSigningKey : Type 0 where
  pub ed25519 : List ℕ
  pub ml_dsa_seed : List ℕ

pub record Cert : Type 0 where
  pub body : CertBody
  pub signature : HybridSignature

-- The signatures of the crates `ed25519-dalek` and `ml-dsa`, and the bytes that `serde_json`
-- writes for a body. `is_ed25519_key` and its kin are the decoders, which may refuse their bytes.
pub record Signatures : Type 0 where
  pub to_bytes : CertBody → List ℕ
  pub is_ed25519_key : List ℕ → Bool
  pub ed25519_verify : List ℕ → List ℕ → List ℕ → Bool
  pub is_ml_dsa_key : List ℕ → Bool
  pub is_ml_dsa_signature : List ℕ → Bool
  pub ml_dsa_verify : List ℕ → List ℕ → List ℕ → Bool
  pub ed25519_sign : List ℕ → List ℕ → List ℕ
  pub ml_dsa_sign : List ℕ → List ℕ → List ℕ

module _ (c : Signatures) where
  open c use {
    to_bytes, is_ed25519_key, ed25519_verify, is_ml_dsa_key, is_ml_dsa_signature, ml_dsa_verify,
    ed25519_sign, ml_dsa_sign,
  }

  unfoldable pub hybrid_sign : HybridSigningKey → List ℕ → HybridSignature
  hybrid_sign sk msg = record {
    ed25519 = ed25519_sign sk.ed25519 msg;
    ml_dsa = ml_dsa_sign sk.ml_dsa_seed msg;
  }

  unfoldable pub hybrid_verify : HybridVerifyKey → List ℕ → HybridSignature → Bool
  hybrid_verify vk msg sig =
      if not (is_ed25519_key vk.ed25519)
      then false
      else if not (ed25519_verify vk.ed25519 msg sig.ed25519)
      then false
      else if not (is_ml_dsa_key vk.ml_dsa)
      then false
      else if not (is_ml_dsa_signature sig.ml_dsa)
      then false
      else ml_dsa_verify vk.ml_dsa msg sig.ml_dsa

  -- `Cert::sign`
  unfoldable pub sign : CertBody → HybridSigningKey → Cert
  sign body key = record { body = body; signature = hybrid_sign key (to_bytes body) }

  -- `Cert::verify` at the time `now`, in seconds since 1970.
  unfoldable pub verify : ℤ → Cert → HybridVerifyKey → Bool
  verify now cert ca_vk =
      let nb = cert.body.meta.not_before in
      let na = cert.body.meta.not_after in
      if cert.body.meta.is_ca
      then false
      else if ltb_ℤ now nb || ltb_ℤ na now
      then false
      else hybrid_verify ca_vk (to_bytes cert.body) cert.signature
