-- ===== src/Cert/Validity.antt =====
-- Which certificates `Cert::verify` accepts.
use liteway.Common.{ℕ, ◌≤◌, ◌≡◌, refl, ◌↔◌, true, false, List, arith}
use liteway.Cert.{
  ℤ, pos, negsuc, ltb_ℤ, Cert, CertBody, HybridSignature, HybridVerifyKey, HybridSigningKey,
  Signatures, hybrid_sign, hybrid_verify, sign, verify,
}

-- The order of the time stamps.
infix 50 ◌≤ℤ◌
abbrev pub ◌≤ℤ◌ : ℤ → ℤ → Type 0
pos a ≤ℤ pos b = a ≤ b
pos a ≤ℤ negsuc b = ⊥
negsuc a ≤ℤ pos b = Unit
negsuc a ≤ℤ negsuc b = b ≤ a

not_before : (a b : ℤ) → (ltb_ℤ a b ≡ false) ↔ (b ≤ℤ a)
not_before (pos a) (pos b) = ground arith
not_before (pos a) (negsuc b) = (λ _. tt, λ _. refl)
not_before (negsuc a) (pos b) = (λ h. cc, λ h. absurd h)
not_before (negsuc a) (negsuc b) = ground arith

-- Both halves of a hybrid signature hold, and each key and signature decodes.
pub record BothSigned (c : Signatures) (vk : HybridVerifyKey) (msg : List ℕ) (sig : HybridSignature)
    : Type 0 where
  pub ed25519_key : c.is_ed25519_key vk.ed25519 ≡ true
  pub ed25519_holds : c.ed25519_verify vk.ed25519 msg sig.ed25519 ≡ true
  pub ml_dsa_key : c.is_ml_dsa_key vk.ml_dsa ≡ true
  pub ml_dsa_signature : c.is_ml_dsa_signature sig.ml_dsa ≡ true
  pub ml_dsa_holds : c.ml_dsa_verify vk.ml_dsa msg sig.ml_dsa ≡ true

-- The verify key is the one of the signing key: what is signed with the one verifies with the other.
pub record IsKeyPair (c : Signatures) (sk : HybridSigningKey) (vk : HybridVerifyKey) : Type 0 where
  pub ed25519_key : c.is_ed25519_key vk.ed25519 ≡ true
  pub ed25519_sound :
      (msg : List ℕ) → c.ed25519_verify vk.ed25519 msg (c.ed25519_sign sk.ed25519 msg) ≡ true
  pub ml_dsa_key : c.is_ml_dsa_key vk.ml_dsa ≡ true
  pub ml_dsa_signature :
      (msg : List ℕ) → c.is_ml_dsa_signature (c.ml_dsa_sign sk.ml_dsa_seed msg) ≡ true
  pub ml_dsa_sound :
      (msg : List ℕ) → c.ml_dsa_verify vk.ml_dsa msg (c.ml_dsa_sign sk.ml_dsa_seed msg) ≡ true

module _ (c : Signatures) where
  hybrid_verify_iff :
      (vk : HybridVerifyKey) (msg : List ℕ) (sig : HybridSignature)
      → (hybrid_verify c vk msg sig ≡ true) ↔ BothSigned c vk msg sig
  unfolding hybrid_verify
  hybrid_verify_iff vk msg sig = (
    λ h. record {
      ed25519_key = ground arith;
      ed25519_holds = ground arith;
      ml_dsa_key = ground arith;
      ml_dsa_signature = ground arith;
      ml_dsa_holds = ground arith;
    },
    λ b. rw (b.ed25519_key, b.ed25519_holds, b.ml_dsa_key, b.ml_dsa_signature) b.ml_dsa_holds,
  )

  -- A certificate is accepted exactly when it is no CA's, the time lies in its period, both ends
  -- included, and the CA's key accepts both signatures over its body.
  pub verify_iff :
      (now : ℤ) (cert : Cert) (vk : HybridVerifyKey)
      → (verify c now cert vk ≡ true) ↔ (
          (cert.body.meta.is_ca ≡ false)
          × (cert.body.meta.not_before ≤ℤ now)
          × (now ≤ℤ cert.body.meta.not_after)
          × BothSigned c vk (c.to_bytes cert.body) cert.signature)
  unfolding verify
  verify_iff now cert vk = ground (
    arith,
    not_before now cert.body.meta.not_before,
    not_before cert.body.meta.not_after now,
    hybrid_verify_iff vk (c.to_bytes cert.body) cert.signature,
  )

  sign-BothSigned :
      (body : CertBody) (sk : HybridSigningKey) (vk : HybridVerifyKey)
      → IsKeyPair c sk vk
      → BothSigned c vk (c.to_bytes (sign c body sk).body) (sign c body sk).signature
  unfolding sign hybrid_sign
  sign-BothSigned body sk vk k = record {
    ed25519_key = k.ed25519_key;
    ed25519_holds = k.ed25519_sound (c.to_bytes body);
    ml_dsa_key = k.ml_dsa_key;
    ml_dsa_signature = k.ml_dsa_signature (c.to_bytes body);
    ml_dsa_holds = k.ml_dsa_sound (c.to_bytes body);
  }

  -- A body that is no CA's and that a CA key signs gives a certificate that the verify key of the
  -- same pair accepts at every time of its period.
  pub verify-sign :
      (now : ℤ) (body : CertBody) (sk : HybridSigningKey) (vk : HybridVerifyKey)
      → IsKeyPair c sk vk
      → body.meta.is_ca ≡ false
      → body.meta.not_before ≤ℤ now
      → now ≤ℤ body.meta.not_after
      → verify c now (sign c body sk) vk ≡ true
  verify-sign now body sk vk k ca nb na =
      (verify_iff now (sign c body sk) vk).1
        (unfold sign in (ca, nb, na, sign-BothSigned body sk vk k))
