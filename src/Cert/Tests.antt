-- ===== src/Cert/Tests.antt =====
-- A certificate that is signed by its key alone, and the theorems about it.
use liteway.Common.{◌≡◌, refl, ◌↔◌, true, false, none, [], ◌∷◌, ◌++◌, arith}
use liteway.Net.{text, text_eqb, text_eqb_iff}
use liteway.Cert.{
  pos, negsuc, CertBody, HybridVerifyKey, HybridSigningKey, Signatures, hybrid_sign, hybrid_verify,
  sign, verify,
}
use liteway.Cert.Validity.{◌≤ℤ◌, BothSigned, IsKeyPair, verify_iff, verify-sign}

-- A signature is the key before the message.
abbrev prefixes : Signatures
prefixes = record {
  to_bytes = λ body. body.meta.name;
  is_ed25519_key = λ k. true;
  ed25519_verify = λ k msg sig. text_eqb sig (k ++ msg);
  is_ml_dsa_key = λ k. true;
  is_ml_dsa_signature = λ s. true;
  ml_dsa_verify = λ k msg sig. text_eqb sig (k ++ msg);
  ed25519_sign = λ k msg. k ++ msg;
  ml_dsa_sign = λ k msg. k ++ msg;
}

abbrev ca_key : HybridSigningKey
ca_key = record { ed25519 = 1 ∷ []; ml_dsa_seed = 2 ∷ [] }

abbrev ca_verify_key : HybridVerifyKey
ca_verify_key = record { ed25519 = 1 ∷ []; ml_dsa = 2 ∷ [] }

abbrev node : CertBody
node = record {
  meta = record {
    name = text "laptop";
    is_ca = false;
    not_before = negsuc 5;
    not_after = pos 100;
    groups = [];
  };
  keys = record { ed25519_pk = []; ml_dsa_pk = [] };
  addresses = none;
}

key_pair : IsKeyPair prefixes ca_key ca_verify_key
key_pair = record {
  ed25519_key = refl;
  ed25519_sound = λ msg. (text_eqb_iff (1 ∷ msg) (1 ∷ msg)).1 refl;
  ml_dsa_key = refl;
  ml_dsa_signature = λ msg. refl;
  ml_dsa_sound = λ msg. (text_eqb_iff (2 ∷ msg) (2 ∷ msg)).1 refl;
}

run_of_verify :
    (verify prefixes (pos 100) (sign prefixes node ca_key) ca_verify_key ≡ true)
    × (verify prefixes (pos 101) (sign prefixes node ca_key) ca_verify_key ≡ false)
    × (verify prefixes (negsuc 6) (sign prefixes node ca_key) ca_verify_key ≡ false)
unfolding verify sign hybrid_sign hybrid_verify
run_of_verify = (refl, refl, refl)

verify_iff_example : (verify prefixes (pos 7) (sign prefixes node ca_key) ca_verify_key ≡ true) ↔ (
    ((sign prefixes node ca_key).body.meta.is_ca ≡ false)
    × ((sign prefixes node ca_key).body.meta.not_before ≤ℤ pos 7)
    × (pos 7 ≤ℤ (sign prefixes node ca_key).body.meta.not_after)
    × BothSigned prefixes ca_verify_key
        (sign prefixes node ca_key).body.meta.name
        (sign prefixes node ca_key).signature)
verify_iff_example = verify_iff prefixes (pos 7) (sign prefixes node ca_key) ca_verify_key

verify-sign_example : verify prefixes (pos 7) (sign prefixes node ca_key) ca_verify_key ≡ true
verify-sign_example =
    verify-sign prefixes (pos 7) node ca_key ca_verify_key key_pair refl tt (omega arith)
