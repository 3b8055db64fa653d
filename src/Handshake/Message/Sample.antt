-- ===== src/Handshake/Message/Sample.antt =====
-- Two nodes under a cipher that hides nothing and keys that are all alike, as test data.
use liteway.Common.{
  ℕ, ◌-◌, ◌≡◌, refl, ap, ◌∙◌, true, false, none, some, List, [], ◌∷◌, ◌++◌, arith, length, take,
  replicate, take-length-append, length-append, if◌then◌else◌,
}
use liteway.Net.{Text, text, text_eqb}
use liteway.Crypto.{Crates}
use liteway.Cert.{pos, Cert, HybridVerifyKey, HybridSigningKey, verify, hybrid_sign, hybrid_verify}
use liteway.Wire.{at}
use liteway.Handshake.Message.{Primitives, HandshakeDraw}
use liteway.Handshake.Message.Layout.{IsHandshakeDraw, HandshakeLaws, IsMember, IsClose}
use liteway.Handshake.Message.Agreement.{End}

abbrev pub named : Text → List ℕ → Cert
named name key = record {
  body = record {
    meta = record {
      name = name;
      is_ca = false;
      not_before = pos 100;
      not_after = pos 900;
      groups = [];
    };
    keys = record { ed25519_pk = key; ml_dsa_pk = key };
    addresses = none;
  };
  signature = record { ed25519 = []; ml_dsa = [] };
}

abbrev pub alice : Cert
alice = named (text "a") (1 ∷ [])

abbrev pub bob : Cert
bob = named (text "b") (2 ∷ [])

abbrev tag : List ℕ
tag = replicate 16 0

-- The message, and a tag of zeros. A hash is its first byte; a certificate is sent as its name.
abbrev pub crates : Crates
crates = record {
  derive_key = λ context key. key;
  keyed_hash = λ key msg. replicate 32 0;
  hash = λ msg. at msg 0 ∷ replicate 31 0;
  aead_encrypt = λ key nonce msg aad. msg ++ tag;
  aead_decrypt = λ key nonce msg aad. some (take (length msg - 16) msg);
  from_utf8 = λ bs. some bs;
  ip_to_string = λ ip. [];
  parse_ip = λ t. none;
  addr_to_string = λ addr. [];
  parse_addr = λ t. none;
  cert_to_vec = λ cert. cert.body.meta.name;
  cert_from_slice = λ bs.
      if text_eqb bs (text "a")
      then some alice
      else if text_eqb bs (text "b")
      then some bob
      else none;
}

abbrev pub primitives : Primitives
primitives = record {
  crates = crates;
  signatures = record {
    to_bytes = λ body. [];
    is_ed25519_key = λ k. true;
    ed25519_verify = λ k msg sig. true;
    is_ml_dsa_key = λ k. true;
    is_ml_dsa_signature = λ sig. true;
    ml_dsa_verify = λ k msg sig. true;
    ed25519_sign = λ k msg. replicate 64 0;
    ml_dsa_sign = λ k msg. replicate 3309 0;
  };
  agreement = record {
    x25519_public = λ sk. replicate 32 0;
    diffie_hellman = λ sk pk. 5 ∷ [];
    mlkem_public = λ sk. replicate 1184 0;
    is_mlkem_key = λ k. true;
    encapsulate = λ pk random. (replicate 1088 0, 6 ∷ []);
    is_mlkem_ciphertext = λ ct. true;
    decapsulate = λ sk ct. 6 ∷ [];
  };
}

untagged : (msg : List ℕ) → take (length (msg ++ tag) - 16) (msg ++ tag) ≡ msg
untagged msg =
    let e : length (msg ++ tag) - 16 ≡ length msg = omega (arith, length-append msg tag) in
    ap (λ n. take n (msg ++ tag)) e ∙ take-length-append msg tag

pub laws : HandshakeLaws primitives
laws = record {
  packets = record {
    hash_length = λ key msg. refl;
    hash_bytes = λ key msg. omega arith;
    decrypt_encrypt = λ key nonce msg aad. ap some (untagged msg);
    encrypt_length = λ key nonce msg aad. length-append msg tag;
  };
  digest_length = λ msg. refl;
  x25519_public_length = λ sk. refl;
  mlkem_public_length = λ sk. refl;
  mlkem_public_key = λ sk. refl;
  same_secret = λ a b. refl;
  ciphertext_length = λ pk random. refl;
  ciphertext_form = λ pk random. refl;
  decapsulate_encapsulate = λ sk random. refl;
}

abbrev pub ca_key : HybridVerifyKey
ca_key = record { ed25519 = []; ml_dsa = [] }

abbrev signing_key : HybridSigningKey
signing_key = record { ed25519 = []; ml_dsa_seed = [] }

abbrev pub drawn : ℕ → HandshakeDraw
drawn id = record {
  eph_x25519 = [];
  eph_mlkem = [];
  random = replicate 16 0;
  session_id = id;
  encapsulation = [];
  packet = record {
    mask_nonce = 7 ∷ replicate 7 0;
    nonce = replicate 12 0;
    pad_byte = 33;
    padding = λ n. replicate n 0;
  };
}

abbrev pub end_a : End
end_a = record { cert = alice; signing_key = signing_key; is_relay = false; draw = drawn 11 }

abbrev pub end_b : End
end_b = record { cert = bob; signing_key = signing_key; is_relay = true; draw = drawn 12 }

pub draw_a : IsHandshakeDraw end_a.draw
draw_a = record {
  random_length = refl;
  session_u32 = omega arith;
  not_zero = λ e. omega arith;
  packet = record { mask_nonce_length = refl; nonce_length = refl };
}

pub draw_b : IsHandshakeDraw end_b.draw
draw_b = record {
  random_length = refl;
  session_u32 = omega arith;
  not_zero = λ e. omega arith;
  packet = record { mask_nonce_length = refl; nonce_length = refl };
}

pub alice-IsMember : IsMember primitives ca_key 500 alice end_a.signing_key
unfolding verify hybrid_verify hybrid_sign
alice-IsMember = record {
  json = record { short = omega arith; parse = refl };
  verified = refl;
  signs = λ msg. refl;
  ed25519_length = λ msg. refl;
  ml_dsa_length = λ msg. refl;
}

pub bob-IsMember : IsMember primitives ca_key 500 bob end_b.signing_key
unfolding verify hybrid_verify hybrid_sign
bob-IsMember = record {
  json = record { short = omega arith; parse = refl };
  verified = refl;
  signs = λ msg. refl;
  ed25519_length = λ msg. refl;
  ml_dsa_length = λ msg. refl;
}

pub close : IsClose 500 300
close = record { not_late = omega arith; not_early = omega arith; fits = omega arith }
