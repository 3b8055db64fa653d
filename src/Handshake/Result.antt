-- ===== src/Handshake/Result.antt =====
-- The errors of liteway-core/src/handshake.rs as values.
use liteway.Common.{Bool, true, false, Option, none, some}

-- One for each `bail!`, and for each `?` on another error.
pub data HandshakeError : Type 0 where
  decrypt_failed too_short wrong_kind unsupported_version clock_skew out_of_bounds : HandshakeError
  invalid_cert_json transcript_mismatch cert_verification_failed signature_failed : HandshakeError
  invalid_mlkem_key invalid_mlkem_ciphertext : HandshakeError

pub data Result (A : Type 0) : Type 0 where
  ok : A → Result A
  err : HandshakeError → Result A

infixl 5 ◌>>=◌ ◌>>◌
abbrev pub ◌>>=◌ : {A B : Type 0} → Result A → (A → Result B) → Result B
ok a >>= f = f a
err e >>= f = err e

abbrev pub ◌>>◌ : {B : Type 0} → Result (Unit {0}) → Result B → Result B
m >> k = m >>= λ _. k

-- `ok_or_else`
abbrev pub or_err : {A : Type 0} → Option A → HandshakeError → Result A
or_err none e = err e
or_err (some a) e = ok a

-- `if !test { bail!(…) }`
abbrev pub ensure : Bool → HandshakeError → Result (Unit {0})
ensure true e = ok tt
ensure false e = err e
