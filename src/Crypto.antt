-- ===== src/Crypto.antt =====
-- What the program takes from other crates for its packets: hashes, the cipher, and the text forms
-- of addresses and certificates. `Laws` states what their documentation promises and the code
-- relies on.
use liteway.Common.{ℕ, ◌+◌, ◌^◌, ◌<◌, ◌≡◌, Option, some, List, length, All}
use liteway.Common.Bytes.{IsByte}
use liteway.Net.{Text, IpAddr, SocketAddr}
use liteway.Cert.{Cert}

pub record Crates : Type 0 where
  -- `blake3::derive_key`, `blake3::keyed_hash` and `blake3::hash`
  pub derive_key : Text → List ℕ → List ℕ
  pub keyed_hash : List ℕ → List ℕ → List ℕ
  pub hash : List ℕ → List ℕ
  -- `ChaCha20Poly1305`: key, nonce, message, associated data
  pub aead_encrypt : List ℕ → List ℕ → List ℕ → List ℕ → List ℕ
  pub aead_decrypt : List ℕ → List ℕ → List ℕ → List ℕ → Option (List ℕ)
  -- `std::str::from_utf8`, `to_string` and `parse` of the addresses
  pub from_utf8 : List ℕ → Option Text
  pub ip_to_string : IpAddr → Text
  pub parse_ip : Text → Option IpAddr
  pub addr_to_string : SocketAddr → Text
  pub parse_addr : Text → Option SocketAddr
  -- `serde_json`
  pub cert_to_vec : Cert → List ℕ
  pub cert_from_slice : List ℕ → Option Cert

pub record Laws (c : Crates) : Type 0 where
  pub hash_length : (key msg : List ℕ) → length (c.keyed_hash key msg) ≡ 32
  pub hash_bytes : (key msg : List ℕ) → All IsByte (c.keyed_hash key msg)
  pub decrypt_encrypt :
      (key nonce msg aad : List ℕ)
      → c.aead_decrypt key nonce (c.aead_encrypt key nonce msg aad) aad ≡ some msg
  pub encrypt_length :
      (key nonce msg aad : List ℕ) → length (c.aead_encrypt key nonce msg aad) ≡ length msg + 16

-- The text of an address is read back, and the JSON of a certificate; their lengths fit the four
-- bytes that they are sent in.
pub record IsIpText (c : Crates) (ip : IpAddr) : Type 0 where
  pub short : length (c.ip_to_string ip) < 2 ^ 32
  pub utf8 : c.from_utf8 (c.ip_to_string ip) ≡ some (c.ip_to_string ip)
  pub parse : c.parse_ip (c.ip_to_string ip) ≡ some ip

pub record IsAddrText (c : Crates) (addr : SocketAddr) : Type 0 where
  pub short : length (c.addr_to_string addr) < 2 ^ 32
  pub utf8 : c.from_utf8 (c.addr_to_string addr) ≡ some (c.addr_to_string addr)
  pub parse : c.parse_addr (c.addr_to_string addr) ≡ some addr

pub record IsCertText (c : Crates) (cert : Cert) : Type 0 where
  pub short : length (c.cert_to_vec cert) < 2 ^ 32
  pub parse : c.cert_from_slice (c.cert_to_vec cert) ≡ some cert
