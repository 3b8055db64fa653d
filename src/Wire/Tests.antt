-- ===== src/Wire/Tests.antt =====
-- Packets under a cipher that hides nothing, and the theorems about them.
use liteway.Common.{
  ℕ, ◌-◌, ◌≡◌, refl, ◌∙◌, ap, Option, ◌==◌, if◌then◌else◌, none, some, List, [], ◌∷◌, ◌++◌, arith,
  length, take, take-length-append, length-append,
}
use liteway.Crypto.{Crates, Laws, IsIpText, IsAddrText}
use liteway.Net.{Text, IpAddr, v4, v6, SocketAddr}
use liteway.Wire.{NetworkHeader, serialize_packet, network_header, is_known}
use liteway.Wire.Header.{IsWire}
use liteway.Wire.Seal.{Draw, IsDraw}
use liteway.Wire.Body.{data_packet, keepalive, packet_seq, encrypt_body}
use liteway.Wire.Decrypt.{decrypt_packet}
use liteway.Wire.Delivery.{decrypt-encrypt, network_header-encrypt, plain_header}

-- The message, and a tag of zeros.
abbrev tag : List ℕ
tag = 0 ∷ 0 ∷ 0 ∷ 0 ∷ 0 ∷ 0 ∷ 0 ∷ 0 ∷ 0 ∷ 0 ∷ 0 ∷ 0 ∷ 0 ∷ 0 ∷ 0 ∷ 0 ∷ []

-- An address is written as its version and its numbers.
abbrev ip_text : IpAddr → Text
ip_text (v4 a) = 4 ∷ a ∷ []
ip_text (v6 a) = 6 ∷ a ∷ []

abbrev read_ip_text : Text → Option IpAddr
read_ip_text (version ∷ a ∷ []) = if version == 4 then some (v4 a) else some (v6 a)
read_ip_text t = none

abbrev addr_text : SocketAddr → Text
addr_text (SocketAddr.v4 a p) = a ∷ p ∷ []
addr_text (SocketAddr.v6 a p f s) = a ∷ p ∷ f ∷ s ∷ []

abbrev read_addr_text : Text → Option SocketAddr
read_addr_text (a ∷ p ∷ []) = some (SocketAddr.v4 a p)
read_addr_text (a ∷ p ∷ f ∷ s ∷ []) = some (SocketAddr.v6 a p f s)
read_addr_text t = none

abbrev plain : Crates
plain = record {
  derive_key = λ context key. key;
  keyed_hash = λ key msg. tag ++ tag;
  hash = λ msg. tag ++ tag;
  aead_encrypt = λ key nonce msg aad. msg ++ tag;
  aead_decrypt = λ key nonce msg aad. some (take (length msg - 16) msg);
  from_utf8 = λ bs. some bs;
  ip_to_string = ip_text;
  parse_ip = read_ip_text;
  addr_to_string = addr_text;
  parse_addr = read_addr_text;
  cert_to_vec = λ cert. [];
  cert_from_slice = λ bs. none;
}

untagged : (msg : List ℕ) → take (length (msg ++ tag) - 16) (msg ++ tag) ≡ msg
untagged msg =
    let e : length (msg ++ tag) - 16 ≡ length msg = omega (arith, length-append msg tag) in
    ap (λ n. take n (msg ++ tag)) e ∙ take-length-append msg tag

plain-Laws : Laws plain
plain-Laws = record {
  hash_length = λ key msg. refl;
  hash_bytes = λ key msg. omega arith;
  decrypt_encrypt = λ key nonce msg aad. ap some (untagged msg);
  encrypt_length = λ key nonce msg aad. length-append msg tag;
}

plain-IsIpText : (ip : IpAddr) → IsIpText plain ip
plain-IsIpText (v4 a) = record { short = omega arith; utf8 = refl; parse = refl }
plain-IsIpText (v6 a) = record { short = omega arith; utf8 = refl; parse = refl }

plain-IsAddrText : (addr : SocketAddr) → IsAddrText plain addr
plain-IsAddrText (SocketAddr.v4 a p) = record { short = omega arith; utf8 = refl; parse = refl }
plain-IsAddrText (SocketAddr.v6 a p f s) = record { short = omega arith; utf8 = refl; parse = refl }

abbrev draw : Draw
draw = record {
  mask_nonce = 1 ∷ 2 ∷ 3 ∷ 4 ∷ 5 ∷ 6 ∷ 7 ∷ 8 ∷ [];
  nonce = 1 ∷ 2 ∷ 3 ∷ 4 ∷ 5 ∷ 6 ∷ 7 ∷ 8 ∷ 9 ∷ 10 ∷ 11 ∷ 12 ∷ [];
  pad_byte = 35;
  padding = λ n. 9 ∷ 9 ∷ 9 ∷ [];
}

draw_lengths : IsDraw draw
draw_lengths = record { mask_nonce_length = refl; nonce_length = refl }

abbrev header : NetworkHeader
header = record { kind = 0x13; frag_index = 2; frag_total = 3; dst_peer_id = 7; session_id = 9 }

header-IsWire : IsWire header
unfolding is_known
header-IsWire = record {
  known = refl;
  kind_byte = omega arith;
  index_byte = omega arith;
  total_byte = omega arith;
  dst_u32 = omega arith;
  session_u32 = omega arith;
}

decrypt-encrypt_example :
    decrypt_packet plain
      (serialize_packet (encrypt_body plain (data_packet 4 (1 ∷ 2 ∷ [])) 7 9 [] [] draw))
      []
      []
    ≡ some (plain_header 0x21 7 9, data_packet 4 (1 ∷ 2 ∷ []))
unfolding packet_seq
decrypt-encrypt_example =
    decrypt-encrypt plain plain-Laws (data_packet 4 (1 ∷ 2 ∷ [])) 7 9 [] [] draw draw_lengths
      (omega arith) (omega arith) (omega arith) (omega arith)

network_header-encrypt_example :
    network_header plain (serialize_packet (encrypt_body plain (keepalive 4 8) 7 9 [] [] draw)) []
    ≡ some (plain_header 0x27 7 9)
network_header-encrypt_example =
    network_header-encrypt plain plain-Laws (keepalive 4 8) 7 9 [] [] draw draw_lengths
      (omega arith) (omega arith)
