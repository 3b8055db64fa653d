-- ===== src/Wire/Decrypt.antt =====
-- `decrypt_packet` of packet.rs.
use liteway.Common.{Option, none, some, List, ℕ, ◌>>=◌}
use liteway.Crypto.{Crates}
use liteway.Wire.{NetworkHeader, deserialize_packet, unmask_header, packet_aad}
use liteway.Wire.Reader.{Reader, run_reader}
use liteway.Wire.Seal.{packet_key}
use liteway.Wire.Body.{PacketBody}
use liteway.Wire.Parse.{read_body}

-- What a read returned, without the reader.
abbrev pub result : {A : Type 0} → Option (A × Reader) → Option A
result none = none
result (some (a, r)) = some a

module _ (c : Crates) where
  unfoldable pub decrypt_packet : List ℕ → List ℕ → List ℕ → Option (NetworkHeader × PacketBody)
  decrypt_packet bytes network_key session_key = do
    pkt ← deserialize_packet bytes
    header ← unmask_header c pkt network_key
    plaintext ← c.aead_decrypt (packet_key c session_key) pkt.nonce pkt.ciphertext (packet_aad pkt)
    body ← result (run_reader plaintext (read_body c header.kind))
    some (header, body)
