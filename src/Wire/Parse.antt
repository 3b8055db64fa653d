-- ===== src/Wire/Parse.antt =====
-- The part of `decrypt_packet` of packet.rs that reads the plaintext.
use liteway.Common.{ℕ, not, none, ◌==◌, if◌then◌else◌}
use liteway.Crypto.{Crates}
use liteway.Net.{IpAddr, SocketAddr}
use liteway.Cert.{Cert}
use liteway.Wire.{
  kind_data, kind_relay_forward, kind_disconnect, kind_lighthouse_query, kind_lighthouse_response,
  kind_lighthouse_not_found, kind_keepalive, kind_keepalive_ack,
}
use liteway.Wire.Reader.{R, ◌>>=◌, return, lift, read_u8, read_u32, read_u64, read_vec_u32}
use liteway.Wire.Body.{
  PacketBody, data_packet, relay_forward, disconnect, lighthouse_query, lighthouse_response,
  lighthouse_not_found, keepalive, keepalive_ack,
}

abbrev refuse : {A : Type 0} → R A
refuse r = none

module _ (c : Crates) where
  -- `parse_utf8(rd.vec_u32()?)?.parse().ok()?`
  unfoldable pub read_ip : R IpAddr
  read_ip = do b ← read_vec_u32; t ← lift (c.from_utf8 b); lift (c.parse_ip t)

  unfoldable pub read_addr : R SocketAddr
  read_addr = do b ← read_vec_u32; t ← lift (c.from_utf8 b); lift (c.parse_addr t)

  unfoldable pub read_cert : R Cert
  read_cert = do b ← read_vec_u32; lift (c.cert_from_slice b)

  unfoldable pub read_response : ℕ → R PacketBody
  read_response seq = do
    ip ← read_ip
    id ← read_u32
    addr ← read_addr
    cert ← read_cert
    relay ← read_u8
    return (lighthouse_response seq ip id addr cert (not (relay == 0)))

  unfoldable pub read_relay_forward : ℕ → R PacketBody
  read_relay_forward seq = do
    next ← read_u32
    inner ← read_vec_u32
    return (relay_forward seq next inner)

  -- The `match` on the kind.
  unfoldable pub read_fields : ℕ → ℕ → R PacketBody
  read_fields kind seq =
      if kind == kind_data
      then (do b ← read_vec_u32; return (data_packet seq b))
      else if kind == kind_relay_forward
      then read_relay_forward seq
      else if kind == kind_disconnect
      then return (disconnect seq)
      else if kind == kind_lighthouse_query
      then (do ip ← read_ip; return (lighthouse_query seq ip))
      else if kind == kind_lighthouse_response
      then read_response seq
      else if kind == kind_lighthouse_not_found
      then (do ip ← read_ip; return (lighthouse_not_found seq ip))
      else if kind == kind_keepalive
      then (do token ← read_u64; return (keepalive seq token))
      else if kind == kind_keepalive_ack
      then (do token ← read_u64; return (keepalive_ack seq token))
      else refuse

  unfoldable pub read_body : ℕ → R PacketBody
  read_body header_kind = do
    kind ← read_u8
    seq ← read_u64
    if not (kind == header_kind) then refuse else read_fields kind seq
