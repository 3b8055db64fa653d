-- ===== src/Wire/Body.antt =====
-- The bodies of a packet, and the functions `encrypt_*_packet` of packet.rs.
use liteway.Common.{ℕ, Bool, true, false, List, [], ◌∷◌, ◌++◌}
use liteway.Common.Bytes.{be_bytes}
use liteway.Crypto.{Crates}
use liteway.Net.{IpAddr, SocketAddr}
use liteway.Cert.{Cert}
use liteway.Wire.{
  DataPacket, kind_data, kind_relay_forward, kind_disconnect, kind_lighthouse_query,
  kind_lighthouse_response, kind_lighthouse_not_found, kind_keepalive, kind_keepalive_ack,
}
use liteway.Wire.Reader.{vec_u32}
use liteway.Wire.Seal.{Draw, add_random_padding, seal}

-- The first field of each is `seq`.
pub data PacketBody : Type 0 where
  data_packet : ℕ → List ℕ → PacketBody
  relay_forward : ℕ → ℕ → List ℕ → PacketBody
  disconnect : ℕ → PacketBody
  lighthouse_query : ℕ → IpAddr → PacketBody
  lighthouse_response : ℕ → IpAddr → ℕ → SocketAddr → Cert → Bool → PacketBody
  lighthouse_not_found : ℕ → IpAddr → PacketBody
  keepalive : ℕ → ℕ → PacketBody
  keepalive_ack : ℕ → ℕ → PacketBody

-- `packet_seq` of litewayd/src/main.rs
unfoldable pub packet_seq : PacketBody → ℕ
packet_seq (data_packet seq b) = seq
packet_seq (relay_forward seq next b) = seq
packet_seq (disconnect seq) = seq
packet_seq (lighthouse_query seq ip) = seq
packet_seq (lighthouse_response seq ip id addr cert relay) = seq
packet_seq (lighthouse_not_found seq ip) = seq
packet_seq (keepalive seq token) = seq
packet_seq (keepalive_ack seq token) = seq

-- `u8::from` of a truth value.
abbrev pub byte_of : Bool → ℕ
byte_of true = 1
byte_of false = 0

-- What every packet starts with.
abbrev pub opening : ℕ → ℕ → List ℕ
opening kind seq = kind ∷ be_bytes 8 seq

module _ (c : Crates) where
  open c use {ip_to_string, addr_to_string, cert_to_vec}

  unfoldable pub encrypt_data_packet : ℕ → ℕ → ℕ → List ℕ → List ℕ → List ℕ → Draw → DataPacket
  encrypt_data_packet seq dst_peer_id session_id ip_packet network_key session_key d =
      let plaintext = opening kind_data seq ++ vec_u32 ip_packet in
      seal c kind_data dst_peer_id session_id network_key session_key
        (add_random_padding plaintext d) d

  unfoldable pub encrypt_disconnect_packet : ℕ → ℕ → ℕ → List ℕ → List ℕ → Draw → DataPacket
  encrypt_disconnect_packet seq dst_peer_id session_id network_key session_key d =
      seal c kind_disconnect dst_peer_id session_id network_key session_key
        (add_random_padding (opening kind_disconnect seq) d) d

  unfoldable pub encrypt_relay_forward_packet :
      ℕ → ℕ → ℕ → ℕ → List ℕ → List ℕ → List ℕ → Draw → DataPacket
  encrypt_relay_forward_packet seq dst_peer_id session_id next_peer_id inner_packet network_key
        session_key d =
      let plaintext =
        opening kind_relay_forward seq ++ (be_bytes 4 next_peer_id ++ vec_u32 inner_packet) in
      seal c kind_relay_forward dst_peer_id session_id network_key session_key
        (add_random_padding plaintext d) d

  unfoldable pub encrypt_lighthouse_query_packet :
      ℕ → ℕ → ℕ → IpAddr → List ℕ → List ℕ → Draw → DataPacket
  encrypt_lighthouse_query_packet seq dst_peer_id session_id target_ip network_key session_key d =
      let plaintext = opening kind_lighthouse_query seq ++ vec_u32 (ip_to_string target_ip) in
      seal c kind_lighthouse_query dst_peer_id session_id network_key session_key
        (add_random_padding plaintext d) d

  unfoldable pub encrypt_lighthouse_response_packet :
      ℕ → ℕ → ℕ → IpAddr → ℕ → SocketAddr → Cert → Bool → List ℕ → List ℕ → Draw → DataPacket
  encrypt_lighthouse_response_packet seq dst_peer_id session_id target_ip peer_id peer_addr
        peer_cert peer_is_relay network_key session_key d =
      let plaintext =
        opening kind_lighthouse_response seq
        ++ (vec_u32 (ip_to_string target_ip)
            ++ (be_bytes 4 peer_id
                ++ (vec_u32 (addr_to_string peer_addr)
                    ++ (vec_u32 (cert_to_vec peer_cert) ++ (byte_of peer_is_relay ∷ []))))) in
      seal c kind_lighthouse_response dst_peer_id session_id network_key session_key
        (add_random_padding plaintext d) d

  unfoldable pub encrypt_lighthouse_not_found_packet :
      ℕ → ℕ → ℕ → IpAddr → List ℕ → List ℕ → Draw → DataPacket
  encrypt_lighthouse_not_found_packet seq dst_peer_id session_id target_ip network_key session_key
        d =
      let plaintext = opening kind_lighthouse_not_found seq ++ vec_u32 (ip_to_string target_ip) in
      seal c kind_lighthouse_not_found dst_peer_id session_id network_key session_key
        (add_random_padding plaintext d) d

  unfoldable pub encrypt_keepalive_packet : ℕ → ℕ → ℕ → ℕ → List ℕ → List ℕ → Draw → DataPacket
  encrypt_keepalive_packet seq dst_peer_id session_id token network_key session_key d =
      let plaintext = opening kind_keepalive seq ++ be_bytes 8 token in
      seal c kind_keepalive dst_peer_id session_id network_key session_key
        (add_random_padding plaintext d) d

  unfoldable pub encrypt_keepalive_ack_packet : ℕ → ℕ → ℕ → ℕ → List ℕ → List ℕ → Draw → DataPacket
  encrypt_keepalive_ack_packet seq dst_peer_id session_id token network_key session_key d =
      let plaintext = opening kind_keepalive_ack seq ++ be_bytes 8 token in
      seal c kind_keepalive_ack dst_peer_id session_id network_key session_key
        (add_random_padding plaintext d) d

  -- The packet that is sent for a body.
  unfoldable pub encrypt_body : PacketBody → ℕ → ℕ → List ℕ → List ℕ → Draw → DataPacket
  encrypt_body (data_packet seq ip_packet) dst session nk sk d =
      encrypt_data_packet seq dst session ip_packet nk sk d
  encrypt_body (relay_forward seq next inner) dst session nk sk d =
      encrypt_relay_forward_packet seq dst session next inner nk sk d
  encrypt_body (disconnect seq) dst session nk sk d =
      encrypt_disconnect_packet seq dst session nk sk d
  encrypt_body (lighthouse_query seq ip) dst session nk sk d =
      encrypt_lighthouse_query_packet seq dst session ip nk sk d
  encrypt_body (lighthouse_response seq ip id addr cert relay) dst session nk sk d =
      encrypt_lighthouse_response_packet seq dst session ip id addr cert relay nk sk d
  encrypt_body (lighthouse_not_found seq ip) dst session nk sk d =
      encrypt_lighthouse_not_found_packet seq dst session ip nk sk d
  encrypt_body (keepalive seq token) dst session nk sk d =
      encrypt_keepalive_packet seq dst session token nk sk d
  encrypt_body (keepalive_ack seq token) dst session nk sk d =
      encrypt_keepalive_ack_packet seq dst session token nk sk d
