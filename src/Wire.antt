-- ===== src/Wire.antt =====
-- The packets of liteway-core/src/packet.rs. An array or a vector of bytes is a list of numbers.
pub mod Reader
pub mod Header
pub mod Seal
pub mod Body
pub mod Parse
pub mod Decrypt
pub mod RoundTrip
pub mod Delivery
mod Tests
use Prim.Native.Nat.{bit_xor}
use liteway.Common.{
  ℕ, suc, ◌+◌, ◌%◌, ◌≡◌, Bool, true, false, not, ◌&&◌, ◌||◌, Option, none, some, List, [], ◌∷◌,
  ◌++◌, ltb, ◌==◌, if◌then◌else◌, length, take, drop, any, ◌>>=◌,
}
use liteway.Common.Bytes.{be_bytes, from_be}
use liteway.Net.{text, text_eqb}
use liteway.Crypto.{Crates}

abbrev pub mask_nonce_len : ℕ
mask_nonce_len = 8

abbrev pub network_header_len : ℕ
network_header_len = 16

abbrev pub nonce_len : ℕ
nonce_len = 12

abbrev pub aead_tag_len : ℕ
aead_tag_len = 16

-- `PACKET_OVERHEAD` and `MIN_PACKET_LEN`
abbrev pub packet_overhead : ℕ
packet_overhead = mask_nonce_len + network_header_len + nonce_len + aead_tag_len

-- The packet kinds.
abbrev pub kind_data : ℕ
kind_data = 0x21

abbrev pub kind_relay_forward : ℕ
kind_relay_forward = 0x22

abbrev pub kind_disconnect : ℕ
kind_disconnect = 0x23

abbrev pub kind_lighthouse_query : ℕ
kind_lighthouse_query = 0x24

abbrev pub kind_lighthouse_response : ℕ
kind_lighthouse_response = 0x25

abbrev pub kind_lighthouse_not_found : ℕ
kind_lighthouse_not_found = 0x26

abbrev pub kind_keepalive : ℕ
kind_keepalive = 0x27

abbrev pub kind_keepalive_ack : ℕ
kind_keepalive_ack = 0x28

abbrev pub kind_handshake_1 : ℕ
kind_handshake_1 = 0x11

abbrev pub kind_handshake_2 : ℕ
kind_handshake_2 = 0x12

abbrev pub kind_handshake_frag : ℕ
kind_handshake_frag = 0x13

pub record DataPacket : Type 0 where
  pub mask_nonce : List ℕ
  pub masked_header : List ℕ
  pub nonce : List ℕ
  pub ciphertext : List ℕ

pub record NetworkHeader : Type 0 where
  pub kind : ℕ
  pub frag_index : ℕ
  pub frag_total : ℕ
  pub dst_peer_id : ℕ
  pub session_id : ℕ

-- `bytes[i]`, on an array that is long enough.
abbrev pub at : List ℕ → ℕ → ℕ
at bs i = elim (drop i bs) [ [] ↦ 0 | b ∷ rest ↦ b ]

-- `bytes[from..from + len]`
abbrev pub slice : List ℕ → ℕ → ℕ → List ℕ
slice bs from len = take len (drop from bs)

unfoldable pub encode_header : NetworkHeader → List ℕ
encode_header h =
    h.kind
    ∷ h.frag_index
    ∷ h.frag_total
    ∷ 0
    ∷ (be_bytes 4 h.dst_peer_id ++ (be_bytes 4 h.session_id ++ (0 ∷ 0 ∷ 0 ∷ 0 ∷ [])))

abbrev pub known_kinds : List ℕ
known_kinds =
    kind_data ∷ kind_relay_forward ∷ kind_disconnect ∷ kind_lighthouse_query
    ∷ kind_lighthouse_response ∷ kind_lighthouse_not_found ∷ kind_keepalive ∷ kind_keepalive_ack
    ∷ kind_handshake_1 ∷ kind_handshake_2 ∷ kind_handshake_frag ∷ []

unfoldable pub is_known : ℕ → Bool
is_known kind = any (λ k. kind == k) known_kinds

unfoldable pub decode_header : List ℕ → Option NetworkHeader
decode_header bytes =
    if not (at bytes 3 == 0) || not (text_eqb (slice bytes 12 4) (0 ∷ 0 ∷ 0 ∷ 0 ∷ []))
    then none
    else if not (is_known (at bytes 0))
    then none
    else some (record {
      kind = at bytes 0;
      frag_index = at bytes 1;
      frag_total = at bytes 2;
      dst_peer_id = from_be (slice bytes 4 4);
      session_id = from_be (slice bytes 8 4);
    })

-- The loop over `zip`, which ends with the shorter side.
abbrev pub xor_bytes : List ℕ → List ℕ → List ℕ
xor_bytes [] mask = []
xor_bytes (p ∷ plain) [] = []
xor_bytes (p ∷ plain) (m ∷ mask) = bit_xor p m ∷ xor_bytes plain mask

-- `packet_aad`
unfoldable pub packet_aad : DataPacket → List ℕ
packet_aad pkt = pkt.mask_nonce ++ pkt.masked_header

unfoldable pub serialize_packet : DataPacket → List ℕ
serialize_packet pkt = pkt.mask_nonce ++ (pkt.masked_header ++ (pkt.nonce ++ pkt.ciphertext))

unfoldable pub deserialize_packet : List ℕ → Option DataPacket
deserialize_packet bytes =
    if ltb (length bytes) packet_overhead
    then none
    else some (record {
      mask_nonce = take mask_nonce_len bytes;
      masked_header = slice bytes mask_nonce_len network_header_len;
      nonce = slice bytes (mask_nonce_len + network_header_len) nonce_len;
      ciphertext = drop (mask_nonce_len + network_header_len + nonce_len) bytes;
    })

module _ (c : Crates) where
  abbrev header_mask : List ℕ → List ℕ → List ℕ
  header_mask mask_nonce network_key =
      c.keyed_hash (c.derive_key (text "liteway-network-header-mask-v1") network_key) mask_nonce

  unfoldable pub mask_network_header : NetworkHeader → List ℕ → List ℕ → List ℕ
  mask_network_header header mask_nonce network_key =
      xor_bytes (encode_header header) (header_mask mask_nonce network_key)

  unfoldable pub unmask_header_bytes : List ℕ → List ℕ → List ℕ → Option NetworkHeader
  unmask_header_bytes mask_nonce masked_header network_key =
      decode_header (xor_bytes masked_header (header_mask mask_nonce network_key))

  unfoldable pub unmask_header : DataPacket → List ℕ → Option NetworkHeader
  unmask_header pkt network_key = unmask_header_bytes pkt.mask_nonce pkt.masked_header network_key

  unfoldable pub network_header : List ℕ → List ℕ → Option NetworkHeader
  network_header bytes network_key =
      if ltb (length bytes) packet_overhead
      then none
      else unmask_header_bytes (take mask_nonce_len bytes)
          (slice bytes mask_nonce_len network_header_len) network_key

  -- `derive_traffic_key`
  unfoldable pub derive_traffic_key : List ℕ → ℕ → ℕ → List ℕ
  derive_traffic_key session_key src_id dst_id =
      c.derive_key (text "liteway-traffic-key-v2")
        (session_key ++ (be_bytes 4 src_id ++ be_bytes 4 dst_id))
