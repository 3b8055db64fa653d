-- ===== src/Node.antt =====
-- `Node` of litewayd/src/main.rs: what it keeps, and how it hands packets to the socket. A handler runs
-- to its end before the next one starts, and reads the clock once.
pub mod Sessions
pub mod Discovery
pub mod Maintenance
pub mod Lookup
pub mod Overlay
pub mod Accept
pub mod Receive
pub mod Frame
pub mod Invariant
pub mod Steps
pub mod Deliveries
pub mod Crossing
mod Tests
use liteway.Common.{
  ℕ, suc, ◌+◌, Bool, true, false, Option, none, some, List, [], ◌∷◌, ◌++◌, map, if◌then◌else◌,
}
use liteway.Common.Keyed
use liteway.Common.Keyed.{nat_eq}
use liteway.Net
use liteway.Net.{Text, IpAddr, SocketAddr, IpNetworks}
use liteway.Time.{Timings, from_secs}
use liteway.Cert.{Cert, HybridVerifyKey, HybridSigningKey}
use liteway.Crypto.{Crates}
use liteway.Wire.{DataPacket, serialize_packet}
use liteway.Wire.Seal.{Draw}
use liteway.Peer.{PeerState, next_seq}
use liteway.Pending.{PendingHandshake}
use liteway.Cache.{HandshakeCache}
use liteway.Routes.{RouteTable}
use liteway.Frag.{
  FragmentAssembler, SendResult, datagram_too_small, too_many_chunks, sent, send_fragmented_with_id,
}
use liteway.Handshake.Message.{Primitives, HandshakeDraw}

-- `DISCOVERY_RETRY`, `DISCOVERY_ENTRY_TTL` and `LIGHTHOUSE_RERESOLVE`
abbrev pub discovery_retry : ℕ
discovery_retry = from_secs 10

abbrev pub discovery_entry_ttl : ℕ
discovery_entry_ttl = from_secs 120

abbrev pub lighthouse_reresolve : ℕ
lighthouse_reresolve = from_secs 60

pub record LighthouseSlot : Type 0 where
  pub name : Text
  pub configured : Text
  pub address : SocketAddr
  pub peer_id : Option ℕ
  pub resolved_at : ℕ

-- The fields of `Node` that never change, and what the node takes from outside: the crates, its random
-- draws by number, and the names that it resolves. `has_tun` is false without a device.
pub record Host : Type 1 where
  pub networks : IpNetworks
  pub primitives : Primitives
  pub packet_draw : ℕ → Draw
  pub fragment_draw : ℕ → ℕ → Draw
  pub handshake_draw : ℕ → HandshakeDraw
  pub random_u32 : ℕ → ℕ
  pub random_token : ℕ → ℕ
  pub resolve_socket_addr : Text → Option SocketAddr
  pub our_id : ℕ
  pub cert : Cert
  pub signing_key : HybridSigningKey
  pub ca_vk : HybridVerifyKey
  pub network_key : List ℕ
  pub max_datagram : ℕ
  pub am_lighthouse : Bool
  pub am_relay : Bool
  pub keepalive_enabled : Bool
  pub timings : Timings
  pub iface_name : Option Text
  pub local_networks : List networks.Net
  pub has_tun : Bool

-- An `Instant` for the maps, and the seconds since 1970 for certificates and handshakes.
pub record Clock : Type 0 where
  pub now : ℕ
  pub unix : ℕ

-- A call of `add_route` or `del_route` of liteway-net.
pub data RouteChange (Net : Type 0) : Type 0 where
  add_route : Net → Text → RouteChange Net
  del_route : Net → Text → RouteChange Net

-- The fields that change, with the assembler of the receiver. The last four are what the node has done
-- so far: datagrams sent, packets written to the device, routes of the device, random draws.
pub record Node (n : IpNetworks) : Type 0 where
  pub peers : List (ℕ × PeerState n.Net)
  pub pending : List (ℕ × PendingHandshake)
  pub routes : RouteTable n
  pub rx_sessions : List (ℕ × ℕ)
  pub lighthouses : List LighthouseSlot
  pub handshake_cache : HandshakeCache
  pub discovery_pending : List (IpAddr × ℕ)
  pub running : Bool
  pub assembler : FragmentAssembler
  pub last_cleanup : ℕ
  pub datagrams : List (SocketAddr × List ℕ)
  pub tun : List (List ℕ)
  pub device : List (RouteChange n.Net)
  pub draws : ℕ

pub record PeerTx : Type 0 where
  pub addr : SocketAddr
  pub seq : ℕ
  pub session_id : ℕ
  pub key : List ℕ

pub data AddPeerOutcome : Type 0 where
  added kept_existing : AddPeerOutcome

abbrev pub unwrap_or {ℓ} : {A : Type ℓ} → A → Option A → A
unwrap_or d none = d
unwrap_or d (some a) = a

-- `Option::or`
abbrev pub or_else {ℓ} : {A : Type ℓ} → Option A → Option A → Option A
or_else none o = o
or_else (some a) o = some a

-- `values().any`
abbrev pub any_value {ℓ} : {V : Type ℓ} → (V → Bool) → List (ℕ × V) → Bool
any_value test [] = false
any_value test ((k, v) ∷ m) = if test v then true else any_value test m

module _ (h : Host) where
  abbrev pub State : Type 0
  State = Node h.networks

  abbrev pub Peer : Type 0
  Peer = PeerState h.networks.Net

  abbrev pub crates : Crates
  crates = h.primitives.crates

  -- A socket that takes what it is given.
  unfoldable pub send_wire : State → List ℕ → SocketAddr → State
  send_wire s wire addr = record s { datagrams = s.datagrams ++ ((addr, wire) ∷ []) }

  -- The packets of one message.
  abbrev pub send_fragments : State → SendResult → SocketAddr → State × Bool
  send_fragments s datagram_too_small addr = (s, false)
  send_fragments s too_many_chunks addr = (s, false)
  send_fragments s (sent packets) addr =
      (record s { datagrams = s.datagrams ++ map (λ wire. (addr, wire)) packets }, true)

  unfoldable pub send_message_with_id : State → List ℕ → SocketAddr → ℕ → ℕ → State × Bool
  send_message_with_id s msg addr dst_peer_id msg_id =
      send_fragments (record s { draws = suc s.draws })
        (send_fragmented_with_id crates h.network_key msg h.max_datagram dst_peer_id msg_id
          (h.fragment_draw s.draws))
        addr

  unfoldable pub send_message : State → List ℕ → SocketAddr → ℕ → State × Bool
  send_message s msg addr dst_peer_id =
      send_message_with_id s msg addr dst_peer_id (h.random_u32 s.draws)

  abbrev pub set_peer : State → ℕ → Peer → State
  set_peer s peer_id peer = record s { peers = Keyed.insert peer_id peer s.peers }

  abbrev pub tx_of : State → ℕ → Option Peer → State × Option PeerTx
  tx_of s peer_id none = (s, none)
  tx_of s peer_id (some peer) =
      let (numbered, seq) = next_seq peer in
      (
        set_peer s peer_id numbered,
        some (record {
          addr = numbered.addr;
          seq = seq;
          session_id = numbered.tx_session_id;
          key = numbered.tx_key;
        }),
      )

  unfoldable pub peer_tx : State → ℕ → State × Option PeerTx
  peer_tx s peer_id = tx_of s peer_id (Keyed.lookup peer_id s.peers)

  -- The random bytes of the next packet.
  abbrev pub next_draw : State → Draw
  next_draw s = h.packet_draw s.draws

  abbrev pub drew : State → State
  drew s = record s { draws = suc s.draws }

  unfoldable pub addr_is_relay : State → SocketAddr → Bool
  addr_is_relay s addr =
      any_value (λ peer. if peer.is_relay then Net.addr_eqb peer.addr addr else false) s.peers
