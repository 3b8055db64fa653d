-- ===== src/Node/Sessions.antt =====
-- How the node of litewayd/src/main.rs starts handshakes, and adds and removes peers.
use liteway.Common.{
  ℕ, Bool, true, false, not, ◌&&◌, ◌||◌, Option, none, some, List, [], ◌∷◌, ◌++◌, map, ◌==◌,
  if◌then◌else◌,
}
use liteway.Common.Keyed
use liteway.Common.Keyed.{nat_eq, option_eqb}
use liteway.Net.{Text, text_eqb, SocketAddr, addr_eqb}
use liteway.Cert.{Cert}
use liteway.Peer.{same_addr}
use liteway.Replay
use liteway.Pending
use liteway.Pending.{PendingHandshake, HandshakeInitiate}
use liteway.Routes
use liteway.Dial.{accept_handshake_session}
use liteway.Policy.{authorized_peer_routes}
use liteway.Wire.{derive_traffic_key}
use liteway.Handshake.Message.{create_handshake_1}
use liteway.Node.{
  Host, Clock, State, Peer, crates, LighthouseSlot, RouteChange, add_route, del_route,
  AddPeerOutcome, added, kept_existing, unwrap_or, or_else, any_value, send_message_with_id, drew,
}

-- Whether a handshake in flight is one to this peer, or to this address when either is not known.
abbrev pub in_flight : SocketAddr → Option ℕ → PendingHandshake → Bool
in_flight addr wanted p = both p.peer_id wanted
  where
    both : Option ℕ → Option ℕ → Bool
    both (some existing) (some peer_id) = existing == peer_id
    both none wanted = addr_eqb p.direct_addr addr
    both (some existing) none = addr_eqb p.direct_addr addr

-- What `add_peer` is called with.
pub record NewPeer : Type 0 where
  pub id : ℕ
  pub session_key : List ℕ
  pub cert : Cert
  pub addr : SocketAddr
  pub direct_addr : Option SocketAddr
  pub relayed : Bool
  pub is_relay : Bool
  pub tx_session_id : ℕ
  pub rx_session_id : ℕ
  pub initiator_id : ℕ
  pub simultaneous : Bool

abbrev pub unbind : ℕ → LighthouseSlot → LighthouseSlot
unbind peer_id slot =
    if option_eqb ◌==◌ slot.peer_id (some peer_id) then record slot { peer_id = none } else slot

abbrev pub bind : SocketAddr → Text → ℕ → LighthouseSlot → LighthouseSlot
bind addr name peer_id slot =
    if addr_eqb slot.address addr || text_eqb slot.name name
    then record slot { peer_id = some peer_id }
    else slot

-- The old session id goes before the new one comes.
abbrev pub replace_session : Option ℕ → ℕ → ℕ → List (ℕ × ℕ) → List (ℕ × ℕ)
replace_session none rx_session_id id sessions = Keyed.insert rx_session_id id sessions
replace_session (some old) rx_session_id id sessions =
    Keyed.insert rx_session_id id (Keyed.remove old sessions)

module _ (h : Host) where
  abbrev pub insert_pending :
      HandshakeInitiate → SocketAddr → Option ℕ → Text → ℕ → State h × Bool → State h × Bool
  insert_pending init addr peer_id peer_name now (s, false) = (s, false)
  insert_pending init addr peer_id peer_name now (s, true) = (
    record s {
      pending =
          Keyed.insert init.my_rx_session_id (Pending.new init addr peer_id peer_name now)
            s.pending;
    },
    true,
  )

  unfoldable pub start_handshake : State h → SocketAddr → Option ℕ → Text → Clock → State h × Bool
  start_handshake s addr peer_id peer_name clock =
      let init =
        create_handshake_1 h.primitives h.cert h.signing_key h.network_key h.am_relay clock.unix
          (h.handshake_draw s.draws) in
      if any_value (in_flight addr peer_id) s.pending
      then (s, false)
      else insert_pending init addr peer_id peer_name clock.now (
          send_message_with_id h (drew h s) init.msg addr (unwrap_or 0 peer_id)
            init.my_rx_session_id)

  abbrev pub known_direct : Option (Peer h) → Option SocketAddr
  known_direct none = none
  known_direct (some peer) = peer.direct_addr

  abbrev pub initiator_of : Option (Peer h) → Option ℕ
  initiator_of none = none
  initiator_of (some peer) = some peer.handshake_initiator_id

  abbrev pub session_of : Option (Peer h) → Option ℕ
  session_of none = none
  session_of (some peer) = some peer.rx_session_id

  unfoldable pub new_peer_state : NewPeer → Option (Peer h) → ℕ → Peer h
  new_peer_state p previous now =
      let direct_addr = or_else p.direct_addr (known_direct previous) in
      record {
        name = p.cert.body.meta.name;
        cert = p.cert;
        tx_key = derive_traffic_key (crates h) p.session_key h.our_id p.id;
        rx_key = derive_traffic_key (crates h) p.session_key p.id h.our_id;
        addr = p.addr;
        direct_addr = direct_addr;
        is_relay = p.is_relay;
        tx_session_id = p.tx_session_id;
        rx_session_id = p.rx_session_id;
        tx_seq = 0;
        rx_replay = Replay.new;
        last_seen = now;
        last_ack = now;
        routes = authorized_peer_routes h.networks p.cert;
        handshake_initiator_id = p.initiator_id;
        keepalive = none;
        relayed = p.relayed && not (same_addr direct_addr p.addr);
        next_probe = none;
        probe_interval = h.timings.direct_probe_interval;
        probe_token = none;
      }

  abbrev pub insert_routes :
      List h.networks.Net → ℕ → Routes.RouteTable h.networks → Routes.RouteTable h.networks
  insert_routes [] id table = table
  insert_routes (route ∷ routes) id table =
      insert_routes routes id (Routes.insert h.networks table route id)

  -- The calls for an interface, if there is one.
  abbrev pub on_device :
      Option Text → (Text → RouteChange h.networks.Net) → List (RouteChange h.networks.Net)
  on_device none change = []
  on_device (some iface) change = change iface ∷ []

  abbrev pub device_routes :
      (h.networks.Net → Text → RouteChange h.networks.Net)
      → List h.networks.Net
      → List (RouteChange h.networks.Net)
  device_routes change [] = []
  device_routes change (route ∷ routes) =
      on_device h.iface_name (change route) ++ device_routes change routes

  unfoldable pub bind_lighthouse : State h → SocketAddr → Text → ℕ → State h
  bind_lighthouse s addr name peer_id = record s {
    lighthouses = map (bind addr name peer_id) s.lighthouses;
  }

  -- `add_peer`, once the session is accepted.
  unfoldable pub install_peer : State h → NewPeer → Option (Peer h) → ℕ → State h
  install_peer s p previous now =
      let peer = new_peer_state p previous now in
      bind_lighthouse
        (record s {
          peers = Keyed.insert p.id peer s.peers;
          rx_sessions = replace_session (session_of previous) p.rx_session_id p.id s.rx_sessions;
          routes = insert_routes peer.routes p.id s.routes;
          device = s.device ++ device_routes add_route peer.routes;
        })
        p.addr p.cert.body.meta.name p.id

  unfoldable pub add_peer : State h → NewPeer → ℕ → State h × AddPeerOutcome
  add_peer s p now =
      let previous = Keyed.lookup p.id s.peers in
      if not (
        accept_handshake_session h.our_id p.id (initiator_of previous) p.initiator_id
          p.simultaneous)
      then (s, kept_existing)
      else (install_peer s p previous now, added)

  abbrev pub remove_found : State h → ℕ → Option (Peer h) → State h
  remove_found s peer_id none = s
  remove_found s peer_id (some peer) = record s {
    peers = Keyed.remove peer_id s.peers;
    rx_sessions = Keyed.remove peer.rx_session_id s.rx_sessions;
    routes = Routes.remove_peer h.networks s.routes peer_id;
    lighthouses = map (unbind peer_id) s.lighthouses;
    device = s.device ++ device_routes del_route peer.routes;
  }

  unfoldable pub remove_peer : State h → ℕ → State h
  remove_peer s peer_id = remove_found s peer_id (Keyed.lookup peer_id s.peers)
