-- ===== src/Node/Discovery.antt =====
-- The lighthouses that the node of litewayd/src/main.rs keeps a session with, and what it asks them.
use liteway.Common.{
  ℕ, Bool, false, not, ◌||◌, Option, none, some, List, [], ◌∷◌, map, ltb, if◌then◌else◌, is_some,
}
use liteway.Common.Keyed
use liteway.Common.Keyed.{nat_eq}
use liteway.Net.{text_eqb, IpAddr, ip_eq, SocketAddr, addr_eqb}
use liteway.Time.{duration_since}
use liteway.Wire.{serialize_packet}
use liteway.Wire.Body.{encrypt_lighthouse_query_packet}
use liteway.Node.{
  Host, Clock, State, PeerTx, crates, LighthouseSlot, discovery_retry, lighthouse_reresolve,
  unwrap_or, send_message, peer_tx, next_draw, drew,
}
use liteway.Node.Sessions.{start_handshake}

-- The slot with the address that its name now has.
abbrev pub moved : SocketAddr → ℕ → LighthouseSlot → LighthouseSlot
moved resolved now slot =
    if addr_eqb slot.address resolved
    then record slot { resolved_at = now }
    else record slot { address = resolved; peer_id = none; resolved_at = now }

abbrev pub refresh_slot : LighthouseSlot → SocketAddr → ℕ → LighthouseSlot → LighthouseSlot
refresh_slot lighthouse resolved now slot =
    if not (text_eqb slot.name lighthouse.name)
      || not (text_eqb slot.configured lighthouse.configured)
    then slot
    else moved resolved now slot

-- The peers of the lighthouses.
abbrev pub with_peer : Option ℕ → List ℕ → List ℕ
with_peer none rest = rest
with_peer (some peer_id) rest = peer_id ∷ rest

abbrev pub query_targets : List LighthouseSlot → List ℕ
query_targets [] = []
query_targets (slot ∷ slots) = with_peer slot.peer_id (query_targets slots)

-- Whether the address was asked for within the last ten seconds.
abbrev pub asked_lately : Option ℕ → ℕ → Bool
asked_lately none now = false
asked_lately (some last) now = ltb (duration_since now last) discovery_retry

module _ (h : Host) where
  unfoldable pub refresh_lighthouse_address : State h → LighthouseSlot → ℕ → State h × SocketAddr
  refresh_lighthouse_address s lighthouse now =
      let resolved = unwrap_or lighthouse.address (h.resolve_socket_addr lighthouse.configured) in
      if ltb (duration_since now lighthouse.resolved_at) lighthouse_reresolve
      then (s, lighthouse.address)
      else (
        record s { lighthouses = map (refresh_slot lighthouse resolved now) s.lighthouses },
        resolved,
      )

  abbrev pub is_connected : State h → Option ℕ → Bool
  is_connected s none = false
  is_connected s (some peer_id) = is_some (Keyed.lookup peer_id s.peers)

  abbrev pub dial : LighthouseSlot → Clock → State h × SocketAddr → State h
  dial lighthouse clock (s, address) = (start_handshake h s address none lighthouse.name clock).0

  -- The loop over the slots, each with whether it was connected before the loop.
  unfoldable pub connect_each : State h → List (LighthouseSlot × Bool) → Clock → State h
  connect_each s [] clock = s
  connect_each s ((lighthouse, connected) ∷ rest) clock =
      if not s.running
      then s
      else let next =
          if connected
          then s
          else dial lighthouse clock (refresh_lighthouse_address s lighthouse clock.now) in
        connect_each next rest clock

  unfoldable pub connect_lighthouses : State h → Clock → State h
  connect_lighthouses s clock =
      connect_each s (map (λ slot. (slot, is_connected s slot.peer_id)) s.lighthouses) clock

  abbrev pub query_with : ℕ → IpAddr → State h × Option PeerTx → State h
  query_with peer_id dst_ip (s, none) = s
  query_with peer_id dst_ip (s, some tx) =
      let pkt =
        encrypt_lighthouse_query_packet (crates h) tx.seq peer_id tx.session_id dst_ip h.network_key
          tx.key (next_draw h s) in
      (send_message h (drew h s) (serialize_packet pkt) tx.addr peer_id).0

  unfoldable pub query_each : State h → List ℕ → IpAddr → State h
  query_each s [] dst_ip = s
  query_each s (peer_id ∷ rest) dst_ip =
      query_each (query_with peer_id dst_ip (peer_tx h s peer_id)) rest dst_ip

  unfoldable pub request_discovery : State h → IpAddr → ℕ → State h
  request_discovery s dst_ip now =
      if asked_lately (Keyed.lookup dst_ip s.discovery_pending) now
      then s
      else query_each (record s { discovery_pending = Keyed.insert dst_ip now s.discovery_pending })
          (query_targets s.lighthouses) dst_ip
