-- ===== src/Node/Overlay.antt =====
-- Packets of the device that go to a peer, and the end of the node, in litewayd/src/main.rs.
use liteway.Common.{
  ℕ, ◌/◌, ◌*◌, ◌^◌, Bool, ◌||◌, Option, none, some, List, [], ◌∷◌, leb, ◌==◌, if◌then◌else◌,
}
use liteway.Net.{IpAddr, v4, v6}
use liteway.Time.{from_millis}
use liteway.Peer.{next_seq}
use liteway.Policy.{parse_dest_ip, is_link_local, is_overlay_broadcast}
use liteway.Routes
use liteway.Wire.{serialize_packet}
use liteway.Wire.Body.{encrypt_data_packet, encrypt_disconnect_packet}
use liteway.Node.{Host, State, Peer, PeerTx, crates, send_wire, peer_tx, next_draw, drew}
use liteway.Node.Discovery.{request_discovery}

-- In nanoseconds.
unfoldable pub tun_poll_backoff : ℕ → ℕ
tun_poll_backoff idle_reads =
    if leb idle_reads 64
    then 200 * 1_000
    else if leb idle_reads 320
    then from_millis 1
    else from_millis 10

-- 224.0.0.0/4 and ff00::/8, as the standard library has them.
unfoldable pub is_multicast : IpAddr → Bool
is_multicast (v4 a) = a / 2 ^ 28 == 0xe
is_multicast (v6 a) = a / 2 ^ 120 == 0xff

module _ (h : Host) where
  abbrev pub data_with : ℕ → List ℕ → State h × Option PeerTx → State h
  data_with peer_id ip_packet (s, none) = s
  data_with peer_id ip_packet (s, some tx) =
      send_wire h (drew h s)
        (serialize_packet (
          encrypt_data_packet (crates h) tx.seq peer_id tx.session_id ip_packet h.network_key tx.key
            (next_draw h s)))
        tx.addr

  abbrev pub forward : State h → List ℕ → IpAddr → ℕ → Option ℕ → State h
  forward s ip_packet dst_ip now none = request_discovery h s dst_ip now
  forward s ip_packet dst_ip now (some peer_id) = data_with peer_id ip_packet (peer_tx h s peer_id)

  abbrev pub to_destination : State h → List ℕ → List h.networks.Net → ℕ → Option IpAddr → State h
  to_destination s ip_packet overlay_networks now none = s
  to_destination s ip_packet overlay_networks now (some dst_ip) =
      if is_multicast dst_ip || is_link_local dst_ip
      then s
      else if is_overlay_broadcast h.networks dst_ip overlay_networks
      then s
      else forward s ip_packet dst_ip now (Routes.lookup h.networks s.routes dst_ip)

  unfoldable pub send_to_overlay : State h → List ℕ → List h.networks.Net → ℕ → State h
  send_to_overlay s ip_packet overlay_networks now =
      to_destination s ip_packet overlay_networks now (parse_dest_ip ip_packet)

  -- The peers with the next number of each taken, and what each is sent.
  abbrev pub numbered : List (ℕ × Peer h) → List (ℕ × Peer h)
  numbered [] = []
  numbered ((peer_id, peer) ∷ rest) = (peer_id, (next_seq peer).0) ∷ numbered rest

  abbrev pub disconnect_each : State h → List (ℕ × Peer h) → State h
  disconnect_each s [] = s
  disconnect_each s ((peer_id, peer) ∷ rest) =
      let (next, seq) = next_seq peer in
      disconnect_each
        (send_wire h (drew h s)
          (serialize_packet (
            encrypt_disconnect_packet (crates h) seq peer_id next.tx_session_id h.network_key
              next.tx_key (next_draw h s)))
          next.addr)
        rest

  unfoldable pub notify_shutdown : State h → State h
  notify_shutdown s = disconnect_each (record s { peers = numbered s.peers }) s.peers
