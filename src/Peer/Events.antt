-- ===== src/Peer/Events.antt =====
-- The events of a session between its start and its end, and runs of them.
use liteway.Common.{ℕ, Bool, List, [], ◌∷◌}
use liteway.Net.{SocketAddr}
use liteway.Time.{Timings}
use liteway.Peer.{PeerState, next_seq, mark_seen, ack_keepalive, tick, take_path_probe}

-- What the daemon does with a peer, each at its own time: a tick with a fresh token, a packet from
-- a source (from a relay, and a keepalive or not), an ack, a path probe with a fresh token, a packet
-- sent.
pub data Event : Type 0 where
  ticks : ℕ → Event
  sees : SocketAddr → Bool → Bool → Event
  acks : ℕ → Event
  probes : ℕ → Event
  sends : Event

module _ {Net : Type 0} where
  unfoldable pub step : Timings → PeerState Net → ℕ → Event → PeerState Net
  step t p now (ticks token) = (tick p now t token).0
  step t p now (sees src src_is_relay is_keepalive) =
      (mark_seen p src now src_is_relay is_keepalive).0
  step t p now (acks token) = (ack_keepalive p token now).0
  step t p now (probes token) = (take_path_probe p now t token).0
  step t p now sends = (next_seq p).0

  unfoldable pub run : Timings → PeerState Net → List (ℕ × Event) → PeerState Net
  run t p [] = p
  run t p ((now, e) ∷ es) = run t (step t p now e) es
