-- ===== src/Peer/Ticks.antt =====
-- What one tick does, and when.
use liteway.Common.{ℕ, ◌-◌, ◌≤◌, ◌<◌, min, ◌≡◌, ◌↔◌, ◌⊎◌, none, some, arith}
use liteway.Time.{Timings, from_secs}
use liteway.Peer.{PeerState, KeepalivePending, PeerTick, keepalive_timeout, expired, tick}

module _ {Net : Type 0} where
  -- A tick drops a peer for its keepalive exactly when one has been unanswered for the timeout, and
  -- as expired exactly when none is unanswered and nothing was received for the expiry time.
  pub tick-drop_iff :
      (p : PeerState Net) (now : ℕ) (t : Timings) (token : ℕ)
      → (((tick p now t token).1 ≡ PeerTick.drop keepalive_timeout) ↔ (
          (k : KeepalivePending) × (p.keepalive ≡ some k)
          × (t.keepalive_timeout ≤ now - k.first_sent_at)))
        × (((tick p now t token).1 ≡ PeerTick.drop expired)
            ↔ ((p.keepalive ≡ none) × (t.peer_expiry ≤ now - p.last_seen)))
  unfolding tick
  tick-drop_iff p now t token = ground arith

  -- A tick sends a keepalive exactly when one is unanswered, is not timed out and was last sent at
  -- least the shorter of the interval and two seconds ago, or when none is unanswered, the peer is
  -- not expired and its last ack is an interval old. A repeated keepalive has its first token.
  pub tick-keepalive_iff :
      (p : PeerState Net) (now : ℕ) (t : Timings) (token sent : ℕ)
      → ((tick p now t token).1 ≡ PeerTick.keepalive sent) ↔ (
          ((k : KeepalivePending) × (p.keepalive ≡ some k)
            × (now - k.first_sent_at < t.keepalive_timeout)
            × (min t.keepalive_interval (from_secs 2) ≤ now - k.last_sent_at)
            × (k.token ≡ sent))
          ⊎ ((p.keepalive ≡ none)
              × (now - p.last_seen < t.peer_expiry)
              × (t.keepalive_interval ≤ now - p.last_ack)
              × (token ≡ sent)))
  unfolding tick
  tick-keepalive_iff p now t token sent = ground arith
