-- ===== src/Peer/Liveness.antt =====
-- A session whose keepalives are not answered is dropped, whatever arrives.
use liteway.Common.{ℕ, ◌+◌, ◌-◌, ◌≤◌, ◌<◌, ◌≡◌, ◌≢◌, Option, none, some, List, [], ◌∷◌, arith, All}
use liteway.Time.{Timings}
use liteway.Peer.{
  PeerState, KeepalivePending, PeerTick, keepalive_timeout, idle, next_seq, mark_seen,
  ack_keepalive, tick, take_path_probe,
}
use liteway.Peer.Events.{Event, ticks, sees, acks, probes, sends, step, run}

-- A keepalive with this token, first sent at this time, has no answer.
abbrev pub Unanswered : ℕ → ℕ → Option KeepalivePending → Type 0
Unanswered token first none = ⊥
Unanswered token first (some k) = (k.token ≡ token) × (k.first_sent_at ≡ first)

abbrev pub NotAck : ℕ → ℕ × Event → Type 0
NotAck token (now, ticks other) = Unit
NotAck token (now, sees src r k) = Unit
NotAck token (now, acks other) = other ≢ token
NotAck token (now, probes other) = Unit
NotAck token (now, sends) = Unit

module _ {Net : Type 0} where
  step-Unanswered :
      (t : Timings) (p : PeerState Net) (now : ℕ) (e : Event) (token first : ℕ)
      → NotAck token (now, e)
      → Unanswered token first p.keepalive
      → Unanswered token first (step t p now e).keepalive
  unfolding step tick mark_seen ack_keepalive take_path_probe next_seq
  step-Unanswered t p now (ticks x) token first n u = ground arith
  step-Unanswered t p now e token first n u = ground arith

  run-Unanswered :
      (t : Timings) (p : PeerState Net) (es : List (ℕ × Event)) (token first : ℕ)
      → All (NotAck token) es
      → Unanswered token first p.keepalive
      → Unanswered token first (run t p es).keepalive
  unfolding run
  run-Unanswered t p [] token first n u = u
  run-Unanswered t p ((now, e) ∷ es) token first n u =
      run-Unanswered t (step t p now e) es token first n.1
        (step-Unanswered t p now e token first n.0 u)

  Unanswered-drop :
      (t : Timings) (p : PeerState Net) (now token first other : ℕ)
      → Unanswered token first p.keepalive
      → first + t.keepalive_timeout ≤ now
      → (tick p now t other).1 ≡ PeerTick.drop keepalive_timeout
  unfolding tick
  Unanswered-drop t p now token first other u late = ground arith

  -- Once a keepalive is unanswered, no traffic that arrives, no probe, no packet sent and no other
  -- ack saves the session: after any events but an ack of its token, a tick that comes the timeout
  -- or more after it was first sent drops the peer.
  pub run_dead_drop :
      (t : Timings) (p : PeerState Net) (es : List (ℕ × Event)) (now token first other : ℕ)
      → All (NotAck token) es
      → Unanswered token first p.keepalive
      → first + t.keepalive_timeout ≤ now
      → (tick (run t p es) now t other).1 ≡ PeerTick.drop keepalive_timeout
  run_dead_drop t p es now token first other n u late =
      Unanswered-drop t (run t p es) now token first other (run-Unanswered t p es token first n u)
        late

  -- After a tick that sent a keepalive, the ack of its token ends the wait and is noted as the last
  -- ack, and a tick less than an interval after the ack does nothing, if something was received
  -- from the peer within the expiry time.
  pub tick-ack_idle :
      (t : Timings) (p : PeerState Net) (sent acked now token other : ℕ)
      → (tick p sent t token).1 ≡ PeerTick.keepalive token
      → now - acked < t.keepalive_interval
      → now - p.last_seen < t.peer_expiry
      → let q = (ack_keepalive (tick p sent t token).0 token acked).0 in
        (q.keepalive ≡ none) × (q.last_ack ≡ acked) × ((tick q now t other).1 ≡ idle)
  unfolding tick ack_keepalive
  tick-ack_idle t p sent acked now token other s h k = ground arith
