-- ===== src/Pending/Tests.antt =====
-- A handshake of a lighthouse's peer, and the theorems about it.
use liteway.Common.{◌+◌, ◌↔◌, ◌≤◌, ◌≡◌, refl, true, false, none, some, [], ◌∷◌, arith}
use liteway.Net.{SocketAddr, text}
use liteway.Time.{Timings, from_secs, from_millis}
use liteway.Pending.{
  HandshakeInitiate, PendingHandshake, retry_delay, new, is_expired, retransmit_due,
  relay_fallback_due, targets,
}
use liteway.Pending.Retries.{rounds, rounds-new-attempts, relay_fallback_window}

abbrev initiate : HandshakeInitiate
initiate = record { msg = 1 ∷ []; eph_x25519_sk = []; eph_mlkem_sk = []; my_rx_session_id = 5 }

abbrev timings : Timings
timings = record {
  keepalive_interval = from_secs 10;
  keepalive_timeout = from_secs 15;
  direct_probe_interval = from_secs 5;
  handshake_timeout = from_secs 15;
  relay_fallback = from_secs 2;
  peer_expiry = from_secs 300;
}

abbrev peer : SocketAddr
peer = SocketAddr.v4 10 4242

abbrev relay : SocketAddr
relay = SocketAddr.v4 11 4242

abbrev started : PendingHandshake
started = record {
  initiate = initiate;
  direct_addr = peer;
  relay_addr = none;
  peer_id = some 9;
  peer_name = text "laptop";
  created_at = 0;
  next_attempt = from_millis 500;
  attempts = 1;
}

run_of_new :
    (new initiate peer (some 9) (text "laptop") 0 ≡ started)
    × (retransmit_due started (from_millis 499) timings ≡ false)
    × (retransmit_due started (from_millis 500) timings ≡ true)
    × (targets (record started { relay_addr = some peer }) ≡ peer ∷ [])
unfolding new retry_delay retransmit_due is_expired targets
run_of_new = (refl, refl, refl, refl)

rounds-new-attempts_example :
    (rounds timings
      (new initiate peer (some 9) (text "laptop") 0)
      (from_secs 1 ∷ from_secs 2 ∷ from_secs 4 ∷ [])).attempts
    ≤ 10
rounds-new-attempts_example =
    rounds-new-attempts timings initiate peer (some 9) (text "laptop") 0
      (from_secs 1 ∷ from_secs 2 ∷ from_secs 4 ∷ [])

due : retransmit_due started (from_secs 1) timings ≡ true
unfolding retransmit_due is_expired
due = refl

abbrev sent : PendingHandshake
sent =
    rounds timings (new initiate peer (some 9) (text "laptop") 0) (from_secs 1 ∷ from_secs 2 ∷ [])

relay_fallback_window_example :
    let chosen = rounds timings (record sent { relay_addr = some relay }) (from_secs 4 ∷ []) in
    ((relay_fallback_due sent (from_secs 3) timings ≡ true) ↔ (0 + from_secs 2 ≤ from_secs 3))
    × (targets sent ≡ peer ∷ [])
    × (relay_fallback_due chosen (from_secs 3) timings ≡ false)
    × (targets chosen ≡ peer ∷ relay ∷ [])
relay_fallback_window_example =
    relay_fallback_window timings initiate peer relay 9 (text "laptop") 0 (from_secs 3)
      (from_secs 1 ∷ from_secs 2 ∷ []) (from_secs 4 ∷ []) (omega arith) (λ e. cc e)
