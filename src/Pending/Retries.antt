-- ===== src/Pending/Retries.antt =====
-- How often and how long a handshake is retried.
use liteway.Common.{
  ℕ, zero, suc, ◌+◌, ◌-◌, ◌≤◌, ◌<◌, min, ◌≡◌, refl, ap, ◌∙◌, ◌↔◌, ◌≢◌, ◌⊎◌, inl, inr, true, false,
  Option, none, some, List, [], ◌∷◌, arith, if◌then◌else◌,
}
use liteway.Net.{SocketAddr, addr_eqb_iff}
use liteway.Time.{Timings, from_secs, from_millis}
use liteway.Pending.{
  PendingHandshake, HandshakeInitiate, retry_delay, new, is_expired, retransmit_due, record_attempt,
  relay_fallback_due, targets,
}

-- Half a second, then one, two and three seconds.
delay_cases :
    (n : ℕ)
    → ((n ≤ 1) × (retry_delay n ≡ from_millis 500))
      ⊎ ((n ≡ 2) × (retry_delay n ≡ from_secs 1))
      ⊎ ((n ≡ 3) × (retry_delay n ≡ from_secs 2))
      ⊎ ((4 ≤ n) × (retry_delay n ≡ from_secs 3))
unfolding retry_delay
delay_cases zero = inl (omega arith, refl)
delay_cases (suc zero) = inl (omega arith, refl)
delay_cases (suc (suc zero)) = inr (inl (refl, refl))
delay_cases (suc (suc (suc zero))) = inr (inr (inl (refl, refl)))
delay_cases (suc (suc (suc (suc n)))) =
    let exponent : min (min (suc (suc (suc (suc n))) - 1) 8) 3 ≡ 3 = omega arith in
    inr (inr (inr (omega arith, rw exponent)))

-- The delay never falls as attempts grow, and lies between half a second and three seconds.
pub retry_delay_bounds :
    (m n : ℕ)
    → m ≤ n
    → (retry_delay m ≤ retry_delay n)
      × (from_millis 500 ≤ retry_delay m)
      × (retry_delay n ≤ from_secs 3)
retry_delay_bounds m n h = omega (arith, delay_cases m, delay_cases n)

-- One round of the maintenance thread for a handshake that is kept: it is sent again if it is due.
unfoldable pub round : Timings → PendingHandshake → ℕ → PendingHandshake
round t h now = if retransmit_due h now t then record_attempt h now else h

unfoldable pub rounds : Timings → PendingHandshake → List ℕ → PendingHandshake
rounds t h [] = h
rounds t h (now ∷ rest) = rounds t (round t h now) rest

rounds-attempts :
    (t : Timings) (h : PendingHandshake) (times : List ℕ)
    → h.attempts ≤ 10
    → (rounds t h times).attempts ≤ 10
unfolding rounds round retransmit_due record_attempt
rounds-attempts t h [] a = a
rounds-attempts t h (now ∷ rest) a = rounds-attempts t (round t h now) rest (ground arith)

-- A new handshake, which counts its first attempt, never counts more than ten, however often and
-- whenever the maintenance looks at it.
pub rounds-new-attempts :
    (t : Timings) (i : HandshakeInitiate) (addr : SocketAddr) (peer_id : Option ℕ) (name : List ℕ)
    (now : ℕ) (times : List ℕ)
    → (rounds t (new i addr peer_id name now) times).attempts ≤ 10
rounds-new-attempts t i addr peer_id name now times =
    rounds-attempts t (new i addr peer_id name now) times (unfold new in omega arith)

-- A handshake that is due is sent and counted once in a round, and a round less than half a second
-- later does nothing.
pub round_paced :
    (t : Timings) (h : PendingHandshake) (now later : ℕ)
    → retransmit_due h now t ≡ true
    → later < now + from_millis 500
    → ((round t h now).attempts ≡ h.attempts + 1) × (round t (round t h now) later ≡ round t h now)
unfolding round record_attempt retransmit_due is_expired
round_paced t h now later d l = ground (arith, retry_delay_bounds (h.attempts + 1) (h.attempts + 1))

-- What the rounds of the maintenance leave alone.
record Stays (h k : PendingHandshake) : Type 0 where
  created_at : k.created_at ≡ h.created_at
  peer_id : k.peer_id ≡ h.peer_id
  relay_addr : k.relay_addr ≡ h.relay_addr
  direct_addr : k.direct_addr ≡ h.direct_addr

round-Stays : (t : Timings) (h : PendingHandshake) (now : ℕ) → Stays h (round t h now)
unfolding round record_attempt
round-Stays t h now = record {
  created_at = ground arith;
  peer_id = ground arith;
  relay_addr = ground arith;
  direct_addr = ground arith;
}

rounds-Stays : (t : Timings) (h : PendingHandshake) (times : List ℕ) → Stays h (rounds t h times)
unfolding rounds
rounds-Stays t h [] = record {
  created_at = refl;
  peer_id = refl;
  relay_addr = refl;
  direct_addr = refl;
}
rounds-Stays t h (now ∷ rest) =
    let first = round-Stays t h now in
    let later = rounds-Stays t (round t h now) rest in
    record {
      created_at = later.created_at ∙ first.created_at;
      peer_id = later.peer_id ∙ first.peer_id;
      relay_addr = later.relay_addr ∙ first.relay_addr;
      direct_addr = later.direct_addr ∙ first.direct_addr;
    }

due_iff :
    (t : Timings) (h : PendingHandshake) (id now : ℕ)
    → h.peer_id ≡ some id
    → h.relay_addr ≡ none
    → h.created_at ≤ now
    → (relay_fallback_due h now t ≡ true) ↔ (h.created_at + t.relay_fallback ≤ now)
unfolding relay_fallback_due
due_iff t h id now p r old = ground arith

chosen_never :
    (t : Timings) (h : PendingHandshake) (relay : SocketAddr) (now : ℕ)
    → h.relay_addr ≡ some relay
    → relay_fallback_due h now t ≡ false
unfolding relay_fallback_due
chosen_never t h relay now r = ground arith

one_target : (h : PendingHandshake) → h.relay_addr ≡ none → targets h ≡ h.direct_addr ∷ []
unfolding targets
one_target h r = ground arith

two_targets :
    (h : PendingHandshake) (relay : SocketAddr)
    → h.relay_addr ≡ some relay
    → relay ≢ h.direct_addr
    → targets h ≡ h.direct_addr ∷ relay ∷ []
unfolding targets
two_targets h relay r ne = ground (arith, addr_eqb_iff relay h.direct_addr)

-- A handshake with a peer known by id is begun and sent again in any rounds of the maintenance. Its
-- relay is due exactly from the fallback time after its beginning on, however often it was sent, and
-- until a relay is chosen the direct endpoint is its only target. Once a relay at another address is
-- chosen, then after any more rounds both are its targets, and the relay is never due again.
pub relay_fallback_window :
    (t : Timings) (i : HandshakeInitiate) (addr relay : SocketAddr) (id : ℕ) (name : List ℕ)
    (start now : ℕ) (times more : List ℕ)
    → start ≤ now
    → relay ≢ addr
    → let h = rounds t (new i addr (some id) name start) times in
      let chosen = rounds t (record h { relay_addr = some relay }) more in
      ((relay_fallback_due h now t ≡ true) ↔ (start + t.relay_fallback ≤ now))
      × (targets h ≡ addr ∷ [])
      × (relay_fallback_due chosen now t ≡ false)
      × (targets chosen ≡ addr ∷ relay ∷ [])
unfolding new
relay_fallback_window t i addr relay id name start now times more old ne =
    let begun = new i addr (some id) name start in
    let h = rounds t begun times in
    let kept = rounds-Stays t begun times in
    let with_relay : PendingHandshake = record h { relay_addr = some relay } in
    let chosen = rounds t with_relay more in
    let after = rounds-Stays t with_relay more in
    let due = due_iff t h id now kept.peer_id kept.relay_addr (omega (arith, kept.created_at)) in
    let both = after.direct_addr ∙ kept.direct_addr in
    (
      (λ e. omega (arith, due.0 e, kept.created_at), λ e. due.1 (omega (arith, kept.created_at))),
      one_target h kept.relay_addr ∙ ap (λ a. a ∷ []) kept.direct_addr,
      chosen_never t chosen relay now after.relay_addr,
      two_targets chosen relay after.relay_addr (λ e. ne (e ∙ both))
          ∙ ap (λ a. a ∷ relay ∷ []) both,
    )
