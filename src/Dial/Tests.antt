-- ===== src/Dial/Tests.antt =====
-- Two nodes that dial each other.
use liteway.Common.{◌≡◌, refl, true, false, none, some, [], ◌∷◌}
use liteway.Dial.{accept_handshake_session}
use liteway.Dial.Agreement.{Session, End, opened, answered}

-- As the tests of state.rs on simultaneous handshakes.
run_of_accept :
    (accept_handshake_session 10 20 none 20 true ≡ true)
    × (accept_handshake_session 10 20 (some 20) 10 true ≡ true)
    × (accept_handshake_session 10 20 (some 10) 20 true ≡ false)
    × (accept_handshake_session 10 20 (some 10) 10 true ≡ false)
unfolding accept_handshake_session
run_of_accept = (refl, refl, refl, refl)

abbrev of_low : Session
of_low = record { initiator = 10; key = 1 ∷ [] }

abbrev of_high : Session
of_high = record { initiator = 20; key = 2 ∷ [] }

abbrev fresh : End
fresh = record { session = none; waiting = true }

abbrev again : End
again = record { session = some (record { initiator = 20; key = [] }); waiting = true }

abbrev stale : End
stale = record { session = some (record { initiator = 10; key = [] }); waiting = true }

-- An end that still has an old session of the lower id keeps it, and the other takes the new one.
run_of_stale :
    ((answered 20 10 (opened 20 10 stale of_low) of_high).session ≡ stale.session)
    × ((answered 10 20 (opened 10 20 fresh of_high) of_low).session ≡ some of_low)
unfolding opened answered accept_handshake_session
run_of_stale = (refl, refl)
