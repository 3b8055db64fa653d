-- ===== src/Dial/Agreement.antt =====
-- Two nodes that dial each other: which session each of them ends with. Node/Crossing relates this view
-- of a node to its handlers.
use liteway.Common.{ℕ, List, ◌≡◌, Bool, false, not, Option, none, some, ◌==◌, if◌then◌else◌}
use liteway.Dial.{accept_handshake_session}

-- A session: the id of the node that began its handshake, and the key that both ends agree on.
pub record Session : Type 0 where
  pub initiator : ℕ
  pub key : List ℕ

-- What a node knows of one peer: its session, and whether a handshake of its own waits for the answer.
pub record End : Type 0 where
  pub session : Option Session
  pub waiting : Bool

abbrev pub initiator_of : Option Session → Option ℕ
initiator_of none = none
initiator_of (some s) = some s.initiator

-- The test of `add_peer`.
abbrev pub settled : ℕ → ℕ → Option Session → Session → Bool → Option Session
settled our_id peer_id existing new simultaneous =
    if accept_handshake_session our_id peer_id (initiator_of existing) new.initiator simultaneous
    then some new
    else existing

-- As `handle_handshake_1`: the handshake that the peer began crosses one of this node that waits.
unfoldable pub opened : ℕ → ℕ → End → Session → End
opened our_id peer_id e new = record e { session = settled our_id peer_id e.session new e.waiting }

abbrev pub begun_by_other : ℕ → Option Session → Bool
begun_by_other our_id none = false
begun_by_other our_id (some existing) = not (existing.initiator == our_id)

-- As `handle_handshake_2`: the handshake of this node crosses one if the peer began the session that
-- is there. It waits no more.
unfoldable pub answered : ℕ → ℕ → End → Session → End
answered our_id peer_id e new = record e {
  session = settled our_id peer_id e.session new (begun_by_other our_id e.session);
  waiting = false;
}

-- There is no session, or this node began it.
abbrev pub BegunBy : ℕ → Option Session → Type 0
BegunBy id none = Unit
BegunBy id (some s) = s.initiator ≡ id
