-- ===== src/Dial.antt =====
-- `accept_handshake_session` of litewayd/src/state.rs: which of two crossing handshakes stays.
pub mod Agreement
mod Tests
use liteway.Common.{ℕ, min, Bool, true, false, not, Option, none, some, ◌==◌, if◌then◌else◌}

abbrev pub replaces : Option ℕ → ℕ → ℕ → Bool
replaces none initiator_id preferred = true
replaces (some existing) initiator_id preferred =
    if not (initiator_id == preferred) then false else not (existing == preferred)

unfoldable pub accept_handshake_session : ℕ → ℕ → Option ℕ → ℕ → Bool → Bool
accept_handshake_session our_id peer_id existing_initiator_id initiator_id simultaneous =
    if not simultaneous
    then true
    else replaces existing_initiator_id initiator_id (min our_id peer_id)
