-- ===== src/Replay/Tests.antt =====
-- Runs of the replay window, and the theorems about it at concrete packets.
use liteway.Common.{ℕ, ◌≡◌, refl, List, [], ◌∷◌}
use liteway.Replay.{new, shl, slide, is_seen, mark, accept}
use liteway.Replay.History.{NoRepeat, offer, admitted, offer-new_refines, offer-new-NoRepeat}

abbrev packets : List ℕ
packets = 5 ∷ 5 ∷ 4 ∷ 200 ∷ 5 ∷ 140 ∷ 140 ∷ []

-- The test `replay_window_rejects_duplicates_and_old_sequences`, with one late packet more.
run_of_packets : (offer new [] packets).1 ≡ 140 ∷ 200 ∷ 4 ∷ 5 ∷ []
unfolding new accept slide is_seen mark shl offer
run_of_packets = refl

offer-new_refines_example : (offer new [] packets).1 ≡ admitted [] packets
offer-new_refines_example = offer-new_refines packets

offer-new-NoRepeat_example : NoRepeat (offer new [] packets).1
offer-new-NoRepeat_example = offer-new-NoRepeat packets
