-- ===== src/Cache/Tests.antt =====
-- A cache of two answers, and the theorems about it.
use liteway.Common.{◌≡◌, refl, none, some, [], ◌∷◌, arith}
use liteway.Time.{from_secs}
use liteway.Cache.{HandshakeCache, CachedHandshake, get, cleanup, make_room, insert}
use liteway.Cache.Answers.{IsValid, cache-IsValid, get-insert}

abbrev old : CachedHandshake
old = record { response = 1 ∷ []; peer_id = 3; created_at = 0 }

abbrev recent : CachedHandshake
recent = record { response = 2 ∷ []; peer_id = 4; created_at = from_secs 30 }

abbrev cache : HandshakeCache
cache = record { entries = (8 ∷ [], old) ∷ (9 ∷ [], recent) ∷ [] }

two-IsValid : IsValid cache
two-IsValid = record { distinct = (refl, (refl, tt)); small = omega arith }

run_of_get :
    (get cache (8 ∷ []) (from_secs 59) ≡ some old)
    × (get cache (8 ∷ []) (from_secs 60) ≡ none)
    × (get (insert cache (8 ∷ []) (5 ∷ []) 6 (from_secs 70)) (9 ∷ []) (from_secs 71) ≡ some recent)
unfolding get insert make_room
run_of_get = (refl, refl, refl)

cache-IsValid_example :
    IsValid (insert cache (7 ∷ []) (5 ∷ []) 6 (from_secs 70))
    × IsValid (cleanup cache (from_secs 70))
cache-IsValid_example = cache-IsValid cache (7 ∷ []) (5 ∷ []) 6 (from_secs 70) two-IsValid

get-insert_example :
    get (insert cache (7 ∷ []) (5 ∷ []) 6 (from_secs 70)) (7 ∷ []) (from_secs 80)
    ≡ some (record { response = 5 ∷ []; peer_id = 6; created_at = from_secs 70 })
get-insert_example = get-insert cache (7 ∷ []) (5 ∷ []) 6 (from_secs 70) (from_secs 80)
