-- ===== src/Cache/Answers.antt =====
-- The cache stays small, and a repeated handshake gets the answer it had.
use liteway.Common.{
  ℕ, ◌+◌, ◌-◌, ◌≤◌, ◌<◌, ◌≡◌, refl, ap, ◌≢◌, inl, inr, Bool, true, Option, none, some, List, [],
  ◌∷◌, arith, ltb, if◌then◌else◌, length, is_some, Option-cases,
}
use liteway.Common.Keyed
use liteway.Common.Keyed.{
  Distinct, length-insert, length-remove-le, length-retain-le, lookup-insert, lookup-retain-none,
  insert-Distinct, remove-Distinct, retain-Distinct, eqb_refl,
}
use liteway.Net.{Text, text_eq, text_eqb_iff}
use liteway.Cache.{
  HandshakeCache, CachedHandshake, is_fresh, get, cleanup, oldest, without, make_room, insert,
}

abbrev Entries : Type 0
Entries = List (Text × CachedHandshake)

pub record IsValid (c : HandshakeCache) : Type 0 where
  pub distinct : Distinct c.entries
  pub small : length c.entries ≤ 256

length-remove_found :
    (k : Text) (v : CachedHandshake) (m : Entries)
    → Keyed.lookup k m ≡ some v
    → length (Keyed.remove k m) + 1 ≡ length m
length-remove_found k v [] e = cc
length-remove_found k v ((j, w) ∷ m) e = ground (arith, length-remove_found k v m)

-- The oldest entry stands in the map.
oldest_found :
    (m : Entries) (k : Text) (at : ℕ) → oldest m ≡ some (k, at) → is_some (Keyed.lookup k m) ≡ true
unfolding oldest
oldest_found [] k at e = cc
oldest_found ((j, w) ∷ m) k at e = elim (Option-cases (oldest m)) [
  | inl e' ↦ ground (arith, text_eqb_iff j k)
  | inr ((k', at'), e') ↦ ground (arith, text_eqb_iff j k, oldest_found m k' at' e')
]

oldest-eq-none : (m : Entries) → oldest m ≡ none → m ≡ []
unfolding oldest
oldest-eq-none [] e = refl
oldest-eq-none ((j, w) ∷ m) e = ground arith

without-length : (m : Entries) → 256 ≤ length m → length (without (oldest m) m) + 1 ≡ length m
without-length m h = elim (Option-cases (oldest m)) [
  | inl e ↦ absurd (omega (arith, ap length (oldest-eq-none m e)))
  | inr ((k, at), e) ↦ elim (Option-cases (Keyed.lookup k m)) [
    | inl f ↦ cc (oldest_found m k at e, f)
    | inr (v, f) ↦ rw e (length-remove_found k v m f)
  ]
]

without-Distinct : (o : Option (Text × ℕ)) (m : Entries) → Distinct m → Distinct (without o m)
without-Distinct none m d = d
without-Distinct (some (k, at)) m d = remove-Distinct k m d

make_room-IsValid :
    (c : HandshakeCache) (now : ℕ)
    → IsValid c
    → Distinct (make_room c now).entries × (length (make_room c now).entries < 256)
unfolding make_room cleanup
make_room-IsValid c now v = ground (
  arith,
  v.distinct,
  retain-Distinct (λ key entry. is_fresh now entry) c.entries,
  length-retain-le (λ key entry. is_fresh now entry) c.entries,
  without-length c.entries,
  without-length (Keyed.retain (λ key entry. is_fresh now entry) c.entries),
  without-Distinct (oldest c.entries) c.entries,
  without-Distinct (oldest (Keyed.retain (λ key entry. is_fresh now entry) c.entries))
      (Keyed.retain (λ key entry. is_fresh now entry) c.entries),
)

-- An insertion into a cache that holds one answer for each hash and 256 answers at most gives such
-- a cache, and so does a cleanup.
pub cache-IsValid :
    (c : HandshakeCache) (key : Text) (response : List ℕ) (peer_id now : ℕ)
    → IsValid c
    → IsValid (insert c key response peer_id now) × IsValid (cleanup c now)
unfolding insert cleanup
cache-IsValid c key response peer_id now v =
    let entry : CachedHandshake = record {
      response = response;
      peer_id = peer_id;
      created_at = now;
    } in
    let (distinct, small) = make_room-IsValid c now v in
    (
      record {
        distinct = insert-Distinct key entry (make_room c now).entries distinct;
        small = ground (arith, length-insert key entry (make_room c now).entries, small);
      },
      record {
        distinct = retain-Distinct (λ key entry. is_fresh now entry) c.entries v.distinct;
        small =
            omega (arith, length-retain-le (λ key entry. is_fresh now entry) c.entries, v.small);
      },
    )

-- After an insertion the hash gives the answer inserted for a minute, and nothing from then on.
pub get-insert :
    (c : HandshakeCache) (key : Text) (response : List ℕ) (peer_id now later : ℕ)
    → get (insert c key response peer_id now) key later ≡ (
        if ltb (later - now) 60_000_000_000
        then some (record { response = response; peer_id = peer_id; created_at = now })
        else none)
unfolding get insert
get-insert c key response peer_id now later =
    let entry : CachedHandshake = record {
      response = response;
      peer_id = peer_id;
      created_at = now;
    } in
    rw (lookup-insert key key entry (make_room c now).entries, eqb_refl {A = Text} key)

retain-lookup :
    (p : CachedHandshake → Bool) (k : Text) (m : Entries)
    → Distinct m
    → Keyed.lookup k (Keyed.retain (λ key entry. p entry) m)
      ≡ (elim (Keyed.lookup k m) [ none ↦ none | some v ↦ if p v then some v else none ])
retain-lookup p k [] d = refl
retain-lookup p k ((j, w) ∷ m) d = ground (arith, text_eqb_iff j k, retain-lookup p k m d.1, d.0)

-- Dropping the old answers of a valid cache changes no answer that is given then or later.
pub get-cleanup :
    (c : HandshakeCache) (key : Text) (now later : ℕ)
    → IsValid c
    → now ≤ later
    → get (cleanup c now) key later ≡ get c key later
unfolding get cleanup
get-cleanup c key now later v le =
    ground (arith, retain-lookup (is_fresh now) key c.entries v.distinct)

-- While there is room for another answer, an insertion changes the answer to no other hash.
pub get-insert_ne :
    (c : HandshakeCache) (key other : Text) (response : List ℕ) (peer_id now later : ℕ)
    → length c.entries < 256
    → key ≢ other
    → get (insert c key response peer_id now) other later ≡ get c other later
unfolding get insert make_room
get-insert_ne c key other response peer_id now later room ne =
    let entry : CachedHandshake = record {
      response = response;
      peer_id = peer_id;
      created_at = now;
    } in
    ground (arith, lookup-insert key other entry c.entries, text_eqb_iff key other)
