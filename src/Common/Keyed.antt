-- ===== src/Common/Keyed.antt =====
-- Keys that can be compared, and `HashMap` as an association list without repeated keys.
-- The order in which a `HashMap` is iterated is not specified. The list has one; where a result
-- depends on it, the comment at that definition says so.
use liteway.Common.{
  ℕ, suc, ◌+◌, ◌≤◌, ◌≡◌, refl, ◌≢◌, ◌↔◌, inl, inr, Bool, true, false, Option, none, some, List, [],
  ◌∷◌, arith, ◌==◌, ==_iff, if◌then◌else◌, length, is_some, Bool-cases,
}

pub record Eq {ℓ} (A : Type ℓ) : Type ℓ where
  pub eqb : A → A → Bool
  pub eqb_iff : (a b : A) → (eqb a b ≡ true) ↔ (a ≡ b)

instance abbrev pub nat_eq : Eq ℕ
nat_eq = record { eqb = ◌==◌; eqb_iff = ==_iff }

-- `a == b` on two options.
abbrev pub option_eqb {ℓ} : {A : Type ℓ} → (A → A → Bool) → Option A → Option A → Bool
option_eqb f none none = true
option_eqb f none (some b) = false
option_eqb f (some a) none = false
option_eqb f (some a) (some b) = f a b

module _ {ℓ} {A : Type ℓ} ⦃e : Eq A⦄ where
  pub eqb_refl : (a : A) → e.eqb a a ≡ true
  eqb_refl a = (e.eqb_iff a a).1 refl

  pub eqb_ne : (a b : A) → a ≢ b → e.eqb a b ≡ false
  eqb_ne a b h = elim (Bool-cases (e.eqb a b)) [
    | inl same ↦ absurd (h ((e.eqb_iff a b).0 same))
    | inr other ↦ other
  ]

  pub option_eqb_iff : (a b : Option A) → (option_eqb e.eqb a b ≡ true) ↔ (a ≡ b)
  option_eqb_iff none none = (λ _. refl, λ _. refl)
  option_eqb_iff none (some b) = (λ h. cc, λ h. cc)
  option_eqb_iff (some a) none = (λ h. cc, λ h. cc)
  option_eqb_iff (some a) (some b) = ground (arith, e.eqb_iff a b)

module _ {ℓ κ} {K : Type ℓ} {V : Type κ} ⦃e : Eq K⦄ where
  abbrev pub lookup : K → List (K × V) → Option V
  lookup k [] = none
  lookup k ((j, v) ∷ m) = if e.eqb j k then some v else lookup k m

  abbrev pub insert : K → V → List (K × V) → List (K × V)
  insert k v [] = (k, v) ∷ []
  insert k v ((j, w) ∷ m) = if e.eqb j k then (j, v) ∷ m else (j, w) ∷ insert k v m

  abbrev pub remove : K → List (K × V) → List (K × V)
  remove k [] = []
  remove k ((j, w) ∷ m) = if e.eqb j k then m else (j, w) ∷ remove k m

  -- No key stands twice.
  abbrev pub Distinct : List (K × V) → Type κ
  Distinct [] = Unit
  Distinct ((k, v) ∷ m) = (lookup k m ≡ none) × Distinct m

module _ {ℓ κ} {K : Type ℓ} {V : Type κ} where
  abbrev pub retain : (K → V → Bool) → List (K × V) → List (K × V)
  retain p [] = []
  retain p ((k, v) ∷ m) = if p k v then (k, v) ∷ retain p m else retain p m

  -- A sum over the entries.
  abbrev pub total : (K → V → ℕ) → List (K × V) → ℕ
  total f [] = 0
  total f ((k, v) ∷ m) = f k v + total f m

  abbrev pub of_entry : (K → V → ℕ) → K → Option V → ℕ
  of_entry f k none = 0
  of_entry f k (some v) = f k v

  pub total-retain-le :
      (f : K → V → ℕ) (p : K → V → Bool) (m : List (K × V)) → total f (retain p m) ≤ total f m
  total-retain-le f p [] = omega arith
  total-retain-le f p ((k, v) ∷ m) = ground (arith, total-retain-le f p m)

  pub length-retain-le : (p : K → V → Bool) (m : List (K × V)) → length (retain p m) ≤ length m
  length-retain-le p [] = omega arith
  length-retain-le p ((k, v) ∷ m) = ground (arith, length-retain-le p m)

module _ {ℓ κ} {K : Type ℓ} {V : Type κ} ⦃e : Eq K⦄ where
  pub lookup-insert :
      (k j : K) (v : V) (m : List (K × V))
      → lookup j (insert k v m) ≡ (if e.eqb k j then some v else lookup j m)
  lookup-insert k j v [] = refl
  lookup-insert k j v ((i, w) ∷ m) =
      ground (arith, e.eqb_iff k j, e.eqb_iff i k, e.eqb_iff i j, lookup-insert k j v m)

  pub lookup-remove_ne :
      (k j : K) (m : List (K × V)) → k ≢ j → lookup j (remove k m) ≡ lookup {V = V} j m
  lookup-remove_ne k j [] h = refl
  lookup-remove_ne k j ((i, w) ∷ m) h =
      ground (arith, e.eqb_iff i k, e.eqb_iff i j, lookup-remove_ne k j m h)

  pub lookup-remove_self :
      (k : K) (m : List (K × V)) → Distinct m → lookup {V = V} k (remove k m) ≡ none
  lookup-remove_self k [] d = refl
  lookup-remove_self k ((i, w) ∷ m) d = ground (arith, e.eqb_iff i k, lookup-remove_self k m d.1)

  pub insert-Distinct : (k : K) (v : V) (m : List (K × V)) → Distinct m → Distinct (insert k v m)
  insert-Distinct k v [] d = (refl, tt)
  insert-Distinct k v ((i, w) ∷ m) d =
      ground (arith, e.eqb_iff i k, e.eqb_iff k i, lookup-insert k i v m, insert-Distinct k v m d.1)

  lookup-remove-none :
      (k j : K) (m : List (K × V))
      → lookup {V = V} j m ≡ none
      → lookup {V = V} j (remove k m) ≡ none
  lookup-remove-none k j [] h = refl
  lookup-remove-none k j ((i, w) ∷ m) h = ground (arith, lookup-remove-none k j m)

  pub remove-Distinct : (k : K) (m : List (K × V)) → Distinct m → Distinct {V = V} (remove k m)
  remove-Distinct k [] d = tt
  remove-Distinct k ((i, w) ∷ m) d =
      ground (arith, lookup-remove-none k i m d.0, remove-Distinct k m d.1)

  pub lookup-retain-none :
      (p : K → V → Bool) (j : K) (m : List (K × V))
      → lookup j m ≡ none
      → lookup j (retain p m) ≡ none
  lookup-retain-none p j [] h = refl
  lookup-retain-none p j ((i, w) ∷ m) h = ground (arith, lookup-retain-none p j m)

  pub retain-Distinct : (p : K → V → Bool) (m : List (K × V)) → Distinct m → Distinct (retain p m)
  retain-Distinct p [] d = tt
  retain-Distinct p ((i, w) ∷ m) d =
      ground (arith, lookup-retain-none p i m d.0, retain-Distinct p m d.1)

  pub total-insert :
      (f : K → V → ℕ) (k : K) (v : V) (m : List (K × V))
      → total f (insert k v m) + of_entry f k (lookup k m) ≡ total f m + f k v
  total-insert f k v [] = omega arith
  total-insert f k v ((i, w) ∷ m) = ground (arith, e.eqb_iff i k, total-insert f k v m)

  pub total-remove :
      (f : K → V → ℕ) (k : K) (m : List (K × V))
      → total f (remove k m) + of_entry f k (lookup k m) ≡ total f m
  total-remove f k [] = refl
  total-remove f k ((i, w) ∷ m) = ground (arith, e.eqb_iff i k, total-remove f k m)

  pub length-insert :
      (k : K) (v : V) (m : List (K × V))
      → length (insert k v m) ≡ (if is_some (lookup k m) then length m else suc (length m))
  length-insert k v [] = refl
  length-insert k v ((i, w) ∷ m) = ground (arith, length-insert k v m)

  pub length-remove-le : (k : K) (m : List (K × V)) → length (remove {V = V} k m) ≤ length m
  length-remove-le k [] = omega arith
  length-remove-le k ((i, w) ∷ m) = ground (arith, length-remove-le k m)
