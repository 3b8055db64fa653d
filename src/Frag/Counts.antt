-- ===== src/Frag/Counts.antt =====
-- The bytes of the messages in assembly, and what holds of an assembler that counts them.
use liteway.Common.{
  ℕ, zero, suc, ◌+◌, ◌-◌, ◌^◌, ◌≤◌, ◌<◌, ◌≡◌, refl, Bool, Option, none, some, List, [], ◌∷◌, arith,
  length, set, replicate, All,
}
use liteway.Common.Keyed
use liteway.Common.Keyed.{
  Distinct, total, total-insert, total-remove, of_entry, insert-Distinct, remove-Distinct,
  retain-Distinct, length-insert, length-remove-le, length-retain-le, total-retain-le,
}
use liteway.Frag.{
  Key, key_eq, PendingMessage, FragmentAssembler, new, saturating_add, remove_pending, chunk_len,
  old_len_at, resized,
}

abbrev pub Entries : Type 0
Entries = List (Key × PendingMessage)

abbrev pub chunk_sum : List (Option (List ℕ)) → ℕ
chunk_sum [] = 0
chunk_sum (c ∷ rest) = chunk_len c + chunk_sum rest

-- A message counts the bytes of its chunks, 512 KiB at most.
pub record IsCounted (m : PendingMessage) : Type 0 where
  pub counted : m.bytes ≡ chunk_sum m.chunks
  pub bounded : m.bytes ≤ 524288

abbrev pub bytes_of : Key → PendingMessage → ℕ
bytes_of k m = m.bytes

abbrev pub Each : Entries → Type 0
Each = All (λ e. IsCounted e.1)

pub record IsValid (a : FragmentAssembler) : Type 0 where
  pub distinct : Distinct a.pending
  pub each : Each a.pending
  pub counted : a.buffered_bytes ≡ total bytes_of a.pending
  pub small : a.buffered_bytes ≤ 4194304
  pub few : length a.pending ≤ 1024

pub lookup-Each :
    (k : Key) (m : Entries) (v : PendingMessage) → Each m → Keyed.lookup k m ≡ some v → IsCounted v
lookup-Each k [] v h e = cc
lookup-Each k ((j, w) ∷ m) v h e = ground (arith, lookup-Each k m v h.1)

pub insert-Each :
    (k : Key) (v : PendingMessage) (m : Entries) → IsCounted v → Each m → Each (Keyed.insert k v m)
insert-Each k v [] i h = (i, tt)
insert-Each k v ((j, w) ∷ m) i h = ground (arith, insert-Each k v m i h.1)

pub remove-Each : (k : Key) (m : Entries) → Each m → Each (Keyed.remove k m)
remove-Each k [] h = tt
remove-Each k ((j, w) ∷ m) h = ground (arith, remove-Each k m h.1)

pub retain-Each : (p : Key → PendingMessage → Bool) (m : Entries) → Each m → Each (Keyed.retain p m)
retain-Each p [] h = tt
retain-Each p ((j, w) ∷ m) h = ground (arith, retain-Each p m h.1)

pub set-chunk_sum :
    (chunks : List (Option (List ℕ))) (idx : ℕ) (c : List ℕ)
    → idx < length chunks
    → chunk_sum (set chunks idx (some c)) + old_len_at chunks idx ≡ chunk_sum chunks + length c
set-chunk_sum [] idx c h = absurd (omega arith)
set-chunk_sum (x ∷ rest) zero c h = omega arith
set-chunk_sum (x ∷ rest) (suc idx) c h = omega (arith, set-chunk_sum rest idx c (omega arith))

pub chunk_sum-replicate : (n : ℕ) → chunk_sum (replicate n none) ≡ 0
chunk_sum-replicate zero = refl
chunk_sum-replicate (suc n) = omega (arith, chunk_sum-replicate n)

pub new-IsValid : IsValid new
unfolding new
new-IsValid = record {
  distinct = tt;
  each = tt;
  counted = refl;
  small = omega arith;
  few = omega arith;
}

pub remove_pending-IsValid :
    (a : FragmentAssembler) (key : Key) → IsValid a → IsValid (remove_pending a key)
unfolding remove_pending
remove_pending-IsValid a key v = record {
  distinct = remove-Distinct key a.pending v.distinct;
  each = remove-Each key a.pending v.each;
  counted = ground (arith, total-remove bytes_of key a.pending, v.counted);
  small = ground (arith, v.small);
  few = omega (arith, length-remove-le key a.pending, v.few);
}

pub resized_sum :
    (b old fresh cap : ℕ)
    → old ≤ b
    → cap < 2 ^ 32
    → saturating_add b (fresh - old) ≤ cap
    → (resized b old fresh + old ≡ b + fresh) × (resized b old fresh ≤ cap)
resized_sum b old fresh cap le small fits = ground arith

pub old_len_at-le :
    (chunks : List (Option (List ℕ))) (idx : ℕ)
    → idx < length chunks
    → old_len_at chunks idx ≤ chunk_sum chunks
old_len_at-le chunks idx h = omega (arith, set-chunk_sum chunks idx [] h)
