-- ===== src/Common/Bytes.antt =====
-- Big-endian bytes: `to_be_bytes` and `from_be_bytes` at every width.
use native.Mathlib.Nat.{pow-suc}
use liteway.Common.{
  ℕ, zero, suc, ◌+◌, ◌*◌, ◌/◌, ◌%◌, ◌^◌, ◌<◌, ◌≡◌, refl, List, [], ◌∷◌, ◌++◌, arith, length,
  length-append, All, All-append,
}

abbrev pub IsByte : ℕ → Type 0
IsByte b = b < 256

-- The `n` low bytes of `v`, highest first.
abbrev pub be_bytes : ℕ → ℕ → List ℕ
be_bytes zero v = []
be_bytes (suc n) v = be_bytes n (v / 256) ++ (v % 256 ∷ [])

abbrev pub from_be_loop : ℕ → List ℕ → ℕ
from_be_loop acc [] = acc
from_be_loop acc (b ∷ bs) = from_be_loop (acc * 256 + b) bs

abbrev pub from_be : List ℕ → ℕ
from_be bs = from_be_loop 0 bs

from_be_loop-snoc :
    (acc : ℕ) (bs : List ℕ) (b : ℕ)
    → from_be_loop acc (bs ++ (b ∷ [])) ≡ from_be_loop acc bs * 256 + b
from_be_loop-snoc acc [] b = refl
from_be_loop-snoc acc (c ∷ bs) b = from_be_loop-snoc (acc * 256 + c) bs b

pub from_be-be_bytes : (n v : ℕ) → v < 256 ^ n → from_be (be_bytes n v) ≡ v
from_be-be_bytes zero v h = omega arith
from_be-be_bytes (suc n) v h = omega (
  arith,
  from_be_loop-snoc 0 (be_bytes n (v / 256)) (v % 256),
  from_be-be_bytes n (v / 256) (omega (arith, pow-suc 256 n)),
)

pub length-be_bytes : (n v : ℕ) → length (be_bytes n v) ≡ n
length-be_bytes zero v = refl
length-be_bytes (suc n) v =
    omega (arith, length-append (be_bytes n (v / 256)) (v % 256 ∷ []), length-be_bytes n (v / 256))

pub be_bytes-IsByte : (n v : ℕ) → All IsByte (be_bytes n v)
be_bytes-IsByte zero v = tt
be_bytes-IsByte (suc n) v =
    All-append IsByte (be_bytes n (v / 256)) (v % 256 ∷ []) (be_bytes-IsByte n (v / 256))
      (omega arith)
