-- ===== src/Common/Bits.antt =====
-- Binary digits of a number, and what `|`, `&`, `^`, `<<` do to them.
use Prim.Native.Nat.{
  bit_and, bit_or, bit_xor, digits, differ, bitwise, bit_and-bitwise, bit_or-bitwise,
  bit_xor-bitwise,
}
use mathlib.Core.Path.{ap₂}
use native.Mathlib.Nat.{
  pow-suc, one-le-pow, mod-lt, mod-eq_of_lt, div-add-mod, add-mul-mod_self_left,
}
use liteway.Common.{
  ℕ, zero, suc, ◌+◌, ◌-◌, ◌*◌, ◌/◌, ◌%◌, ◌^◌, ◌≤◌, ◌<◌, min, max, ◌≡◌, refl, sym, ap, ◌∙◌, ◌≢◌,
  arith,
}

-- The fuel of the library's digit recursion does not matter once it covers the first number.
digits-fuel :
    (end : ℕ → ℕ) (op : ℕ → ℕ → ℕ) (m n a b : ℕ)
    → a ≤ m
    → a ≤ n
    → digits end op m a b ≡ digits end op n a b
digits-fuel end op zero zero a b h k = refl
digits-fuel end op zero (suc n) zero b h k = refl
digits-fuel end op zero (suc n) (suc a) b h k = elim h [ ]
digits-fuel end op (suc m) zero zero b h k = refl
digits-fuel end op (suc m) zero (suc a) b h k = elim k [ ]
digits-fuel end op (suc m) (suc n) zero b h k = refl
digits-fuel end op (suc m) (suc n) (suc a) b h k =
    ap (λ (t : ℕ). t * 2 + op (suc a % 2) (b % 2))
      (digits-fuel end op m n (suc a / 2) (b / 2) (omega arith) (omega arith))

bitwise_lowest :
    (end : ℕ → ℕ) (op : ℕ → ℕ → ℕ) (a b : ℕ)
    → bitwise end op (suc a) b ≡ bitwise end op (suc a / 2) (b / 2) * 2 + op (suc a % 2) (b % 2)
bitwise_lowest end op a b =
    ap (λ (t : ℕ). t * 2 + op (suc a % 2) (b % 2))
      (digits-fuel end op a (suc a / 2) (suc a / 2) (b / 2) (omega arith) (omega arith))

and_lowest : (a b : ℕ) → bit_and a b ≡ bit_and (a / 2) (b / 2) * 2 + min (a % 2) (b % 2)
and_lowest zero b = simp bit_and-bitwise (omega arith)
and_lowest (suc a) b = simp bit_and-bitwise (bitwise_lowest (λ y. 0) min a b)

or_lowest : (a b : ℕ) → bit_or a b ≡ bit_or (a / 2) (b / 2) * 2 + max (a % 2) (b % 2)
or_lowest zero b = simp bit_or-bitwise (omega arith)
or_lowest (suc a) b = simp bit_or-bitwise (bitwise_lowest (λ y. y) max a b)

xor_lowest : (a b : ℕ) → bit_xor a b ≡ bit_xor (a / 2) (b / 2) * 2 + differ (a % 2) (b % 2)
xor_lowest zero b = simp bit_xor-bitwise (omega arith)
xor_lowest (suc a) b = simp bit_xor-bitwise (bitwise_lowest (λ y. y) differ a b)

-- The binary digit of weight 2 ^ i.
pub bit : ℕ → ℕ → ℕ
bit zero n = n % 2
bit (suc i) n = bit i (n / 2)

pub bit-lt-two : (i n : ℕ) → bit i n < 2
unfolding bit
bit-lt-two zero n = omega arith
bit-lt-two (suc i) n = bit-lt-two i (n / 2)

pub bit-bit_or : (i a b : ℕ) → bit i (bit_or a b) ≡ max (bit i a) (bit i b)
unfolding bit
bit-bit_or zero a b = omega (arith, or_lowest a b)
bit-bit_or (suc i) a b = ap (bit i) (omega (arith, or_lowest a b)) ∙ bit-bit_or i (a / 2) (b / 2)

pub bit-zero : (i : ℕ) → bit i 0 ≡ 0
unfolding bit
bit-zero zero = refl
bit-zero (suc i) = bit-zero i

half_two_pow : (k : ℕ) → 2 ^ suc k / 2 ≡ 2 ^ k
half_two_pow k = omega (arith, pow-suc 2 k)

pub bit-two_pow_self : (k : ℕ) → bit k (2 ^ k) ≡ 1
unfolding bit
bit-two_pow_self zero = refl
bit-two_pow_self (suc k) = ap (bit k) (half_two_pow k) ∙ bit-two_pow_self k

pub bit-two_pow_ne : (i k : ℕ) → i ≢ k → bit i (2 ^ k) ≡ 0
unfolding bit
bit-two_pow_ne zero zero h = absurd (h refl)
bit-two_pow_ne zero (suc k) h = omega (arith, pow-suc 2 k)
bit-two_pow_ne (suc i) zero h = bit-zero i
bit-two_pow_ne (suc i) (suc k) h =
    ap (bit i) (half_two_pow k) ∙ bit-two_pow_ne i k (λ e. h (ap suc e))

below_one : (n w : ℕ) → n < 2 ^ w → w ≡ 0 → n ≡ 0
below_one n zero h e = omega arith
below_one n (suc w) h e = absurd (omega arith)

zero-bit_and : (b : ℕ) → bit_and 0 b ≡ 0
zero-bit_and b = bit_and-bitwise 0 b

bit_and-zero : (w n : ℕ) → n < 2 ^ w → bit_and n 0 ≡ 0
bit_and-zero zero n h = rw (below_one n 0 h refl)
bit_and-zero (suc w) n h =
    omega (arith, and_lowest n 0, bit_and-zero w (n / 2) (omega (arith, pow-suc 2 w)))

-- Masking with `1 << k` leaves that digit alone.
pub bit_and-two_pow : (w k n : ℕ) → n < 2 ^ w → bit_and n (2 ^ k) ≡ bit k n * 2 ^ k
unfolding bit
bit_and-two_pow zero k n h =
    rw (below_one n 0 h refl, zero-bit_and) (sym (omega (arith, zero_digit)))
  where
    zero_digit : bit k 0 * 2 ^ k ≡ 0
    zero_digit = rw bit-zero (omega arith)
bit_and-two_pow (suc w) zero n h =
    omega (arith, and_lowest n 1, bit_and-zero w (n / 2) (omega (arith, pow-suc 2 w)))
bit_and-two_pow (suc w) (suc k) n h =
    let rest = bit_and-two_pow w k (n / 2) (omega (arith, pow-suc 2 w)) in
    omega (
      arith,
      and_lowest n (2 ^ suc k),
      ap (bit_and (n / 2)) (half_two_pow k),
      rest,
      pow-suc 2 k,
      ap (λ (t : ℕ). bit k (n / 2) * t) (pow-suc 2 k),
    )

-- A `<<` moves the digits up, and `% 2 ^ w` drops those that do not fit.
pub bit-shl_lt : (i s n : ℕ) → i < s → bit i (n * 2 ^ s) ≡ 0
unfolding bit
bit-shl_lt i zero n h = elim h [ ]
bit-shl_lt zero (suc s) n h = omega (arith, ap (λ (t : ℕ). n * t) (pow-suc 2 s))
bit-shl_lt (suc i) (suc s) n h =
    ap (bit i) (omega (arith, ap (λ (t : ℕ). n * t) (pow-suc 2 s))) ∙ bit-shl_lt i s n (omega arith)

pub bit-shl_le : (i s n : ℕ) → s ≤ i → bit i (n * 2 ^ s) ≡ bit (i - s) n
unfolding bit
bit-shl_le i zero n h =
    let number : n * 1 ≡ n = omega arith in
    let place : i ≡ i - 0 = omega arith in ap₂ bit place number
bit-shl_le zero (suc s) n h = elim h [ ]
bit-shl_le (suc i) (suc s) n h =
    let place : i - s ≡ suc i - suc s = omega arith in
    ap (bit i) (omega (arith, ap (λ (t : ℕ). n * t) (pow-suc 2 s)))
    ∙ bit-shl_le i s n (omega arith)
    ∙ ap (λ (t : ℕ). bit t n) place

-- A remainder by an even number keeps the lowest digit.
mod-double : (n m : ℕ) → 0 < m → n % (m * 2) ≡ n / 2 % m * 2 + n % 2
mod-double n m h =
    let parts : n ≡ n / 2 % m * 2 + n % 2 + m * 2 * (n / 2 / m) =
      omega (arith, ap (λ (t : ℕ). t * 2) (div-add-mod (n / 2) m)) in
    ap (λ (t : ℕ). t % (m * 2)) parts
    ∙ add-mul-mod_self_left (n / 2 % m * 2 + n % 2) (m * 2) (n / 2 / m)
    ∙ mod-eq_of_lt (omega (arith, mod-lt (n / 2) h))

half_mod : (n w : ℕ) → n % 2 ^ suc w / 2 ≡ n / 2 % 2 ^ w
half_mod n w = omega (
  arith,
  mod-double n (2 ^ w) (one-le-pow w 2 (omega arith)),
  ap (λ (t : ℕ). n % t) (pow-suc 2 w),
)

pub bit-mod_two_pow : (i w n : ℕ) → i < w → bit i (n % 2 ^ w) ≡ bit i n
unfolding bit
bit-mod_two_pow i zero n h = elim h [ ]
bit-mod_two_pow zero (suc w) n h = omega (
  arith,
  mod-double n (2 ^ w) (one-le-pow w 2 (omega arith)),
  ap (λ (t : ℕ). n % t) (pow-suc 2 w),
)
bit-mod_two_pow (suc i) (suc w) n h =
    ap (bit i) (half_mod n w) ∙ bit-mod_two_pow i w (n / 2) (omega arith)

pub bit_or-lt : (w a b : ℕ) → a < 2 ^ w → b < 2 ^ w → bit_or a b < 2 ^ w
bit_or-lt zero a b h k = rw (below_one a 0 h refl, below_one b 0 k refl) (omega arith)
bit_or-lt (suc w) a b h k = omega (
  arith,
  or_lowest a b,
  pow-suc 2 w,
  bit_or-lt w (a / 2) (b / 2) (omega (arith, pow-suc 2 w)) (omega (arith, pow-suc 2 w)),
)

differ_twice : (a b : ℕ) → a < 2 → b < 2 → differ (differ a b) b ≡ a
differ_twice zero zero h k = refl
differ_twice zero (suc zero) h k = refl
differ_twice (suc zero) zero h k = refl
differ_twice (suc zero) (suc zero) h k = refl
differ_twice zero (suc (suc b)) h k = absurd (omega arith)
differ_twice (suc zero) (suc (suc b)) h k = absurd (omega arith)
differ_twice (suc (suc a)) b h k = absurd (omega arith)

differ-lt : (a b : ℕ) → a < 2 → b < 2 → differ a b < 2
differ-lt zero b h k = k
differ-lt (suc a) zero h k = h
differ-lt (suc zero) (suc zero) h k = omega arith
differ-lt (suc zero) (suc (suc b)) h k = absurd (omega arith)
differ-lt (suc (suc a)) (suc b) h k = absurd (omega arith)

module _ (a b : ℕ) where
  xor_half : bit_xor a b / 2 ≡ bit_xor (a / 2) (b / 2)
  xor_half = omega (arith, xor_lowest a b, differ-lt (a % 2) (b % 2) (omega arith) (omega arith))

  xor_parity : bit_xor a b % 2 ≡ differ (a % 2) (b % 2)
  xor_parity = omega (arith, xor_lowest a b, differ-lt (a % 2) (b % 2) (omega arith) (omega arith))

pub bit_xor-lt : (w a b : ℕ) → a < 2 ^ w → b < 2 ^ w → bit_xor a b < 2 ^ w
bit_xor-lt zero a b h k = rw (below_one a 0 h refl, below_one b 0 k refl) (omega arith)
bit_xor-lt (suc w) a b h k = omega (
  arith,
  xor_half a b,
  pow-suc 2 w,
  bit_xor-lt w (a / 2) (b / 2) (omega (arith, pow-suc 2 w)) (omega (arith, pow-suc 2 w)),
)

-- A mask that is applied twice is gone.
pub bit_xor_twice : (w a b : ℕ) → a < 2 ^ w → b < 2 ^ w → bit_xor (bit_xor a b) b ≡ a
bit_xor_twice zero a b h k = rw (below_one a 0 h refl, below_one b 0 k refl)
bit_xor_twice (suc w) a b h k =
    let halves : bit_xor (bit_xor a b / 2) (b / 2) ≡ a / 2 =
      ap (λ (t : ℕ). bit_xor t (b / 2)) (xor_half a b)
      ∙ bit_xor_twice w (a / 2) (b / 2) (omega (arith, pow-suc 2 w)) (omega (arith, pow-suc 2 w)) in
    let lowest : differ (bit_xor a b % 2) (b % 2) ≡ a % 2 =
      ap (λ (t : ℕ). differ t (b % 2)) (xor_parity a b)
      ∙ differ_twice (a % 2) (b % 2) (omega arith) (omega arith) in
    omega (arith, xor_lowest (bit_xor a b) b, halves, lowest)

pub two_pow_mono : (i k : ℕ) → i < k → 2 ^ i < 2 ^ k
two_pow_mono zero (suc k) h = omega (arith, pow-suc 2 k, one-le-pow k 2 (omega arith))
two_pow_mono (suc i) (suc k) h =
    omega (arith, pow-suc 2 i, pow-suc 2 k, two_pow_mono i k (omega arith))
two_pow_mono i zero h = elim h [ ]
