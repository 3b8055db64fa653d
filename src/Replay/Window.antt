-- ===== src/Replay/Window.antt =====
-- What the three bitmap expressions do to the digits of the bitmap.
use native.Mathlib.Nat.{one-le-pow, mod-eq_of_lt}
use liteway.Common.{
  ℕ, zero, suc, ◌-◌, ◌*◌, ◌%◌, ◌^◌, ◌<◌, ◌≡◌, ◌∙◌, arith, ltb, ◌==◌, if◌then◌else◌,
}
use liteway.Common.Bits.{
  bit, bit-lt-two, bit-bit_or, bit-two_pow_self, bit-two_pow_ne, bit_and-two_pow, bit-shl_lt,
  bit-shl_le, bit-mod_two_pow, bit_or-lt, two_pow_mono,
}
use liteway.Replay.{shl, slide, is_seen, mark}

shl_one : (d : ℕ) → d < 64 → shl 1 d ≡ 2 ^ d
unfolding shl
shl_one d h = mod-eq_of_lt (omega (arith, two_pow_mono d 64 h)) ∙ omega arith

pub bit_one : (d : ℕ) → bit d 1 ≡ (if d == 0 then 1 else 0)
bit_one zero = bit-two_pow_self 0
bit_one (suc d) = ground (arith, bit-two_pow_ne (suc d) 0)

pub bit-mark : (d b seen : ℕ) → b < 64 → bit d (mark seen b) ≡ (if d == b then 1 else bit d seen)
unfolding mark
bit-mark d b seen h = ground (
  arith,
  shl_one b h,
  bit-bit_or d seen (2 ^ b),
  bit-two_pow_self b,
  bit-two_pow_ne d b,
  bit-lt-two d seen,
)

pub mark-lt : (b seen : ℕ) → b < 64 → seen < 2 ^ 64 → mark seen b < 2 ^ 64
unfolding mark
mark-lt b seen h k = rw (shl_one b h) (bit_or-lt 64 seen (2 ^ b) k (two_pow_mono b 64 h))

pub is_seen-bit : (b seen : ℕ) → b < 64 → seen < 2 ^ 64 → is_seen seen b ≡ (bit b seen == 1)
unfolding is_seen
is_seen-bit b seen h k = ground (
  arith,
  shl_one b h,
  bit_and-two_pow 64 b seen k,
  bit-lt-two b seen,
  one-le-pow b 2 (omega arith),
)

pub slide-lt : (seen n : ℕ) → slide seen n < 2 ^ 64
unfolding slide shl
slide-lt seen n = ground (arith, bit_or-lt 64 (seen * 2 ^ n % 2 ^ 64) 1 (omega arith))

-- A step of `n` ahead moves every digit `n` up and sets the lowest.
pub bit-slide :
    (d seen n : ℕ)
    → 0 < n
    → d < 64
    → bit d (slide seen n) ≡ (if d == 0 then 1 else if ltb d n then 0 else bit (d - n) seen)
unfolding slide shl
bit-slide d seen n pos h = ground (
  arith,
  bit_one d,
  bit-bit_or d (seen * 2 ^ n % 2 ^ 64) 1,
  bit-mod_two_pow d 64 (seen * 2 ^ n) h,
  bit-shl_lt d n seen,
  bit-shl_le d n seen,
  bit-lt-two d (seen * 2 ^ n),
)
