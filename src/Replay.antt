-- ===== src/Replay.antt =====
-- `ReplayWindow` of litewayd/src/state.rs: the sequence numbers of one session, newest and a
-- bitmap of the 64 last. A `u64` is a natural number; `<<` keeps its wrap-around.
mod Window
pub mod History
mod Tests
use Prim.Native.Nat.{bit_and, bit_or}
use liteway.Common.{ℕ, ◌-◌, ◌*◌, ◌%◌, ◌^◌, Bool, true, false, not, ltb, leb, ◌==◌, if◌then◌else◌}

-- `REPLAY_WINDOW_BITS`
abbrev pub replay_window_bits : ℕ
replay_window_bits = 64

pub record ReplayWindow : Type 0 where
  pub initialized : Bool
  pub highest : ℕ
  pub seen : ℕ

unfoldable pub new : ReplayWindow
new = record { initialized = false; highest = 0; seen = 0 }

-- `x << shift` on a `u64`.
unfoldable pub shl : ℕ → ℕ → ℕ
shl x shift = x * 2 ^ shift % 2 ^ 64

-- The three expressions of `accept` on the bitmap.
pub slide : ℕ → ℕ → ℕ
slide seen shift = if leb replay_window_bits shift then 1 else bit_or (shl seen shift) 1

pub is_seen : ℕ → ℕ → Bool
is_seen seen behind = not (bit_and seen (shl 1 behind) == 0)

pub mark : ℕ → ℕ → ℕ
mark seen behind = bit_or seen (shl 1 behind)

-- The new window, and whether the packet is let through.
unfoldable pub accept : ReplayWindow → ℕ → ReplayWindow × Bool
accept w seq =
    let behind = w.highest - seq in
    if not w.initialized
    then (record { initialized = true; highest = seq; seen = 1 }, true)
    else if ltb w.highest seq
    then (record w { highest = seq; seen = slide w.seen (seq - w.highest) }, true)
    else if leb replay_window_bits behind
    then (w, false)
    else if is_seen w.seen behind
    then (w, false)
    else (record w { seen = mark w.seen behind }, true)
