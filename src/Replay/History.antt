-- ===== src/Replay/History.antt =====
-- The window against the whole history of accepted sequence numbers.
use liteway.Common.{
  ℕ, ◌+◌, ◌-◌, ◌^◌, ◌≤◌, ◌<◌, max, ◌≡◌, refl, ap, inl, inr, Bool, true, false, not, ◌&&◌, List, [],
  ◌∷◌, arith, ltb, ◌==◌, if◌then◌else◌, Bool-cases, any,
}
use liteway.Common.Bits.{bit}
use liteway.Replay.{ReplayWindow, new, slide, is_seen, mark, accept}
use liteway.Replay.Window.{bit-mark, mark-lt, is_seen-bit, bit-slide, slide-lt, bit_one}

abbrev pub contains : ℕ → List ℕ → Bool
contains s h = any (λ x. x == s) h

abbrev pub newest : List ℕ → ℕ
newest [] = 0
newest (s ∷ h) = max s (newest h)

-- The promise of the window: a number is let through if it was not before, and if it lies less
-- than 64 behind the newest.
abbrev pub admits : List ℕ → ℕ → Bool
admits h s = not (contains s h) && ltb (newest h) (s + 64)

abbrev digit : Bool → ℕ
digit true = 1
digit false = 0

pub record Tracks (w : ReplayWindow) (h : List ℕ) : Type 0 where
  pub fresh : w.initialized ≡ false → h ≡ []
  pub top : w.initialized ≡ true → w.highest ≡ newest h
  pub fits : w.seen < 2 ^ 64
  pub digits :
      w.initialized ≡ true
      → (d : ℕ) → d < 64
      → d ≤ w.highest
      → bit d w.seen ≡ digit (contains (w.highest - d) h)

contains-le-newest : (s : ℕ) (h : List ℕ) → contains s h ≡ true → s ≤ newest h
contains-le-newest s [] e = cc
contains-le-newest s (x ∷ h) e = ground (arith, contains-le-newest s h)

pub contains_above : (s : ℕ) (h : List ℕ) → newest h < s → contains s h ≡ false
contains_above s h lt = elim (Bool-cases (contains s h)) [
  | inl e ↦ absurd (omega (arith, contains-le-newest s h e))
  | inr e ↦ e
]

pub new-Tracks : Tracks new []
unfolding new
new-Tracks = record { fresh = λ _. refl; top = λ e. cc; fits = omega arith; digits = λ e. cc }

module _ (w : ReplayWindow) (h : List ℕ) (t : Tracks w h) (on : w.initialized ≡ true) where
  seen_test :
      (s : ℕ) → s ≤ w.highest → w.highest < s + 64 → is_seen w.seen (w.highest - s) ≡ contains s h
  seen_test s le lt = ground (
    arith,
    is_seen-bit (w.highest - s) w.seen,
    t.fits,
    t.digits on (w.highest - s) (omega arith) (omega arith),
    ap (λ (x : ℕ). contains x h) (let e : w.highest - (w.highest - s) ≡ s = omega arith in e),
  )

  slide-Tracks :
      (s : ℕ)
      → w.highest < s
      → Tracks (record w { highest = s; seen = slide w.seen (s - w.highest) }) (s ∷ h)
  slide-Tracks s lt = record {
    fresh = λ e. cc;
    top = λ _. ground (arith, t.top);
    fits = slide-lt w.seen (s - w.highest);
    digits = λ _ d small le. moved d small le;
  }
    where
      moved :
          (d : ℕ)
          → d < 64
          → d ≤ s
          → bit d (slide w.seen (s - w.highest)) ≡ digit (contains (s - d) (s ∷ h))
      moved d small le = ground (
        arith,
        bit-slide d w.seen (s - w.highest) (omega arith) small,
        contains_above (s - d) h,
        t.top on,
        t.digits on (d - (s - w.highest)),
      )

  mark-Tracks :
      (s : ℕ)
      → s ≤ w.highest
      → w.highest < s + 64
      → Tracks (record w { seen = mark w.seen (w.highest - s) }) (s ∷ h)
  mark-Tracks s le lt = record {
    fresh = λ e. cc;
    top = λ _. ground (arith, t.top);
    fits = mark-lt (w.highest - s) w.seen (omega arith) t.fits;
    digits = λ _ d small below.
        ground (arith, bit-mark d (w.highest - s) w.seen, t.digits on d small below);
  }

first-Tracks : (s : ℕ) → Tracks (record { initialized = true; highest = s; seen = 1 }) (s ∷ [])
first-Tracks s = record {
  fresh = λ e. cc;
  top = λ _. omega arith;
  fits = omega arith;
  digits = λ _ d small le. ground (arith, bit_one d);
}

-- The window lets a number through exactly when its history admits it.
pub accept-admits :
    (w : ReplayWindow) (h : List ℕ) (s : ℕ) → Tracks w h → (accept w s).1 ≡ admits h s
unfolding accept
accept-admits w h s t = elim (Bool-cases w.initialized) [
  | inl on ↦ ground (arith, contains_above s h, t.top on, seen_test w h t on s)
  | inr off ↦ ground (arith, t.fresh off)
]

pub accept-Tracks :
    (w : ReplayWindow) (h : List ℕ) (s : ℕ)
    → Tracks w h
    → Tracks (accept w s).0 (if (accept w s).1 then s ∷ h else h)
unfolding accept
accept-Tracks w h s t = elim (Bool-cases w.initialized) [
  | inl on ↦ ground (arith, slide-Tracks w h t on s, mark-Tracks w h t on s)
  | inr off ↦ rw (off, t.fresh off) (first-Tracks s)
]

-- A sequence of packets, and the numbers that were let through, latest first.
unfoldable pub offer : ReplayWindow → List ℕ → List ℕ → ReplayWindow × List ℕ
offer w h [] = (w, h)
offer w h (s ∷ rest) = offer (accept w s).0 (if (accept w s).1 then s ∷ h else h) rest

-- The same, decided from the history alone.
unfoldable pub admitted : List ℕ → List ℕ → List ℕ
admitted h [] = h
admitted h (s ∷ rest) = admitted (if admits h s then s ∷ h else h) rest

offer-admitted :
    (w : ReplayWindow) (h rest : List ℕ)
    → Tracks w h
    → ((offer w h rest).1 ≡ admitted h rest) × Tracks (offer w h rest).0 (admitted h rest)
unfolding offer admitted
offer-admitted w h [] t = (refl, t)
offer-admitted w h (s ∷ rest) t = rw (← accept-admits w h s t) (
    offer-admitted (accept w s).0 (if (accept w s).1 then s ∷ h else h) rest
      (accept-Tracks w h s t))

abbrev pub NoRepeat : List ℕ → Type 0
NoRepeat [] = Unit
NoRepeat (s ∷ h) = (contains s h ≡ false) × NoRepeat h

admitted-NoRepeat : (h rest : List ℕ) → NoRepeat h → NoRepeat (admitted h rest)
unfolding admitted
admitted-NoRepeat h [] n = n
admitted-NoRepeat h (s ∷ rest) n =
    admitted-NoRepeat (if admits h s then s ∷ h else h) rest (ground arith)

-- Over any sequence of packets a new window lets through exactly the numbers that the history
-- admits: those that were not let through before and lie less than 64 behind the newest.
pub offer-new_refines : (packets : List ℕ) → (offer new [] packets).1 ≡ admitted [] packets
offer-new_refines packets = (offer-admitted new [] packets new-Tracks).0

-- No sequence of packets makes a new window let a number through twice.
pub offer-new-NoRepeat : (packets : List ℕ) → NoRepeat (offer new [] packets).1
offer-new-NoRepeat packets = rw (offer-new_refines packets) (admitted-NoRepeat [] packets tt)
