-- ===== src/Handshake/Message/Refusals/Reads.antt =====
-- Reads of liteway-core/src/handshake.rs that fail, and with which error.
use mathlib.Core.Path.{subst}
use mathlib.Core.List.{append_assoc, append-nil}
use liteway.Common.{
  ℕ, ◌+◌, ◌^◌, ◌<◌, ◌≡◌, ◌≢◌, refl, ap, ◌∙◌, ◌⊎◌, inl, inr, Bool, List, [], ◌++◌, arith, Bool-cases,
}
use liteway.Net.{text_eqb, text_eqb_iff}
use liteway.Handshake.Result.{
  HandshakeError, clock_skew, transcript_mismatch, wrong_kind, Result, ok, err, ensure,
}
use liteway.Handshake.Reader.{
  R, ◌>>=◌, ◌>>◌, lift, between, Takes, read_u8, read_u16, read_u64, read_u8-Takes, read_u16-Takes,
  read_u64-Takes,
}
use liteway.Handshake.Message.{HandshakeDraw, opening, handshake_version, flags_of}
use liteway.Handshake.Message.Parse.{validate_timestamp, read_opening, run_reader}
use liteway.Handshake.Message.Layout.{passes, flags_fit}

-- The read fails with this error on what starts with these bytes, wherever they stand.
pub record Fails {A : Type 0} (m : R A) (bs : List ℕ) (e : HandshakeError) : Type 0 where
  run : (before rest : List ℕ) → m (between before (bs ++ rest)) ≡ err e

pub first-Fails :
    {A B : Type 0} (m : R A) (f : A → R B) {bs : List ℕ} {e : HandshakeError}
    → Fails m bs e
    → Fails (m >>= f) bs e
first-Fails m f h = record { run = λ before rest. rw (h.run before rest, ◌>>=◌) }

pub next-Fails :
    {A B : Type 0} (m : R A) (f : A → R B) {bs cs : List ℕ} {a : A} {e : HandshakeError}
    → Takes m bs a
    → Fails (f a) cs e
    → Fails (m >>= f) (bs ++ cs) e
next-Fails m f {bs = bs} {cs = cs} first second = record {
  run = λ before rest.
      ap (λ all. (m >>= f) (between before all)) (append_assoc bs cs rest)
      ∙ rw (first.run before (cs ++ rest), ◌>>=◌) (second.run (before ++ bs) rest);
}

pub check-Fails :
    {B : Type 0} {o : Result (Unit {0})} (k : R B) {bs : List ℕ} {e : HandshakeError}
    → o ≡ err e
    → Fails (lift o >> k) bs e
check-Fails {o = o} k {e = e} h = record { run = λ before rest. rw h refl }

-- A read whose value fails a check.
pub last-Fails :
    {A B : Type 0} (m : R A) (f : A → R B) {bs : List ℕ} {a : A} {e : HandshakeError}
    → Takes m bs a
    → Fails (f a) [] e
    → Fails (m >>= f) bs e
last-Fails m f {bs = bs} {e = e} first second =
    subst (λ all. Fails (m >>= f) all e) (append-nil bs) (next-Fails m f first second)

passed :
    {B : Type 0} {o : Result (Unit {0})} (k : R B) {bs : List ℕ} {e : HandshakeError}
    → o ≡ ok tt
    → Fails k bs e
    → Fails (lift o >> k) bs e
passed {o = o} k h rest = record { run = λ before more. rw h (rest.run before more) }

pub run_reader-Fails :
    {A : Type 0} (m : R A) {bs : List ℕ} {e : HandshakeError} (more : List ℕ)
    → Fails m bs e
    → run_reader (bs ++ more) m ≡ err e
run_reader-Fails m more h = rw (h.run [] more) refl

-- A message that says a time more than five minutes away.
pub record IsFar (now sent : ℕ) : Type 0 where
  pub apart : (sent + 300 < now) ⊎ (now + 300 < sent)
  pub fits : sent < 2 ^ 64

validate_timestamp-IsFar :
    (now sent : ℕ) → IsFar now sent → validate_timestamp now sent ≡ err clock_skew
unfolding validate_timestamp
validate_timestamp-IsFar now sent h = ground (arith, h.apart, h.fits)

pub read_opening-Fails :
    (kind now sent : ℕ) (relay : Bool) (d : HandshakeDraw)
    → IsFar now sent
    → Fails (read_opening kind now) (opening kind relay sent d) clock_skew
unfolding read_opening opening
read_opening-Fails kind now sent relay d h = next-Fails read_u8 _ (read_u8-Takes kind) (
    passed _ (passes kind wrong_kind) (
      next-Fails read_u8 _ (read_u8-Takes handshake_version) (
        passed _ refl (
          next-Fails read_u16 _ (read_u16-Takes (flags_of relay) (flags_fit relay)) (
            next-Fails read_u64 _ (read_u64-Takes sent h.fits)
              (check-Fails _ (validate_timestamp-IsFar now sent h)))))))

pub mismatch :
    (a b : List ℕ) → a ≢ b → ensure (text_eqb a b) transcript_mismatch ≡ err transcript_mismatch
mismatch a b h = elim (Bool-cases (text_eqb a b)) [
  | inl same ↦ absurd (h ((text_eqb_iff a b).0 same))
  | inr other ↦ rw other refl
]
