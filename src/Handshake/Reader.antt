-- ===== src/Handshake/Reader.antt =====
-- `Reader` of liteway-core/src/handshake.rs, whose reads fail with an error.
use mathlib.Core.List.{append_assoc, append-nil}
use mathlib.Core.Path.{subst}
use liteway.Common.{
  ℕ, ◌+◌, ◌%◌, ◌^◌, ◌<◌, ◌≡◌, refl, sym, ap, ◌∙◌, false, List, [], ◌∷◌, ◌++◌, arith, ltb,
  if◌then◌else◌, length, take, drop, length-append, take-length-append, drop-length-append,
}
use liteway.Common.Bytes.{be_bytes, from_be, from_be-be_bytes, length-be_bytes}
use liteway.Wire.{at}
use liteway.Wire.Reader.{Reader, vec_u32}
use liteway.Handshake.Result.{out_of_bounds, Result, ok, err}

abbrev pub R : Type 0 → Type 0
R A = Reader → Result (A × Reader)

infixl 5 ◌>>=◌ ◌>>◌
abbrev pub ◌>>=◌ : {A B : Type 0} → R A → (A → R B) → R B
◌>>=◌ m f r = elim (m r) [ err e ↦ err e | ok (a, r') ↦ f a r' ]

abbrev pub ◌>>◌ : {B : Type 0} → R (Unit {0}) → R B → R B
m >> k = m >>= λ _. k

abbrev pub return : {A : Type 0} → A → R A
return a r = ok (a, r)

-- A `?` on a result that reads nothing.
abbrev pub lift : {A : Type 0} → Result A → R A
lift (err e) r = err e
lift (ok a) r = ok (a, r)

-- `Reader::bytes` and `Reader::array`
unfoldable pub bytes : ℕ → R (List ℕ)
bytes len r =
    if ltb (length r.input) (r.pos + len)
    then err out_of_bounds
    else ok (take len (drop r.pos r.input), record r { pos = r.pos + len })

unfoldable pub read_u8 : R ℕ
read_u8 = do b ← bytes 1; return (at b 0)

unfoldable pub read_u16 : R ℕ
read_u16 = do b ← bytes 2; return (from_be b)

unfoldable pub read_u32 : R ℕ
read_u32 = do b ← bytes 4; return (from_be b)

unfoldable pub read_u64 : R ℕ
read_u64 = do b ← bytes 8; return (from_be b)

unfoldable pub read_vec_u32 : R (List ℕ)
read_vec_u32 = do len ← read_u32; bytes len

-- `&data[..rd.pos()]`
unfoldable pub taken : R (List ℕ)
taken r = ok (take r.pos r.input, r)

-- A reader that has taken what stands before, with the rest to come.
abbrev pub between : List ℕ → List ℕ → Reader
between before rest = record { input = before ++ rest; pos = length before }

-- The read takes exactly these bytes, wherever they stand, and returns this value.
pub record Takes {A : Type 0} (m : R A) (bs : List ℕ) (a : A) : Type 0 where
  pub run :
      (before rest : List ℕ) → m (between before (bs ++ rest)) ≡ ok (a, between (before ++ bs) rest)

-- The same reader, seen before and after some bytes.
moved :
    (before bs rest : List ℕ)
    → ◌≡◌ {A = Reader}
        (record { input = before ++ (bs ++ rest); pos = length before + length bs })
        (between (before ++ bs) rest)
moved before bs rest i = record {
  input = sym (append_assoc before bs rest) i;
  pos = sym (length-append before bs) i;
}

bytes_exact :
    (bs before rest : List ℕ)
    → bytes (length bs) (between before (bs ++ rest)) ≡ ok (bs, between (before ++ bs) rest)
unfolding bytes
bytes_exact bs before rest =
    let enough : ltb (length (before ++ (bs ++ rest))) (length before + length bs) ≡ false =
      ground (arith, length-append before (bs ++ rest), length-append bs rest) in
    rw (enough, drop-length-append before (bs ++ rest), take-length-append bs rest)
      (ap (λ r. ok (bs, r)) (moved before bs rest))

pub bytes-Takes : (n : ℕ) (bs : List ℕ) → length bs ≡ n → Takes (bytes n) bs bs
bytes-Takes n bs e = subst (λ k. Takes (bytes k) bs bs) e (record { run = bytes_exact bs })

pub lift-Takes : {A : Type 0} (o : Result A) (a : A) → o ≡ ok a → Takes (lift o) [] a
lift-Takes o a e =
    subst (λ o. Takes (lift o) [] a) (sym e)
      (record { run = λ before rest. ap (λ bs. ok (a, between bs rest)) (sym (append-nil before)) })

-- Two reads one after the other.
pub bind-Takes :
    {A B : Type 0} (m : R A) (f : A → R B) {bs cs : List ℕ} {a : A} {b : B}
    → Takes m bs a
    → Takes (f a) cs b
    → Takes (m >>= f) (bs ++ cs) b
bind-Takes m f {bs = bs} {cs = cs} {b = b} first second = record {
  run = λ before rest.
      ap (λ all. (m >>= f) (between before all)) (append_assoc bs cs rest)
      ∙ rw (first.run before (cs ++ rest), ◌>>=◌)
          (second.run (before ++ bs) rest
            ∙ ap (λ all. ok (b, between all rest)) (append_assoc before bs cs));
}

pub then-Takes :
    {A B : Type 0} (m : R A) (g : A → B) {bs : List ℕ} {a : A}
    → Takes m bs a
    → Takes (m >>= λ x. return (g x)) bs (g a)
then-Takes m g first = record { run = λ before rest. rw (first.run before rest, ◌>>=◌) }

-- A check that passes reads nothing.
pub check-Takes :
    {B : Type 0} {o : Result (Unit {0})} (k : R B) {bs : List ℕ} {b : B}
    → o ≡ ok tt
    → Takes k bs b
    → Takes (lift o >> k) bs b
check-Takes {o = o} k e rest = bind-Takes (lift o) (λ _. k) (lift-Takes o tt e) rest

number-Takes :
    (n v : ℕ) → v < 256 ^ n → Takes (bytes n >>= λ b. return (from_be b)) (be_bytes n v) v
number-Takes n v h =
    subst (Takes (bytes n >>= λ b. return (from_be b)) (be_bytes n v)) (from_be-be_bytes n v h)
      (then-Takes (bytes n) (λ b. from_be b) (bytes-Takes n (be_bytes n v) (length-be_bytes n v)))

pub read_u8-Takes : (b : ℕ) → Takes read_u8 (b ∷ []) b
unfolding read_u8
read_u8-Takes b = then-Takes (bytes 1) (λ x. at x 0) (bytes-Takes 1 (b ∷ []) refl)

pub read_u16-Takes : (v : ℕ) → v < 2 ^ 16 → Takes read_u16 (be_bytes 2 v) v
unfolding read_u16
read_u16-Takes v h = number-Takes 2 v h

pub read_u32-Takes : (v : ℕ) → v < 2 ^ 32 → Takes read_u32 (be_bytes 4 v) v
unfolding read_u32
read_u32-Takes v h = number-Takes 4 v h

pub read_u64-Takes : (v : ℕ) → v < 2 ^ 64 → Takes read_u64 (be_bytes 8 v) v
unfolding read_u64
read_u64-Takes v h = number-Takes 8 v h

pub read_vec_u32-Takes : (xs : List ℕ) → length xs < 2 ^ 32 → Takes read_vec_u32 (vec_u32 xs) xs
unfolding read_vec_u32 vec_u32
read_vec_u32-Takes xs h =
    let small : length xs % 2 ^ 32 ≡ length xs = omega arith in
    bind-Takes read_u32 (λ len. bytes len) (read_u32-Takes (length xs % 2 ^ 32) (omega arith))
      (bytes-Takes (length xs % 2 ^ 32) xs (sym small))
