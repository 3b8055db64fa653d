-- ===== src/Wire/Reader.antt =====
-- `Reader` of packet.rs: a position in the bytes of a message. A read is a state transformer that
-- may fail.
use mathlib.Core.Path.{subst}
use mathlib.Core.List.{append_assoc}
use liteway.Common.{
  ℕ, ◌+◌, ◌-◌, ◌%◌, ◌^◌, ◌≤◌, ◌<◌, ◌≡◌, refl, sym, ap, ◌∙◌, false, Option, none, some, List, [],
  ◌∷◌, ◌++◌, arith, ltb, if◌then◌else◌, length, take, drop, length-append, length-drop,
  take-length-append, drop-length-append, drop_more,
}
use liteway.Common.Bytes.{be_bytes, from_be, from_be-be_bytes}
use liteway.Wire.{at}

pub record Reader : Type 0 where
  pub input : List ℕ
  pub pos : ℕ

abbrev pub R : Type 0 → Type 0
R A = Reader → Option (A × Reader)

infixl 5 ◌>>=◌
abbrev pub ◌>>=◌ : {A B : Type 0} → R A → (A → R B) → R B
◌>>=◌ m f r = elim (m r) [ none ↦ none | some (a, r') ↦ f a r' ]

abbrev pub return : {A : Type 0} → A → R A
return a r = some (a, r)

-- A `?` on an option that reads nothing.
abbrev pub lift : {A : Type 0} → Option A → R A
lift none r = none
lift (some a) r = some (a, r)

-- `Reader::bytes`
unfoldable pub bytes : ℕ → R (List ℕ)
bytes len r =
    if ltb (length r.input) (r.pos + len)
    then none
    else some (take len (drop r.pos r.input), record r { pos = r.pos + len })

-- `Reader::u8`, `Reader::u32`, `Reader::u64` and `Reader::vec_u32`
unfoldable pub read_u8 : R ℕ
read_u8 = do b ← bytes 1; return (at b 0)

unfoldable pub read_u32 : R ℕ
read_u32 = do b ← bytes 4; return (from_be b)

unfoldable pub read_u64 : R ℕ
read_u64 = do b ← bytes 8; return (from_be b)

unfoldable pub read_vec_u32 : R (List ℕ)
read_vec_u32 = do b ← bytes 4; bytes (from_be b)

unfoldable pub run_reader {ℓ} : {A : Type ℓ} → List ℕ → (Reader → A) → A
run_reader input m = m (record { input = input; pos = 0 })

-- What is left to read; a reader never stands beyond its input.
pub record At (r : Reader) (rest : List ℕ) : Type 0 where
  pub left : drop r.pos r.input ≡ rest
  pub inside : r.pos ≤ length r.input

-- The read takes exactly these bytes and returns this value, whatever follows.
pub record Reads {A : Type 0} (m : R A) (bs : List ℕ) (a : A) : Type 0 where
  pub read :
      (r : Reader) (rest : List ℕ)
      → At r (bs ++ rest)
      → (r' : Reader) × (m r ≡ some (a, r')) × At r' rest

bytes-Reads : (bs : List ℕ) → Reads (bytes (length bs)) bs bs
unfolding bytes
bytes-Reads bs = record {
  read = λ r rest a.
      let counted : length r.input - r.pos ≡ length bs + length rest =
        sym (length-drop r.pos r.input) ∙ ap length a.left ∙ length-append bs rest in
      let enough : ltb (length r.input) (r.pos + length bs) ≡ false = ground arith in
      let after : Reader = record r { pos = r.pos + length bs } in
      let left : drop (r.pos + length bs) r.input ≡ rest =
        drop_more r.pos (length bs) r.input
        ∙ ap (drop (length bs)) a.left
        ∙ drop-length-append bs rest in
      let read : take (length bs) (drop r.pos r.input) ≡ bs =
        ap (take (length bs)) a.left ∙ take-length-append bs rest in
      (after, rw (enough, read), record { left = left; inside = omega arith });
}

pub bytes-Reads_exact : (n : ℕ) (bs : List ℕ) → length bs ≡ n → Reads (bytes n) bs bs
bytes-Reads_exact n bs e = subst (λ k. Reads (bytes k) bs bs) e (bytes-Reads bs)

pub return-Reads : {A : Type 0} (a : A) → Reads (return a) [] a
return-Reads a = record { read = λ r rest a0. (r, refl, a0) }

pub lift-Reads : {A : Type 0} (o : Option A) (a : A) → o ≡ some a → Reads (lift o) [] a
lift-Reads o a e =
    subst (λ o. Reads (lift o) [] a) (sym e) (record { read = λ r rest a0. (r, refl, a0) })

-- Two reads one after the other.
pub bind-Reads :
    {A B : Type 0} (m : R A) (f : A → R B) (bs cs : List ℕ) (a : A) (b : B)
    → Reads m bs a
    → Reads (f a) cs b
    → Reads (m >>= f) (bs ++ cs) b
bind-Reads m f bs cs a b first second = record {
  read = λ r rest a0.
      let at' : At r (bs ++ (cs ++ rest)) = record {
        left = a0.left ∙ append_assoc bs cs rest;
        inside = a0.inside;
      } in
      let (r1, e1, a1) = first.read r (cs ++ rest) at' in
      let (r2, e2, a2) = second.read r1 rest a1 in (r2, rw (e1, ◌>>=◌) e2, a2);
}

pub then-Reads :
    {A B : Type 0} (m : R A) (g : A → B) (bs : List ℕ) (a : A)
    → Reads m bs a
    → Reads (m >>= λ x. return (g x)) bs (g a)
then-Reads m g bs a first = record {
  read = λ r rest a0. let (r1, e1, a1) = first.read r rest a0 in (r1, rw (e1, ◌>>=◌), a1);
}

pub read_u8-Reads : (b : ℕ) → Reads read_u8 (b ∷ []) b
unfolding read_u8
read_u8-Reads b = then-Reads (bytes 1) (λ x. at x 0) (b ∷ []) (b ∷ []) (bytes-Reads (b ∷ []))

pub read_u32-Reads : (v : ℕ) → v < 2 ^ 32 → Reads read_u32 (be_bytes 4 v) v
unfolding read_u32
read_u32-Reads v h = subst (Reads read_u32 (be_bytes 4 v)) (from_be-be_bytes 4 v h) (
    then-Reads (bytes 4) (λ x. from_be x) (be_bytes 4 v) (be_bytes 4 v)
      (bytes-Reads (be_bytes 4 v)))

pub read_u64-Reads : (v : ℕ) → v < 2 ^ 64 → Reads read_u64 (be_bytes 8 v) v
unfolding read_u64
read_u64-Reads v h = subst (Reads read_u64 (be_bytes 8 v)) (from_be-be_bytes 8 v h) (
    then-Reads (bytes 8) (λ x. from_be x) (be_bytes 8 v) (be_bytes 8 v)
      (bytes-Reads (be_bytes 8 v)))

-- `put_vec_u32`, as what it appends: the length in four bytes, and the bytes.
unfoldable pub vec_u32 : List ℕ → List ℕ
vec_u32 xs = be_bytes 4 (length xs % 2 ^ 32) ++ xs

pub read_vec_u32-Reads : (xs : List ℕ) → length xs < 2 ^ 32 → Reads read_vec_u32 (vec_u32 xs) xs
unfolding read_vec_u32 vec_u32
read_vec_u32-Reads xs h =
    let small : length xs % 2 ^ 32 ≡ length xs = omega arith in
    let size = be_bytes 4 (length xs % 2 ^ 32) in
    bind-Reads (bytes 4) (λ b. bytes (from_be b)) size xs size xs (bytes-Reads size)
      (bytes-Reads_exact (from_be size) xs
        (sym small ∙ sym (from_be-be_bytes 4 (length xs % 2 ^ 32) (omega arith))))

-- A read over a whole message that starts with the bytes it takes.
pub run_reader-Reads :
    {A : Type 0} (m : R A) (bs rest : List ℕ) (a : A)
    → Reads m bs a
    → (r : Reader) × (run_reader (bs ++ rest) m ≡ some (a, r))
unfolding run_reader
run_reader-Reads m bs rest a reads =
    let (r, e, _) =
      reads.read (record { input = bs ++ rest; pos = 0 }) rest
        (record { left = refl; inside = omega arith }) in
    (r, e)

-- No read goes beyond the input, and each moves forward.
pub bytes_inside :
    (len : ℕ) (r r' : Reader) (bs : List ℕ)
    → bytes len r ≡ some (bs, r')
    → (r'.input ≡ r.input) × (r'.pos ≡ r.pos + len) × (r'.pos ≤ length r.input)
unfolding bytes
bytes_inside len r r' bs e = ground arith
