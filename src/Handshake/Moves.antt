-- ===== src/Handshake/Moves.antt =====
-- Reads that succeed: what they returned, and how far they went.
use liteway.Common.{
  ℕ, ◌+◌, ◌≤◌, ◌≡◌, refl, sym, ap, ◌∙◌, Bool, true, false, Option, none, some, List, arith,
  if◌then◌else◌,
}
use liteway.Wire.Reader.{Reader}
use liteway.Handshake.Result.{
  HandshakeError, Result, ok, err, too_short, or_err, ensure, decrypt_failed, transcript_mismatch,
  invalid_cert_json, invalid_mlkem_key, invalid_mlkem_ciphertext, wrong_kind, unsupported_version,
}
use liteway.Handshake.Result as Chain
use liteway.Handshake.Reader.{R, ◌>>=◌, return, lift, bytes}

-- A chain of reads that succeeds is two reads that succeed.
pub bind_run :
    {A B : Type 0} (x : Result (A × Reader)) (f : A → R B) (b : B) (r' : Reader)
    → (elim x [ err e ↦ err e | ok (a, r1) ↦ f a r1 ]) ≡ ok (b, r')
    → (a : A) × (r1 : Reader) × (x ≡ ok (a, r1)) × (f a r1 ≡ ok (b, r'))
bind_run (err e) f b r' h = absurd (cc)
bind_run (ok (a, r1)) f b r' h = (a, r1, refl, h)

module _ {A B : Type 0} where
  pub bind-ok :
      (m : R A) (f : A → R B) (r r' : Reader) (b : B)
      → (m >>= f) r ≡ ok (b, r')
      → (a : A) × (r1 : Reader) × (m r ≡ ok (a, r1)) × (f a r1 ≡ ok (b, r'))
  bind-ok m f r r' b h = bind_run (m r) f b r' h

pub chain-ok :
    {A B : Type 0} (x : Result A) (f : A → Result B) (b : B)
    → (Chain.◌>>=◌ x f) ≡ ok b
    → (a : A) × (x ≡ ok a) × (f a ≡ ok b)
chain-ok (err e) f b h = absurd (cc)
chain-ok (ok a) f b h = (a, refl, h)

pub or_err-ok :
    {A : Type 0} (o : Option A) (e : HandshakeError) (a : A) → or_err o e ≡ ok a → o ≡ some a
or_err-ok none e a h = absurd (cc)
or_err-ok (some b) e a h = cc

pub otherwise :
    {A : Type 0} (test : Bool) (e : HandshakeError) (x : Result A) (a : A)
    → (if test then err e else x) ≡ ok a
    → x ≡ ok a
otherwise true e x a h = absurd (cc)
otherwise false e x a h = h

pub lift-ok :
    {A : Type 0} (o : Result A) (r r' : Reader) (a : A)
    → lift o r ≡ ok (a, r')
    → (o ≡ ok a) × (r ≡ r')
lift-ok (err e) r r' a h = absurd (cc)
lift-ok (ok b) r r' a h = (cc, cc)

-- The read stays in its input and goes forward by this much.
pub record Moves {A : Type 0} (n : ℕ) (m : R A) : Type 0 where
  pub moves :
      (r r' : Reader) (a : A) → m r ≡ ok (a, r') → (r'.input ≡ r.input) × (r'.pos ≡ r.pos + n)

-- It goes forward by some number.
pub record Grows {A : Type 0} (m : R A) : Type 0 where
  pub grows : (r r' : Reader) (a : A) → m r ≡ ok (a, r') → (r'.input ≡ r.input) × (r.pos ≤ r'.pos)

pub bytes-Moves : (n : ℕ) → Moves n (bytes n)
unfolding bytes
bytes-Moves n = record { moves = λ r r' a h. ground arith }

pub stays : (r r' : Reader) → r ≡ r' → (r'.input ≡ r.input) × (r'.pos ≡ r.pos + 0)
stays r r' same =
    let place : r'.pos ≡ r.pos = ap (λ x. x.pos) (sym same) in
    (ap (λ x. x.input) (sym same), omega arith)

pub lift-Moves : {A : Type 0} (o : Result A) → Moves 0 (lift o)
lift-Moves o = record { moves = λ r r' a h. stays r r' (lift-ok o r r' a h).1 }

pub return-Moves : {A : Type 0} (a : A) → Moves 0 (return a)
return-Moves a = record { moves = λ r r' b h. stays r r' (cc) }

pub bind-Moves :
    {A B : Type 0} (n k : ℕ) (m : R A) (f : A → R B)
    → Moves n m
    → ((a : A) → Moves k (f a))
    → Moves (n + k) (m >>= f)
bind-Moves n k m f first second = record {
  moves = λ r r' b h.
      let (a, r1, e1, e2) = bind-ok m f r r' b h in
      let (i1, p1) = first.moves r r1 a e1 in
      let (i2, p2) = (second a).moves r1 r' b e2 in (i2 ∙ i1, omega arith);
}

pub bind-Grows :
    {A B : Type 0} (m : R A) (f : A → R B) → Grows m → ((a : A) → Grows (f a)) → Grows (m >>= f)
bind-Grows m f first second = record {
  grows = λ r r' b h.
      let (a, r1, e1, e2) = bind-ok m f r r' b h in
      let (i1, p1) = first.grows r r1 a e1 in
      let (i2, p2) = (second a).grows r1 r' b e2 in (i2 ∙ i1, omega arith);
}

pub Moves-Grows : {A : Type 0} (n : ℕ) (m : R A) → Moves n m → Grows m
Moves-Grows n m h = record { grows = λ r r' a e. let (i, p) = h.moves r r' a e in (i, omega arith) }

pub number-Moves : {A : Type 0} (n : ℕ) (g : List ℕ → A) → Moves n (bytes n >>= λ b. return (g b))
number-Moves n g = record {
  moves = λ r r' b h.
      let (i, p) =
        (bind-Moves n 0 (bytes n) (λ b. return (g b)) (bytes-Moves n)
            (λ a. return-Moves (g a))).moves
          r r' b h in
      (i, omega arith);
}
