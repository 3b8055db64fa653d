-- ===== src/Frag/Sending.antt =====
-- What the fragments of a message carry, and how large they are.
use native.Mathlib.Omega.{div_any}
use native.Mathlib.Nat.{mul-le-mul_right, mod-lt}
use liteway.Common.{
  ℕ, zero, suc, ◌+◌, ◌-◌, ◌*◌, ◌/◌, ◌%◌, ◌^◌, ◌≤◌, ◌<◌, max, ◌≡◌, refl, ap, ◌∙◌, Option, some, List,
  [], ◌∷◌, ◌++◌, arith, length, take, drop, All, map, drop_more, length-take, take_more, take_all,
}
use mathlib.Core.Path.{subst}
use liteway.Crypto.{Crates, Laws}
use liteway.Wire.Seal.{Draw, IsDraw}
use liteway.Handshake.{open_handshake}
use liteway.Handshake.Opening.{fragment, open_handshake-fragment, seal-fragment-length}
use liteway.Frag.{sent, chunk_at, div_ceil, send_from, send_fragmented_with_id}

pub record AreDraws (draws : ℕ → Draw) : Type 0 where
  pub each : (i : ℕ) → IsDraw (draws i)

enough : (len size : ℕ) → 0 < size → len ≤ max (div_ceil len size) 1 * size
enough len size h =
    let q = (len + size - 1) / size in
    let more : q * size ≤ max q 1 * size =
      mul-le-mul_right size (let le : q ≤ max q 1 = omega arith in le) in
    ground (arith, more, div_any (len + size - 1) size, mod-lt (len + size - 1) {m = size} h)

-- How many chunks a message is cut into.
abbrev pub chunks_in : List ℕ → ℕ → ℕ
chunks_in message max_datagram = max (div_ceil (length message) (max_datagram - 52)) 1

-- The chunks from the index `i` on, joined.
abbrev pub joined : ℕ → List ℕ → ℕ → ℕ → List ℕ
joined size message i zero = []
joined size message i (suc left) = chunk_at size message i ++ joined size message (i + 1) left

-- What the packets open to: the fragments in order.
abbrev pub opened : ℕ → List ℕ → ℕ → ℕ → ℕ → ℕ → List (Option (List ℕ))
opened size message total msg_id i zero = []
opened size message total msg_id i (suc left) =
    some (fragment msg_id i total (chunk_at size message i))
    ∷ opened size message total msg_id (i + 1) left

take-joined :
    (size : ℕ) (message : List ℕ) (i left : ℕ)
    → joined size message i left ≡ take (left * size) (drop (i * size) message)
take-joined size message i zero =
    ap (λ (k : ℕ). take k (drop (i * size) message)) (let h : 0 ≡ 0 * size = omega arith in h)
take-joined size message i (suc left) =
    let next : (i + 1) * size ≡ i * size + size = ground arith in
    let more : size + left * size ≡ suc left * size = ground arith in
    rw
      (
        take-joined size message (i + 1) left,
        next,
        drop_more (i * size) size message,
        take_more size (left * size) (drop (i * size) message),
        more,
      )
      refl

module _ (c : Crates) (l : Laws c) where
  send_from-fits :
      (nk message : List ℕ) (size total dst msg_id : ℕ) (draws : ℕ → Draw) (i left : ℕ)
      → AreDraws draws
      → msg_id < 2 ^ 32
      → All (λ p. length p ≤ size + 52) (send_from c nk message size total dst msg_id draws i left)
  unfolding send_from
  send_from-fits nk message size total dst msg_id draws i zero d h = tt
  send_from-fits nk message size total dst msg_id draws i (suc left) d h = (
    omega (
      arith,
      seal-fragment-length c l nk (chunk_at size message i) dst msg_id (i % 256) (total % 256)
          (draws i) (d.each i) h,
      length-take size (drop (i * size) message),
    ),
    send_from-fits nk message size total dst msg_id draws (i + 1) left d h,
  )

  send_from-length :
      (nk message : List ℕ) (size total dst msg_id : ℕ) (draws : ℕ → Draw) (i left : ℕ)
      → length (send_from c nk message size total dst msg_id draws i left) ≡ left
  unfolding send_from
  send_from-length nk message size total dst msg_id draws i zero = refl
  send_from-length nk message size total dst msg_id draws i (suc left) =
      ap suc (send_from-length nk message size total dst msg_id draws (i + 1) left)

  sent_packets :
      (nk message : List ℕ) (max_datagram dst msg_id : ℕ) (draws : ℕ → Draw)
      (packets : List (List ℕ))
      → send_fragmented_with_id c nk message max_datagram dst msg_id draws ≡ sent packets
      → let total = chunks_in message max_datagram in
        (send_from c nk message (max_datagram - 52) total dst msg_id draws 0 total ≡ packets)
        × (53 ≤ max_datagram)
        × (total ≤ 255)
  unfolding send_fragmented_with_id
  sent_packets nk message max_datagram dst msg_id draws packets e = ground arith

  -- When a message is sent, no datagram is larger than the limit and there are 255 at most, if its
  -- id fits 32 bits, the random bytes drawn have their lengths and the crates' cipher and hash keep
  -- their promises.
  pub send_fragmented_with_id-fits :
      (nk message : List ℕ) (max_datagram dst msg_id : ℕ) (draws : ℕ → Draw)
      (packets : List (List ℕ))
      → AreDraws draws
      → msg_id < 2 ^ 32
      → send_fragmented_with_id c nk message max_datagram dst msg_id draws ≡ sent packets
      → All (λ p. length p ≤ max_datagram) packets × (length packets ≤ 255)
  send_fragmented_with_id-fits nk message max_datagram dst msg_id draws packets d h e =
      let total = chunks_in message max_datagram in
      let size = max_datagram - 52 in
      let (these, least, few) = sent_packets nk message max_datagram dst msg_id draws packets e in
      let whole : size + 52 ≡ max_datagram = omega arith in
      rw (← these) (
        subst
            (λ m.
              All (λ p. length p ≤ m) (send_from c nk message size total dst msg_id draws 0 total))
            whole (send_from-fits nk message size total dst msg_id draws 0 total d h),
        omega (arith, send_from-length nk message size total dst msg_id draws 0 total),
      )

  open-send_from :
      (nk message : List ℕ) (size total dst msg_id : ℕ) (draws : ℕ → Draw) (i left : ℕ)
      → AreDraws draws
      → dst < 2 ^ 32
      → msg_id < 2 ^ 32
      → i + left ≤ total
      → total < 256
      → map (open_handshake c nk) (send_from c nk message size total dst msg_id draws i left)
        ≡ opened size message total msg_id i left
  unfolding send_from
  open-send_from nk message size total dst msg_id draws i zero d hd hm hi ht = refl
  open-send_from nk message size total dst msg_id draws i (suc left) d hd hm hi ht =
      let small_i : i % 256 ≡ i = omega arith in
      let small_t : total % 256 ≡ total = omega arith in
      rw
        (
          small_i,
          small_t,
          open_handshake-fragment c l nk (chunk_at size message i) dst msg_id i total (draws i)
              (d.each i) hd hm (omega arith) ht,
          open-send_from nk message size total dst msg_id draws (i + 1) left d hd hm (omega arith)
              ht,
        )
        refl

  -- A message that is sent is carried whole, if the numbers fit 32 bits, the random bytes drawn
  -- have their lengths and the crates' cipher and hash keep their promises: the packets open, in
  -- order, to the fragments of its chunks, numbered from zero, and the chunks joined are the
  -- message.
  pub send_fragmented_with_id-opens :
      (nk message : List ℕ) (max_datagram dst msg_id : ℕ) (draws : ℕ → Draw)
      (packets : List (List ℕ))
      → AreDraws draws
      → dst < 2 ^ 32
      → msg_id < 2 ^ 32
      → send_fragmented_with_id c nk message max_datagram dst msg_id draws ≡ sent packets
      → let total = chunks_in message max_datagram in
        let size = max_datagram - 52 in
        (map (open_handshake c nk) packets ≡ opened size message total msg_id 0 total)
        × (joined size message 0 total ≡ message)
  send_fragmented_with_id-opens nk message max_datagram dst msg_id draws packets d hd hm e =
      let total = chunks_in message max_datagram in
      let size = max_datagram - 52 in
      let (these, least, few) = sent_packets nk message max_datagram dst msg_id draws packets e in
      rw (← these) (
        open-send_from nk message size total dst msg_id draws 0 total d hd hm (omega arith)
            (omega arith),
        take-joined size message 0 total
            ∙ ap (λ (k : ℕ). take (total * size) (drop k message))
                (let h : 0 * size ≡ 0 = omega arith in h)
            ∙ take_all (total * size) message (enough (length message) size (omega arith)),
      )
