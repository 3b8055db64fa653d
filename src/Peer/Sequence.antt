-- ===== src/Peer/Sequence.antt =====
-- The sequence numbers of one session, from `next_seq` of the sender to the receiver's window.
use mathlib.Core.Path.{subst}
use mathlib.Core.List.{reverse, reverse-cons, append_assoc, append-nil}
use liteway.Common.{
  ℕ, zero, suc, ◌+◌, ◌^◌, ◌<◌, max, ◌≡◌, refl, ◌∙◌, true, List, [], ◌∷◌, ◌++◌, arith,
}
use liteway.Replay.{new}
use liteway.Replay.History.{newest, admits, admitted, offer, offer-new_refines, contains_above}
use liteway.Peer.{PeerState, next_seq}

abbrev Rising : ℕ → List ℕ → Type 0
Rising n [] = Unit
Rising n (s ∷ rest) = (n < s) × Rising s rest

admits_above : (h : List ℕ) (s : ℕ) → newest h < s → admits h s ≡ true
admits_above h s lt = ground (arith, contains_above s h)

max-eq : (m s : ℕ) → m < s → max s m ≡ s
max-eq m s h = omega arith

admitted-Rising : (h rest : List ℕ) → Rising (newest h) rest → admitted h rest ≡ reverse rest ++ h
unfolding admitted
admitted-Rising h [] r = refl
admitted-Rising h (s ∷ rest) r = rw (
  admits_above h s r.0,
  admitted-Rising (s ∷ h) rest (rw (max-eq (newest h) s r.0) r.1),
  reverse-cons,
  append_assoc,
)

module _ {Net : Type 0} where
  -- The numbers of the next packets that a peer's session sends.
  unfoldable pub send_many : ℕ → PeerState Net → List ℕ
  send_many zero p = []
  send_many (suc k) p = (next_seq p).1 ∷ send_many k (next_seq p).0

  send_many-Rising :
      (k : ℕ) (p : PeerState Net) → p.tx_seq + k < 2 ^ 64 → Rising p.tx_seq (send_many k p)
  unfolding send_many next_seq
  send_many-Rising zero p h = tt
  send_many-Rising (suc k) p h = (omega arith, send_many-Rising k (next_seq p).0 (omega arith))

  -- The numbers that a session sends from its start on, fewer than 2 ^ 64 of them, are all let
  -- through by a new window, in their order.
  pub send_many-offer :
      (k : ℕ) (p : PeerState Net)
      → p.tx_seq ≡ 0
      → k < 2 ^ 64
      → (offer new [] (send_many k p)).1 ≡ reverse (send_many k p)
  send_many-offer k p z h =
      offer-new_refines (send_many k p)
      ∙ admitted-Rising [] (send_many k p)
          (subst (λ n. Rising n (send_many k p)) z (send_many-Rising k p (omega arith)))
      ∙ append-nil (reverse (send_many k p))
