-- ===== src/Handshake/Message/Agreement.antt =====
-- The two ends of a handshake hold the same session.
use mathlib.Core.Path.{ap₂}
use liteway.Common.{ℕ, ◌^◌, ◌<◌, ◌≡◌, ◌≢◌, refl, Bool, true, some, List, ◌∷◌, ◌++◌, arith}
use liteway.Cert.{Cert, HybridVerifyKey, HybridSigningKey}
use liteway.Pending.{HandshakeInitiate}
use liteway.Wire.{kind_handshake_1, kind_handshake_2, kind_handshake_frag, is_known}
use liteway.Wire.Seal.{add_random_padding}
use liteway.Handshake.{open_handshake, seal_handshake_with_header}
use liteway.Handshake.Opening.{open_handshake-whole}
use liteway.Handshake.Result.{ok}
use liteway.Handshake.Message.{
  Primitives, HandshakeDraw, HandshakeResponse, HandshakeResult, opening, signed_1, signed_2,
  plain_message, create_handshake_1, derive_session_v2,
}
use liteway.Handshake.Message.Process.{process_handshake_1, process_handshake_2, respond, conclude}
use liteway.Handshake.Message.Layout.{IsHandshakeDraw, IsClose, HandshakeLaws, IsMember}
use liteway.Handshake.Message.Written.{
  sent_1, sent_2, parse_handshake_1-plain_message, parse_handshake_2-plain_message,
}

-- One end: its certificate and keys, what it draws, and whether it offers to relay.
pub record End : Type 0 where
  pub cert : Cert
  pub signing_key : HybridSigningKey
  pub is_relay : Bool
  pub draw : HandshakeDraw

-- Both results tell of one session: each end has the certificate of the other, and receives under
-- the id that the other sends with.
pub record IsShared (a b : End) (response : HandshakeResponse) (result : HandshakeResult)
    : Type 0 where
  pub same_key : result.session_key ≡ response.session_key
  pub cert_of_a : response.peer_cert ≡ a.cert
  pub cert_of_b : result.peer_cert ≡ b.cert
  pub relay_of_a : response.peer_is_relay ≡ a.is_relay
  pub relay_of_b : result.peer_is_relay ≡ b.is_relay
  pub from_a_to_b : result.peer_rx_session_id ≡ response.my_rx_session_id
  pub from_b_to_a : response.peer_rx_session_id ≡ result.my_rx_session_id

module _ (p : Primitives) where
  abbrev pub first_of : End → List ℕ → ℕ → HandshakeInitiate
  first_of a network_key sent =
      create_handshake_1 p a.cert a.signing_key network_key a.is_relay sent a.draw

  -- A message that says its kind first opens at everyone who has the network key.
  pub open-plain_message :
      (kind : ℕ) (rest nk : List ℕ) (sk : HybridSigningKey) (session_id : ℕ) (d : HandshakeDraw)
      → HandshakeLaws p
      → IsHandshakeDraw d
      → is_known kind ≡ true
      → kind ≢ kind_handshake_frag
      → kind < 256
      → session_id < 2 ^ 32
      → open_handshake p.crates nk (
          seal_handshake_with_header p.crates nk
            (plain_message p (kind ∷ rest) sk d)
            0
            session_id
            d.packet)
        ≡ some (plain_message p (kind ∷ rest) sk d)
  unfolding plain_message add_random_padding
  open-plain_message kind rest nk sk session_id d l v known whole byte h =
      open_handshake-whole p.crates l.packets nk _ kind 0 session_id d.packet v.packet known whole
        byte (omega arith) h

  -- The first message as the other end takes it.
  pub process_handshake_1-first_of :
      (a b : End) (network_key : List ℕ) (ca_vk : HybridVerifyKey) (sent now : ℕ)
      → HandshakeLaws p
      → IsHandshakeDraw a.draw
      → IsClose now sent
      → IsMember p ca_vk now a.cert a.signing_key
      → process_handshake_1 p
          (first_of a network_key sent).msg
          b.cert
          b.signing_key
          network_key
          ca_vk
          b.is_relay
          now
          b.draw
        ≡ ok (
            respond p
              (first_of a network_key sent).msg
              b.cert
              b.signing_key
              network_key
              b.is_relay
              now
              b.draw
              (sent_1 p a.cert a.is_relay a.draw))
  unfolding process_handshake_1 create_handshake_1 signed_1 opening is_known
  process_handshake_1-first_of a b network_key ca_vk sent now l v h m =
      rw
        (
          open-plain_message kind_handshake_1 _ network_key a.signing_key a.draw.session_id a.draw l
              v refl (λ e. omega arith) (omega arith) v.session_u32,
          parse_handshake_1-plain_message p ca_vk now sent a.cert a.signing_key a.is_relay a.draw l
              v h m,
          l.mlkem_public_key a.draw.eph_mlkem,
        )
        refl

  abbrev pub answer_of : End → End → List ℕ → ℕ → ℕ → HandshakeResponse
  answer_of a b network_key sent now =
      respond p (first_of a network_key sent).msg b.cert b.signing_key network_key b.is_relay now
        b.draw (sent_1 p a.cert a.is_relay a.draw)

  abbrev pub ciphertext_of : End → End → List ℕ
  ciphertext_of a b =
      (p.agreement.encapsulate (p.agreement.mlkem_public a.draw.eph_mlkem) b.draw.encapsulation).0

  -- The answer as the first end takes it.
  pub process_handshake_2-answer_of :
      (a b : End) (network_key : List ℕ) (ca_vk : HybridVerifyKey) (sent answered now : ℕ)
      → HandshakeLaws p
      → IsHandshakeDraw a.draw
      → IsHandshakeDraw b.draw
      → IsClose now answered
      → IsMember p ca_vk now b.cert b.signing_key
      → process_handshake_2 p
          (answer_of a b network_key sent answered).msg
          (first_of a network_key sent)
          network_key
          ca_vk
          now
        ≡ ok (
            conclude p
              (answer_of a b network_key sent answered).msg
              (first_of a network_key sent)
              (sent_2 p b.cert b.is_relay b.draw (ciphertext_of a b)))
  unfolding process_handshake_2 respond signed_2 opening is_known
  process_handshake_2-answer_of a b network_key ca_vk sent answered now l v w h m =
      rw
        (
          open-plain_message kind_handshake_2 _ network_key b.signing_key a.draw.session_id b.draw l
              w refl (λ e. omega arith) (omega arith) v.session_u32,
          parse_handshake_2-plain_message p ca_vk now answered b.cert b.signing_key b.is_relay
              b.draw (ciphertext_of a b) (first_of a network_key sent).msg l w h m
              (l.ciphertext_length _ b.draw.encapsulation),
          l.ciphertext_form (p.agreement.mlkem_public a.draw.eph_mlkem) b.draw.encapsulation,
        )
        refl

  -- Two nodes of the network, whose clocks differ by at most five minutes while the messages pass, end
  -- up with one session, if no message is lost or changed: the first end's message is accepted, the
  -- answer to it too, and the two results have the same key, the certificates and the relay flags of
  -- the other end, and each other's session ids.
  pub handshake_agrees :
      (a b : End) (network_key : List ℕ) (ca_vk : HybridVerifyKey) (sent answered now : ℕ)
      → HandshakeLaws p
      → IsHandshakeDraw a.draw
      → IsHandshakeDraw b.draw
      → IsClose answered sent
      → IsClose now answered
      → IsMember p ca_vk answered a.cert a.signing_key
      → IsMember p ca_vk now b.cert b.signing_key
      → (response : HandshakeResponse) × (result : HandshakeResult) × (process_handshake_1 p
            (first_of a network_key sent).msg
            b.cert
            b.signing_key
            network_key
            ca_vk
            b.is_relay
            answered
            b.draw
          ≡ ok response)
        × (process_handshake_2 p response.msg (first_of a network_key sent) network_key ca_vk now
            ≡ ok result)
        × IsShared a b response result
  unfolding respond conclude create_handshake_1
  handshake_agrees a b network_key ca_vk sent answered now l v w h k ma mb = (
    answer_of a b network_key sent answered,
    conclude p (answer_of a b network_key sent answered).msg (first_of a network_key sent)
        (sent_2 p b.cert b.is_relay b.draw (ciphertext_of a b)),
    process_handshake_1-first_of a b network_key ca_vk sent answered l v h ma,
    process_handshake_2-answer_of a b network_key ca_vk sent answered now l v w k mb,
    record {
      same_key =
          ap₂
            (λ x m.
              derive_session_v2 p (x ++ m) (first_of a network_key sent).msg
                (answer_of a b network_key sent answered).msg)
            (l.same_secret a.draw.eph_x25519 b.draw.eph_x25519)
            (l.decapsulate_encapsulate a.draw.eph_mlkem b.draw.encapsulation);
      cert_of_a = refl;
      cert_of_b = refl;
      relay_of_a = refl;
      relay_of_b = refl;
      from_a_to_b = refl;
      from_b_to_a = refl;
    },
  )
