-- ===== src/Handshake/Message/Tests.antt =====
-- Runs of the handshake, and the theorems about it at two nodes.
use liteway.Common.{ℕ, ◌≡◌, ◌≢◌, ap, ◌≤◌, inl, arith, List, [], true, false, some}
use liteway.Pending.{HandshakeInitiate}
use liteway.Wire.{at, slice}
use liteway.Handshake.{open_handshake, seal_handshake_with_header}
use liteway.Handshake.Result.{ok, err, clock_skew, transcript_mismatch}
use liteway.Handshake.Message.{HandshakeResponse, HandshakeResult, create_handshake_1}
use liteway.Handshake.Message.Process.{process_handshake_1, process_handshake_2, respond, conclude}
use liteway.Handshake.Message.Written.{sent_1, sent_2}
use liteway.Handshake.Message.Agreement.{
  IsShared, first_of, answer_of, ciphertext_of, handshake_agrees, process_handshake_1-first_of,
  process_handshake_2-answer_of,
}
use liteway.Handshake.Message.Refusals.Reads.{IsFar}
use liteway.Handshake.Message.Refusals.{
  process_handshake_1-first_of_far, process_handshake_2-other_answer,
}
use liteway.Handshake.Message.Authenticity.{
  process_handshake_1-authentic, process_handshake_2-authentic,
}
use liteway.Handshake.Message.Authenticity.Signed.{IsSignedBy, EndsWithCert}
use liteway.Handshake.Message.Sample.{
  primitives, crates, laws, ca_key, bob, alice, end_a, end_b, draw_a, draw_b, alice-IsMember,
  bob-IsMember, close,
}

abbrev first : HandshakeInitiate
first = first_of primitives end_a [] 300

handshake_agrees_example :
    (response : HandshakeResponse) × (result : HandshakeResult) × (process_handshake_1 primitives
        first.msg end_b.cert end_b.signing_key [] ca_key end_b.is_relay 500 end_b.draw
      ≡ ok response)
    × (process_handshake_2 primitives response.msg first [] ca_key 500 ≡ ok result)
    × IsShared end_a end_b response result
handshake_agrees_example =
    handshake_agrees primitives end_a end_b [] ca_key 300 500 500 laws draw_a draw_b close
      (record { not_late = omega arith; not_early = omega arith; fits = omega arith })
      alice-IsMember bob-IsMember

late : IsFar 500 199
late = record { apart = inl (omega arith); fits = omega arith }

process_handshake_1-first_of_far_example :
    process_handshake_1 primitives
      (first_of primitives end_a [] 199).msg
      bob
      end_b.signing_key
      []
      ca_key
      true
      500
      end_b.draw
    ≡ err clock_skew
process_handshake_1-first_of_far_example =
    process_handshake_1-first_of_far primitives end_a end_b [] ca_key 199 500 laws draw_a late
      alice-IsMember

abbrev other : HandshakeInitiate
other = record { msg = []; eph_x25519_sk = []; eph_mlkem_sk = []; my_rx_session_id = 11 }

hashes_differ : crates.hash first.msg ≢ crates.hash other.msg
unfolding create_handshake_1 seal_handshake_with_header
hashes_differ e = omega (arith, ap (λ bs. at bs 0) e)

process_handshake_2-other_answer_example :
    process_handshake_2 primitives
      (answer_of primitives end_a end_b [] 300 300).msg
      other
      []
      ca_key
      500
    ≡ err transcript_mismatch
process_handshake_2-other_answer_example =
    process_handshake_2-other_answer primitives end_a end_b other [] ca_key 300 300 500 laws draw_a
      draw_b close bob-IsMember hashes_differ

process_handshake_1-authentic_example :
    (plaintext : List ℕ) × (n : ℕ) × (open_handshake crates [] first.msg ≡ some plaintext)
    × EndsWithCert primitives 1248
        (respond primitives first.msg bob end_b.signing_key [] true 500 end_b.draw
          (sent_1 primitives alice false end_a.draw)).peer_cert
        plaintext
        n
    × IsSignedBy primitives 500 ca_key
        (respond primitives first.msg bob end_b.signing_key [] true 500 end_b.draw
          (sent_1 primitives alice false end_a.draw)).peer_cert
        plaintext
        n
process_handshake_1-authentic_example =
    process_handshake_1-authentic primitives first.msg bob end_b.signing_key [] ca_key true 500
      end_b.draw
      (respond primitives first.msg bob end_b.signing_key [] true 500 end_b.draw
        (sent_1 primitives alice false end_a.draw))
      (process_handshake_1-first_of primitives end_a end_b [] ca_key 300 500 laws draw_a close
        alice-IsMember)

abbrev outcome : HandshakeResult
outcome =
    conclude primitives (answer_of primitives end_a end_b [] 300 300).msg first
      (sent_2 primitives bob true end_b.draw (ciphertext_of primitives end_a end_b))

process_handshake_2-authentic_example :
    (plaintext : List ℕ) × (n : ℕ) × (open_handshake crates []
        (answer_of primitives end_a end_b [] 300 300).msg
      ≡ some plaintext)
    × (slice plaintext 1152 32 ≡ crates.hash first.msg)
    × (1184 ≤ n)
    × EndsWithCert primitives 1184 outcome.peer_cert plaintext n
    × IsSignedBy primitives 500 ca_key outcome.peer_cert plaintext n
process_handshake_2-authentic_example =
    process_handshake_2-authentic primitives (answer_of primitives end_a end_b [] 300 300).msg first
      [] ca_key 500 outcome
      (process_handshake_2-answer_of primitives end_a end_b [] ca_key 300 300 500 laws draw_a draw_b
        close bob-IsMember)
