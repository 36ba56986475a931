-- ===== src/Hysteria2/Protocol/Responses.antt =====
-- The response to a TCP request in src/hysteria2/protocol.rs, from the server's outcome to what the
-- client learns of it.
use sing_quic_rs.Prelude.{
  ℕ, ◌≤◌, ◌≡◌, refl, List, [], ◌∷◌, ◌++◌, length, take, min, arith, append_assoc, take-min,
  length-take, ◌==◌, if◌then◌else◌,
}
use sing_quic_rs.Error.{
  io, protocol, remote_error, response_message_too_large, response_padding_too_large, Result, ok,
  err,
}
use sing_quic_rs.Reader.{Reader, pure, fail, take_byte}
use sing_quic_rs.Writer.{Writes, Writes-bind, Writes-write_all, Sink, push}
use sing_quic_rs.VarInt.Bounds.{encoding}
use sing_quic_rs.Hysteria2.Protocol.{Rng, padding, max_message_length, max_padding_length}
use sing_quic_rs.Hysteria2.Protocol.Send.{
  write_tcp_response, Outcome, accepted, refused, status_of, message_of,
}
use sing_quic_rs.Hysteria2.Protocol.Receive.{read_tcp_response}
use sing_quic_rs.Hysteria2.Protocol.Frames.{
  IsRng, length-padding, Writes-write_varint, Writes-sized, sized, read_sized-sized,
}

-- What the client learns: nothing, or the first 2048 bytes of the server's message.
abbrev pub heard : Outcome → List ℕ → Result (Unit {0} × List ℕ)
heard accepted rest = ok (tt, rest)
heard (refused message) rest = err (protocol (remote_error (take max_message_length message)))

abbrev sent_message : Outcome → List ℕ
sent_message o = take (min (length (message_of o)) max_message_length) (message_of o)

abbrev pub response_frame : Outcome → List ℕ → List ℕ
response_frame o pad =
    (status_of o ∷ []) ++ (encoding (length (sent_message o)) ++ (sent_message o ++ sized pad))

length-sent_message : (o : Outcome) → length (sent_message o) ≤ max_message_length
length-sent_message o =
    omega (arith, length-take (min (length (message_of o)) max_message_length) (message_of o))

Writes-write_tcp_response :
    (rng : Rng) (o : Outcome)
    → IsRng rng
    → Writes (write_tcp_response rng o) tt (response_frame o (padding rng 128 1024))
unfolding write_tcp_response
Writes-write_tcp_response rng o r =
    let pads = length-padding rng 128 1024 r (omega arith) in
    let pad : List ℕ = padding rng 128 1024 in
    Writes-bind _ _ tt tt _ _ (Writes-write_all io (status_of o ∷ [])) (
      Writes-bind _ _ tt tt _ _
        (Writes-write_varint (length (sent_message o)) (omega (arith, length-sent_message o)))
        (Writes-bind _ _ tt tt _ _ (Writes-write_all io (sent_message o))
          (Writes-sized pad (omega arith))))

regroup {ℓ} : {A : Type ℓ} (a b c d : List A) → (a ++ (b ++ c)) ++ d ≡ (a ++ b) ++ (c ++ d)
regroup a b c d = simp append_assoc

read_tcp_response-frame :
    (o : Outcome) (pad rest : List ℕ)
    → length pad ≤ max_padding_length
    → read_tcp_response (response_frame o pad ++ rest) ≡ heard o rest
unfolding read_tcp_response take_byte
read_tcp_response-frame o pad rest h =
    let body =
      read_sized-sized max_message_length (protocol response_message_too_large) (sent_message o)
        (sized pad ++ rest) (length-sent_message o) (omega arith) in
    let tail =
      read_sized-sized max_padding_length (protocol response_padding_too_large) pad rest h
        (omega arith) in
    rw (regroup (encoding (length (sent_message o))) (sent_message o) (sized pad) rest, body, tail)
      (outcome o)
  where
    outcome :
        (o : Outcome)
        → if◌then◌else◌ {A = Reader (Unit {0})}
            (status_of o == 0)
            (pure tt)
            (fail (protocol (remote_error (sent_message o))))
            rest
          ≡ heard o rest
    outcome accepted = refl
    outcome (refused message) = rw (take-min max_message_length message)

-- The server's response is written as one frame, and the client reads success from it exactly where
-- the server accepted; of a refusal it reads the first 2048 bytes of the message.
pub read-write_tcp_response :
    (rng : Rng) (o : Outcome) (rest : List ℕ) (s : Sink)
    → IsRng rng
    → length (response_frame o (padding rng 128 1024)) ≤ s.budget
    → (frame : List ℕ) × (write_tcp_response rng o s ≡ (ok tt, push s frame))
      × (read_tcp_response (frame ++ rest) ≡ heard o rest)
read-write_tcp_response rng o rest s r room =
    let pads = length-padding rng 128 1024 r (omega arith) in
    (
      response_frame o (padding rng 128 1024),
      (Writes-write_tcp_response rng o r).at s room,
      read_tcp_response-frame o (padding rng 128 1024) rest (omega arith),
    )
