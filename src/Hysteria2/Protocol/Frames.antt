-- ===== src/Hysteria2/Protocol/Frames.antt =====
-- The frames of src/hysteria2/protocol.rs on the wire: what the writers write is what the readers
-- at the other end read.
use sing_quic_rs.Prelude.{
  ℕ, zero, suc, ◌+◌, ◌≤◌, ◌<◌, ◌≡◌, ap, refl, true, List, ◌∷◌, ◌++◌, length, min, arith,
  append_assoc, length-append,
}
use sing_quic_rs.Error.{Error, io, protocol, request_padding_too_large, invalid_address, ok, err}
use sing_quic_rs.Reader.{take_exact-append}
use sing_quic_rs.Writer.{Writer, Writes, Writes-bind, Writes-write_all, Sink, push, write_all}
use sing_quic_rs.Writer
use sing_quic_rs.VarInt.{max_value}
use sing_quic_rs.VarInt.Bounds.{encoding, encode-encoding}
use sing_quic_rs.VarInt.RoundTrip.{read-encoding}
use sing_quic_rs.Decimal.{to_decimal}
use sing_quic_rs.Text.{is_utf8}
use sing_quic_rs.Address.{Address, NetText, display}
use sing_quic_rs.Address.RoundTrip.{IsCanonical, from_str-display}
use sing_quic_rs.Hysteria2.Protocol.{
  Rng, samples, padding, frame_type_tcp_request, max_address_length, max_padding_length,
}
use sing_quic_rs.Hysteria2.Protocol.Send.{write_varint, write_request_frame, write_tcp_request}
use sing_quic_rs.Hysteria2.Protocol.Receive.{parse_address, read_sized, read_tcp_request}

-- `gen_range` draws from the half-open range that it is given.
pub record IsRng (rng : Rng) : Type 0 where
  pub in_range :
      (min max : ℕ) → min < max → (min ≤ rng.gen_range min max) × (rng.gen_range min max < max)

length-samples : (draw : ℕ → ℕ) (i n : ℕ) → length (samples draw i n) ≡ n
unfolding samples
length-samples draw i zero = refl
length-samples draw i (suc n) = ap suc (length-samples draw (i + 1) n)

pub length-padding :
    (rng : Rng) (min max : ℕ)
    → IsRng rng
    → min < max
    → (min ≤ length (padding rng min max)) × (length (padding rng min max) < max)
unfolding padding
length-padding rng min max r h =
    omega (arith, length-samples rng.alphanumeric 0 (rng.gen_range min max), r.in_range min max h)

pub Writes-write_varint : (v : ℕ) → v ≤ max_value → Writes (write_varint v) tt (encoding v)
unfolding write_varint
Writes-write_varint v h = rw (encode-encoding v h, write_varint) (Writes-write_all io (encoding v))

-- A length and that many bytes.
abbrev pub sized : List ℕ → List ℕ
sized bytes = encoding (length bytes) ++ bytes

abbrev pub request_frame : List ℕ → List ℕ → List ℕ
request_frame address pad =
    encoding frame_type_tcp_request ++ (encoding (length address) ++ (address ++ sized pad))

pub Writes-sized :
    (bytes : List ℕ)
    → length bytes ≤ max_value
    → Writes (Writer.◌>>◌ (write_varint (length bytes)) (write_all io bytes)) tt (sized bytes)
Writes-sized bytes h =
    Writes-bind (write_varint (length bytes)) (λ _. write_all io bytes) tt tt _ _
      (Writes-write_varint _ h) (Writes-write_all io bytes)

Writes-request_frame :
    (address pad : List ℕ)
    → length address ≤ max_value
    → length pad ≤ max_value
    → Writes (write_request_frame address pad) tt (request_frame address pad)
unfolding write_request_frame
Writes-request_frame address pad ha hp =
    Writes-bind _ _ tt tt _ _ (Writes-write_varint frame_type_tcp_request (omega arith)) (
      Writes-bind _ _ tt tt _ _ (Writes-write_varint (length address) ha)
        (Writes-bind _ _ tt tt _ _ (Writes-write_all io address) (Writes-sized pad hp)))

pub read_sized-sized :
    (limit : ℕ) (e : Error) (bytes rest : List ℕ)
    → length bytes ≤ limit
    → limit ≤ max_value
    → read_sized limit e (sized bytes ++ rest) ≡ ok (bytes, rest)
unfolding read_sized
read_sized-sized limit e bytes rest h k = rw append_assoc (
    ground (
      arith,
      read-encoding (length bytes) (bytes ++ rest),
      take_exact-append io (length bytes) bytes rest,
    ))

pub read_tcp_request-frame :
    (net : NetText) (a : Address) (pad rest : List ℕ)
    → IsCanonical net a
    → is_utf8 (display a) ≡ true
    → 1 ≤ length (display a)
    → length (display a) ≤ max_address_length
    → length pad ≤ max_padding_length
    → read_tcp_request net (request_frame (display a) pad ++ rest) ≡ ok (a, rest)
unfolding read_tcp_request parse_address
read_tcp_request-frame net a pad rest c text low high small =
    let n : ℕ = length (display a) in
    let behind : List ℕ = display a ++ (sized pad ++ rest) in
    rw
      (
        append_assoc (encoding frame_type_tcp_request) _ rest,
        append_assoc (encoding n) _ rest,
        append_assoc (display a) (sized pad) rest,
      )
      (ground (
        arith,
        read-encoding frame_type_tcp_request (encoding n ++ behind),
        read-encoding n behind,
        take_exact-append io n (display a) (sized pad ++ rest) refl,
        read_sized-sized max_padding_length (protocol request_padding_too_large) pad rest,
        from_str-display net a c,
      ))

pub one-le-display : (a : Address) → 1 ≤ length (display a)
unfolding display
one-le-display a = ground (arith, length-append a.host (b':' ∷ to_decimal a.port))

pub read-write_tcp_request :
    (net : NetText) (rng : Rng) (a : Address) (rest : List ℕ) (s : Sink)
    → IsRng rng
    → IsCanonical net a
    → is_utf8 (display a) ≡ true
    → length (display a) ≤ max_address_length
    → length (request_frame (display a) (padding rng 64 512)) ≤ s.budget
    → (frame : List ℕ) × (write_tcp_request rng a s ≡ (ok tt, push s frame))
      × (read_tcp_request net (frame ++ rest) ≡ ok (a, rest))
unfolding write_tcp_request
read-write_tcp_request net rng a rest s r c text high room =
    let pads = length-padding rng 64 512 r (omega arith) in
    let pad : List ℕ = padding rng 64 512 in
    (
      request_frame (display a) pad,
      ground (
        arith,
        one-le-display a,
        (Writes-request_frame (display a) pad (omega arith) (omega arith)).at s room,
      ),
      read_tcp_request-frame net a pad rest c text (one-le-display a) high (omega arith),
    )

-- An address whose text is longer than 2048 bytes is refused before a byte is written.
pub write_tcp_request_too_long :
    (rng : Rng) (a : Address) (s : Sink)
    → max_address_length < length (display a)
    → write_tcp_request rng a s ≡ (err invalid_address, s)
unfolding write_tcp_request
write_tcp_request_too_long rng a s h = ground arith
