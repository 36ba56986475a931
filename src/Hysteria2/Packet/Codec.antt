-- ===== src/Hysteria2/Packet/Codec.antt =====
-- What `decode_message` of src/hysteria2/packet.rs makes of a datagram.
use sing_quic_rs.Prelude.{
  ℕ, ◌≤◌, ◌<◌, ◌≡◌, ap, refl, true, List, ◌++◌, length, take, drop, arith, length-append,
  length-drop, take-append_eq, drop-append_eq,
}
use sing_quic_rs.Prelude.Bytes.{from_be_u16-bytes, from_be_u32-bytes}
use sing_quic_rs.Error.{Result, ok, err}
use sing_quic_rs.VarInt.{decode_varint, max_value}
use sing_quic_rs.VarInt.Bounds.{encoding}
use sing_quic_rs.VarInt.RoundTrip.{read-encoding, read-decode_varint, as_stream}
use sing_quic_rs.Text.{is_utf8}
use sing_quic_rs.Address.{Address, NetText, display}
use sing_quic_rs.Address.RoundTrip.{IsCanonical, from_str-display}
use sing_quic_rs.Hysteria2.Protocol.{max_address_length}
use sing_quic_rs.Hysteria2.Protocol.Receive.{parse_address}
use sing_quic_rs.Hysteria2.Protocol.Frames.{one-le-display}
use sing_quic_rs.Hysteria2.Packet.{UdpMessage, encode_message, decode_body, decode_message}

-- A slice decoder that agrees with a successful stream decoder.
as_stream→ok :
    (s rest : List ℕ) (v : ℕ) (r : Result (ℕ × ℕ))
    → as_stream s r ≡ ok (v, rest)
    → (k : ℕ) × (r ≡ ok (v, k)) × (drop k s ≡ rest)
as_stream→ok s rest v (ok (u, k)) e = (k, cc, cc)
as_stream→ok s rest v (err x) e = absurd (cc)

decode_varint-encoding :
    (v : ℕ) (rest : List ℕ)
    → v ≤ max_value
    → (k : ℕ) × (decode_varint (encoding v ++ rest) ≡ ok (v, k))
      × (drop k (encoding v ++ rest) ≡ rest)
decode_varint-encoding v rest h =
    as_stream→ok _ rest v _
      (rw (← read-decode_varint (encoding v ++ rest)) (read-encoding v rest h))

-- The bytes of an address with their length in front.
abbrev pub address_field : Address → List ℕ
address_field a = encoding (length (display a))

decode_body-address :
    (net : NetText) (a : Address) (session_id packet_id fragment_id fragment_total : ℕ)
    (payload : List ℕ)
    → IsCanonical net a
    → is_utf8 (display a) ≡ true
    → length (display a) ≤ max_address_length
    → decode_body net session_id packet_id fragment_id fragment_total
        (address_field a ++ (display a ++ payload))
      ≡ ok (record {
        session_id = session_id;
        packet_id = packet_id;
        fragment_id = fragment_id;
        fragment_total = fragment_total;
        destination = a;
        payload = payload;
      })
unfolding decode_body parse_address
decode_body-address net a session_id packet_id fragment_id fragment_total payload c text high =
    let n : ℕ = length (display a) in
    let whole : List ℕ = address_field a ++ (display a ++ payload) in
    let (k, e, behind) = decode_varint-encoding n (display a ++ payload) (omega arith) in
    let front : take n (drop k whole) ≡ display a =
      rw behind (take-append_eq n (display a) payload refl) in
    let back : drop n (drop k whole) ≡ payload =
      rw behind (drop-append_eq n (display a) payload refl) in
    ground (
      arith,
      e,
      front,
      back,
      one-le-display a,
      from_str-display net a c,
      length-drop k whole,
      ap length behind,
      length-append (display a) payload,
    )

pub decode-encode_message :
    (net : NetText) (m : UdpMessage)
    → m.session_id < 0x100000000
    → m.packet_id < 0x10000
    → IsCanonical net m.destination
    → is_utf8 (display m.destination) ≡ true
    → length (display m.destination) ≤ max_address_length
    → decode_message net (
        encode_message m.session_id m.packet_id m.fragment_id m.fragment_total
          (display m.destination)
          (address_field m.destination)
          m.payload)
      ≡ ok m
unfolding decode_message encode_message
decode-encode_message net m hs hp c text high =
    rw (from_be_u32-bytes m.session_id hs, from_be_u16-bytes m.packet_id hp)
      (decode_body-address net m.destination m.session_id m.packet_id m.fragment_id m.fragment_total
        m.payload c text high)
