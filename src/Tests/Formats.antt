-- ===== src/Tests/Formats.antt =====
-- Runs of the theorems on the wire formats.
use sing_quic_rs.Prelude.{
  ℕ, if◌then◌else◌, inr, true, false, ◌≢◌, ◌+◌, ◌≤◌, ◌<◌, ◌≡◌, ◌⊎◌, refl, none, some, List, [], ◌∷◌,
  ◌++◌, length, arith,
}
use sing_quic_rs.Prelude.Bytes.{be_u16, bytes_eq}
use sing_quic_rs.Error.{ok, err, invalid_address}
use sing_quic_rs.VarInt
use sing_quic_rs.VarInt.{fill, tag_first, length_tag, encoded_length, max_value, decode_varint}
use sing_quic_rs.VarInt.Bounds.{encoding, read_shortest}
use sing_quic_rs.VarInt.RoundTrip.{read-encode, read-decode_varint, as_stream}
use sing_quic_rs.Decimal.{to_decimal}
use sing_quic_rs.Text.{is_ascii, contains}
use sing_quic_rs.Address.{IpAddr, v6, NetText, Address, display, from_str}
use sing_quic_rs.Address.RoundTrip.{IsParsed, from_str-IsParsed}
use sing_quic_rs.Address.Standard.{IsStandard, from_str-display_standard}
use sing_quic_rs.Writer.{Sink, push}
use sing_quic_rs.Hysteria2.Protocol.{padding, samples}
use sing_quic_rs.Hysteria2.Protocol.Send.{write_tcp_response, accepted}
use sing_quic_rs.Hysteria2.Protocol.Receive.{read_tcp_response}
use sing_quic_rs.Hysteria2.Protocol.Responses.{heard, read-write_tcp_response}
use sing_quic_rs.Hysteria2.Packet.{UdpMessage}
use sing_quic_rs.ShadowQuic.Wire.{encode_address, encode_host, domain_frame, decode_address}
use sing_quic_rs.ShadowQuic.Wire.Codec.{seen, decode-encode_address, encode_address-cases}
use sing_quic_rs.Tests.Samples.{names, names-IsNetText, site, site-IsValid, lowest, lowest-IsRng}

read-encode_example :
    (bytes : List ℕ) × (VarInt.encode 300 ≡ ok bytes)
    × (VarInt.read (bytes ++ (7 ∷ [])) ≡ ok (300, 7 ∷ []))
read-encode_example = read-encode 300 (7 ∷ []) (omega arith)

-- A longer form than `encode` writes, of 5.
abbrev behind : List ℕ
behind = 9 ∷ []

abbrev padded : List ℕ
padded = 0x40 ∷ 5 ∷ behind

read_shortest_example : (5 ≤ max_value) × (length (encoding 5) + length behind ≤ length padded)
unfolding VarInt.push_byte
read_shortest_example =
    read_shortest padded behind 5 (omega arith, (omega arith, (omega arith, tt)))
      (unfold VarInt.read in refl)

read-decode_varint_example :
    VarInt.read (0x41 ∷ 2 ∷ 3 ∷ [])
    ≡ as_stream (0x41 ∷ 2 ∷ 3 ∷ []) (decode_varint (0x41 ∷ 2 ∷ 3 ∷ []))
read-decode_varint_example = read-decode_varint (0x41 ∷ 2 ∷ 3 ∷ [])

-- "::1", which stands for every IP address.
abbrev loopback : List ℕ
loopback = b':' ∷ b':' ∷ b'1' ∷ []

abbrev one : IpAddr
one = v6 (0 ∷ 0 ∷ 0 ∷ 0 ∷ 0 ∷ 0 ∷ 0 ∷ 0 ∷ 0 ∷ 0 ∷ 0 ∷ 0 ∷ 0 ∷ 0 ∷ 0 ∷ 1 ∷ [])

-- `std::net` at "[::1]:80", its only socket address here.
abbrev loopback_text : NetText
loopback_text = record {
  parse_socket = λ text.
      if bytes_eq text (b'[' ∷ b':' ∷ b':' ∷ b'1' ∷ b']' ∷ b':' ∷ b'8' ∷ b'0' ∷ [])
      then some (one, 80)
      else none;
  parse_ip = λ text. some one;
  ip_text = λ ip. loopback;
}

abbrev here : Address
here = record { host = loopback; port = 80 }

here-IsStandard : IsStandard loopback_text here
unfolding contains to_decimal bytes_eq
here-IsStandard = record {
  valid = record { named = λ e. cc; port_fits = omega arith };
  plain = λ inner e. cc;
  bracketed = true;
  colon = refl;
  known = inr (one, refl, refl, refl);
}

from_str-display_standard_example : from_str loopback_text (display here) ≡ ok here
from_str-display_standard_example = from_str-display_standard loopback_text here here-IsStandard

from_str-IsParsed_example : IsParsed (from_str names (b'a' ∷ b':' ∷ b'9' ∷ []))
from_str-IsParsed_example =
    from_str-IsParsed names (b'a' ∷ b':' ∷ b'9' ∷ []) (λ ip e. cc) (λ ip port e. cc)

abbrev idle : Sink
idle = record { written = []; budget = 5000 }

read-write_tcp_response_example :
    (frame : List ℕ) × (write_tcp_response lowest accepted idle ≡ (ok tt, push idle frame))
    × (read_tcp_response (frame ++ (1 ∷ [])) ≡ heard accepted (1 ∷ []))
unfolding padding samples tag_first fill length_tag encoded_length
read-write_tcp_response_example =
    read-write_tcp_response lowest accepted (1 ∷ []) idle lowest-IsRng (omega arith)

abbrev message : UdpMessage
message = record {
  session_id = 5;
  packet_id = 6;
  fragment_id = 1;
  fragment_total = 2;
  destination = site;
  payload = 1 ∷ 2 ∷ [];
}

abbrev site_frame : List ℕ
site_frame = 3 ∷ 2 ∷ b'a' ∷ b'b' ∷ be_u16 80

decode-encode_address_example :
    decode_address names (site_frame ++ (4 ∷ [])) ≡ ok (seen names site, 4 ∷ [])
unfolding encode_address encode_host domain_frame is_ascii
decode-encode_address_example =
    decode-encode_address names site site_frame (4 ∷ []) names-IsNetText site-IsValid refl

encode_address-cases_example :
    ((frame : List ℕ) × (encode_address names site ≡ ok frame)
      × (((ip : IpAddr) × (names.parse_ip site.host ≡ some ip))
          ⊎ ((site.host ≢ []) × (length site.host ≤ 255) × (is_ascii site.host ≡ true))))
    ⊎ ((encode_address names site ≡ err invalid_address)
        × (names.parse_ip site.host ≡ none)
        × ((site.host ≡ []) ⊎ (255 < length site.host) ⊎ (is_ascii site.host ≡ false)))
encode_address-cases_example = encode_address-cases names site
