-- ===== src/ShadowQuic/Wire.antt =====
-- The request codes and the addresses of src/shadowquic/mod.rs on the wire.
pub mod Codec
use sing_quic_rs.Prelude.{
  ℕ, ◌+◌, ◌≤◌, Bool, ◌||◌, not, Option, none, some, List, [], ◌∷◌, ◌++◌, length, ltb, ◌==◌,
  if◌then◌else◌,
}
use sing_quic_rs.Prelude.Bytes.{be_u16, from_be_u16}
use sing_quic_rs.Error.{
  Error, read, invalid_address, invalid_address_type, protocol, Result, ok, err,
}
use sing_quic_rs.Reader.{Reader, pure, fail, lift, take_byte, take_exact, ◌>>=◌}
use sing_quic_rs.Text.{is_utf8, is_ascii}
use sing_quic_rs.Address.{Address, NetText, IpAddr, v4, v6, new}

abbrev pub sq_connect : ℕ
sq_connect = 0x01

abbrev pub sq_associate_over_datagram : ℕ
sq_associate_over_datagram = 0x03

abbrev pub sq_associate_over_stream : ℕ
sq_associate_over_stream = 0x04

abbrev pub sq_authenticate : ℕ
sq_authenticate = 0x05

abbrev pub sq_extension : ℕ
sq_extension = 0xff

abbrev pub sq_ipv4 : ℕ
sq_ipv4 = 0x01

abbrev pub sq_domain : ℕ
sq_domain = 0x03

abbrev pub sq_ipv6 : ℕ
sq_ipv6 = 0x04

abbrev pub max_domain_length : ℕ
max_domain_length = 255

-- The frame of an IP address: its kind and its octets.
abbrev pub ip_frame : IpAddr → List ℕ
ip_frame (v4 octets) = sq_ipv4 ∷ octets
ip_frame (v6 octets) = sq_ipv6 ∷ octets

unfoldable pub domain_frame : List ℕ → Result (List ℕ)
domain_frame [] = err invalid_address
domain_frame (b ∷ rest) =
    let host = b ∷ rest in
    if ltb max_domain_length (length host) || not (is_ascii host)
    then err invalid_address
    else ok (sq_domain ∷ length host ∷ host)

-- `encode_address` up to the port
unfoldable pub encode_host : NetText → List ℕ → Result (List ℕ)
unfolding domain_frame
encode_host net host = elim (net.parse_ip host) [
  | some ip ↦ ok (ip_frame ip)
  | none ↦ domain_frame host
]

abbrev pub with_port : ℕ → Result (List ℕ) → Result (List ℕ)
with_port port (ok frame) = ok (frame ++ be_u16 port)
with_port port (err e) = err e

unfoldable pub encode_address : NetText → Address → Result (List ℕ)
unfolding encode_host
encode_address net destination = with_port destination.port (encode_host net destination.host)

abbrev pub with_code : ℕ → Result (List ℕ) → Result (List ℕ)
with_code code (ok frame) = ok (code ∷ frame)
with_code code (err e) = err e

unfoldable pub encode_connect : NetText → Address → Result (List ℕ)
unfolding encode_address
encode_connect net destination = with_code sq_connect (encode_address net destination)

-- `String::from_utf8(bytes)`
unfoldable pub utf8_text : List ℕ → Result (List ℕ)
utf8_text bytes = if is_utf8 bytes then ok bytes else err invalid_address

unfoldable pub read_domain : Reader (List ℕ)
unfolding utf8_text
read_domain = do n ← take_byte read; bytes ← take_exact read n; lift (utf8_text bytes)

unfoldable pub decode_host : NetText → ℕ → Reader (List ℕ)
unfolding read_domain
decode_host net kind =
    if kind == sq_ipv4
    then (take_exact read 4 >>= λ bytes. pure (net.ip_text (v4 bytes)))
    else if kind == sq_ipv6
    then (take_exact read 16 >>= λ bytes. pure (net.ip_text (v6 bytes)))
    else if kind == sq_domain
    then read_domain
    else fail (protocol invalid_address_type)

-- `u16::from_be_bytes` of the next two bytes
unfoldable pub read_u16 : Reader ℕ
read_u16 = do high ← take_byte read; low ← take_byte read; pure (from_be_u16 high low)

unfoldable pub decode_address : NetText → Reader Address
unfolding decode_host read_u16
decode_address net = do
  kind ← take_byte read
  host ← decode_host net kind
  port ← read_u16
  lift (new host port)
