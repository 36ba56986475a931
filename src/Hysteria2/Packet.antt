-- ===== src/Hysteria2/Packet.antt =====
-- The datagrams of src/hysteria2/packet.rs: `encode_message` and `decode_message`.
pub mod Codec
use sing_quic_rs.Prelude.{
  ℕ, ◌+◌, ◌≤◌, ◌<◌, ◌≡◌, Bool, ◌||◌, List, [], ◌∷◌, ◌++◌, length, take, drop, ltb, ◌==◌,
  if◌then◌else◌,
}
use sing_quic_rs.Prelude.Bytes.{be_u16, be_u32, from_be_u16, from_be_u32, IsByte}
use sing_quic_rs.Error.{
  Error, invalid_address, protocol, truncated_message, truncated_address, Result, ok, err, ◌>>=◌,
}
use sing_quic_rs.VarInt.{decode_varint}
use sing_quic_rs.Address.{Address, NetText}
use sing_quic_rs.Hysteria2.Protocol.{max_address_length}
use sing_quic_rs.Hysteria2.Protocol.Receive.{parse_address}

-- Hysteria2Packet
pub record Packet : Type 0 where
  pub payload : List ℕ
  pub destination : Address

pub record UdpMessage : Type 0 where
  pub session_id : ℕ
  pub packet_id : ℕ
  pub fragment_id : ℕ
  pub fragment_total : ℕ
  pub destination : Address
  pub payload : List ℕ

abbrev pub udp_header_size : ℕ
udp_header_size = 8

unfoldable pub encode_message : ℕ → ℕ → ℕ → ℕ → List ℕ → List ℕ → List ℕ → List ℕ
unfolding be_u16 be_u32
encode_message session_id packet_id fragment_id fragment_total address address_length payload =
    be_u32 session_id
    ++ (be_u16 packet_id
        ++ (fragment_id ∷ fragment_total ∷ (address_length ++ (address ++ payload))))

-- `if test { return Err(e) }`
abbrev refuse : Bool → Error → {A : Type 0} → Result A → Result A
refuse test e r = if test then err e else r

module _ (net : NetText) where
  -- The part of `decode_message` behind the fixed header; `rest` is `data[UDP_HEADER_SIZE..]`.
  unfoldable pub decode_body : ℕ → ℕ → ℕ → ℕ → List ℕ → Result UdpMessage
  unfolding parse_address
  decode_body session_id packet_id fragment_id fragment_total rest = do
    (address_length, encoded_length) ← decode_varint rest
    refuse (address_length == 0 || ltb max_address_length address_length) invalid_address (
        refuse (ltb (length rest) (encoded_length + address_length)) (protocol truncated_address)
          (do
            destination ← parse_address net (take address_length (drop encoded_length rest))
            ok (record {
              session_id = session_id;
              packet_id = packet_id;
              fragment_id = fragment_id;
              fragment_total = fragment_total;
              destination = destination;
              payload = drop address_length (drop encoded_length rest);
            })))

  -- The indices 0 to 7 of the slice are the pattern's variables; a shorter slice is truncated.
  unfoldable pub decode_message : List ℕ → Result UdpMessage
  unfolding decode_body from_be_u16 from_be_u32
  decode_message (a ∷ b ∷ c ∷ d ∷ p ∷ q ∷ id ∷ total ∷ rest) =
      decode_body (from_be_u32 a b c d) (from_be_u16 p q) id total rest
  decode_message _ = err (protocol truncated_message)
