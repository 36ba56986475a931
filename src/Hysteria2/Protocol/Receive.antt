-- ===== src/Hysteria2/Protocol/Receive.antt =====
-- The readers of src/hysteria2/protocol.rs.
use sing_quic_rs.Prelude.{ℕ, ◌||◌, not, List, ltb, ◌==◌, if◌then◌else◌}
use sing_quic_rs.Error.{
  Error, io, invalid_address, protocol, unexpected_frame_type, request_padding_too_large,
  response_message_too_large, response_padding_too_large, remote_error, Result, err,
}
use sing_quic_rs.Reader.{Reader, pure, fail, lift, check, take_byte, take_exact, ◌>>=◌, ◌>>◌}
use sing_quic_rs.VarInt
use sing_quic_rs.Text.{is_utf8}
use sing_quic_rs.Address.{Address, NetText, from_str}
use sing_quic_rs.Hysteria2.Protocol.{
  frame_type_tcp_request, max_address_length, max_message_length, max_padding_length,
}

-- `std::str::from_utf8(&address).map_err(..)?.parse()`
unfoldable pub parse_address : NetText → List ℕ → Result Address
parse_address net address = if is_utf8 address then from_str net address else err invalid_address

-- A varint length, refused with `e` above `limit`, and that many bytes.
unfoldable pub read_sized : ℕ → Error → Reader (List ℕ)
read_sized limit e = do n ← VarInt.read; check (ltb limit n) e (take_exact io n)

unfoldable pub read_tcp_request : NetText → Reader Address
unfolding read_sized parse_address
read_tcp_request net = do
  frame_type ← VarInt.read
  check (not (frame_type == frame_type_tcp_request)) (protocol (unexpected_frame_type frame_type))
      (do
        address_length ← VarInt.read
        check (address_length == 0 || ltb max_address_length address_length) invalid_address (do
          address ← take_exact io address_length
          read_sized max_padding_length (protocol request_padding_too_large)
          lift (parse_address net address)))

-- `read_tcp_response`; the text of the remote error is the message, read as lossy UTF-8.
unfoldable pub read_tcp_response : Reader (Unit {0})
unfolding read_sized
read_tcp_response = do
  status ← take_byte io
  message ← read_sized max_message_length (protocol response_message_too_large)
  read_sized max_padding_length (protocol response_padding_too_large)
  if status == 0 then pure tt else fail (protocol (remote_error message))
