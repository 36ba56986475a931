-- ===== src/Hysteria2/Protocol/Send.antt =====
-- The writers of src/hysteria2/protocol.rs and `varint::write` of src/varint.rs.
use sing_quic_rs.Prelude.{ℕ, ◌||◌, List, [], ◌∷◌, length, min, take, ltb, ◌==◌, if◌then◌else◌}
use sing_quic_rs.Error.{io, invalid_address}
use sing_quic_rs.Writer.{Writer, fail, lift, write_all, ◌>>=◌, ◌>>◌}
use sing_quic_rs.VarInt
use sing_quic_rs.Address.{Address, display}
use sing_quic_rs.Hysteria2.Protocol.{
  Rng, padding, frame_type_tcp_request, max_address_length, max_message_length,
}

-- varint::write
unfoldable pub write_varint : ℕ → Writer (Unit {0})
write_varint value = do bytes ← lift (VarInt.encode value); write_all io bytes

-- The writes of `write_tcp_request` behind its test of the address; `flush` does nothing on a QUIC
-- stream.
unfoldable pub write_request_frame : List ℕ → List ℕ → Writer (Unit {0})
unfolding write_varint
write_request_frame address pad = do
  write_varint frame_type_tcp_request
  write_varint (length address)
  write_all io address
  write_varint (length pad)
  write_all io pad

unfoldable pub write_tcp_request : Rng → Address → Writer (Unit {0})
unfolding write_request_frame
write_tcp_request rng destination =
    let address = display destination in
    if length address == 0 || ltb max_address_length (length address)
    then fail invalid_address
    else write_request_frame address (padding rng 64 512)

-- `Result<(), &str>`: the outcome that the response reports.
pub data Outcome : Type 0 where
  accepted : Outcome
  refused : List ℕ → Outcome

abbrev pub status_of : Outcome → ℕ
status_of accepted = 0
status_of (refused message) = 1

abbrev pub message_of : Outcome → List ℕ
message_of accepted = []
message_of (refused message) = message

unfoldable pub write_tcp_response : Rng → Outcome → Writer (Unit {0})
unfolding write_varint
write_tcp_response rng outcome = do
  let whole = message_of outcome
  let message = take (min (length whole) max_message_length) whole
  let pad = padding rng 128 1024
  write_all io (status_of outcome ∷ [])
  write_varint (length message)
  write_all io message
  write_varint (length pad)
  write_all io pad
