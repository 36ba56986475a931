-- ===== src/Hysteria2/Stream.antt =====
-- handle_stream of src/hysteria2/server.rs: a request is read, its acceptance is written, and the stream
-- is handed to the caller, if the caller still takes streams.
use sing_quic_rs.Prelude.{ℕ, Bool, List, if◌then◌else◌}
use sing_quic_rs.Error.{closed, Result, ok, err}
use sing_quic_rs.Writer.{Sink}
use sing_quic_rs.Address.{Address, NetText}
use sing_quic_rs.Hysteria2.Protocol.{Rng}
use sing_quic_rs.Hysteria2.Protocol.Send.{write_tcp_response, accepted}
use sing_quic_rs.Hysteria2.Protocol.Receive.{read_tcp_request}

-- AcceptedStream: the destination and user, the unread bytes, and the writing half.
pub record AcceptedStream : Type 0 where
  pub destination : Address
  pub user : List ℕ
  pub unread : List ℕ
  pub sink : Sink

abbrev pub hand_over : Bool → AcceptedStream → Result (Unit {0}) → Result AcceptedStream
hand_over accepting stream (err e) = err e
hand_over accepting stream (ok u) = if accepting then ok stream else err closed

abbrev pub respond : Rng → List ℕ → Bool → Sink → Result (Address × List ℕ) → Result AcceptedStream
respond rng user accepting sink (err e) = err e
respond rng user accepting sink (ok (destination, unread)) =
    let (written, sink') = write_tcp_response rng accepted sink in
    hand_over accepting
      (record { destination = destination; user = user; unread = unread; sink = sink' }) written

unfoldable pub handle_stream : NetText → Rng → List ℕ → Bool → List ℕ → Sink → Result AcceptedStream
unfolding read_tcp_request write_tcp_response
handle_stream net rng user accepting bytes sink =
    respond rng user accepting sink (read_tcp_request net bytes)
