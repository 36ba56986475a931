-- ===== src/Hysteria2/Client/Connections.antt =====
-- The connection that the client of src/hysteria2/client.rs keeps, and the streams that it opens on it.
use sing_quic_rs.Prelude.{ℕ, Bool, false, Option, none, some, List, if◌then◌else◌}
use sing_quic_rs.Error.{Result, ok, err}
use sing_quic_rs.Writer.{Sink}
use sing_quic_rs.Address.{Address}
use sing_quic_rs.Congestion.{Controllers, CongestionKind}
use sing_quic_rs.Hysteria2.Protocol.{Rng}
use sing_quic_rs.Hysteria2.Protocol.Send.{write_tcp_request}
use sing_quic_rs.Hysteria2.Protocol.Receive.{read_tcp_response}
use sing_quic_rs.Hysteria2.Client.{Authenticated}

-- A connection by its number, whether it was closed, and its congestion control as it was
-- negotiated.
pub record ClientConnection : Type 0 where
  pub number : ℕ
  pub is_closed : Bool
  pub congestion : CongestionKind

abbrev pub open_one : Option ClientConnection → Option ClientConnection
open_one none = none
open_one (some cached) = if cached.is_closed then none else some cached

-- What `authenticate` made of a new connection.
abbrev pub established_as : ℕ → Result CongestionKind → Result ClientConnection
established_as number (err e) = err e
established_as number (ok kind) =
    ok (record { number = number; is_closed = false; congestion = kind })

module _ {q : Controllers} where
  -- A new connection: what connecting gave, and what `authenticate` then did.
  unfoldable pub dial : Result (ℕ × Authenticated q) → Result ClientConnection
  dial (err e) = err e
  dial (ok (number, authenticated)) = established_as number authenticated.result

  -- Client::connection: what it returns, and what it keeps. A new connection is only made where the
  -- kept one is absent or closed.
  unfoldable pub connection :
      Option ClientConnection
      → Result (ℕ × Authenticated q)
      → Result ClientConnection × Option ClientConnection
  unfolding dial
  connection cached dialled = elim (open_one cached) [
    | some live ↦ (ok live, cached)
    | none ↦ elim (dial dialled) [ ok new ↦ (ok new, some new) | err e ↦ (err e, cached) ]
  ]

-- Client::congestion_kind
unfoldable pub congestion_kind : Option ClientConnection → Option CongestionKind
congestion_kind none = none
congestion_kind (some cached) = some cached.congestion

-- Behind the request, the response is read from `incoming`, the bytes that the server sends.
abbrev pub after_request : List ℕ → Result (Unit {0}) × Sink → Result (Unit {0} × List ℕ) × Sink
after_request incoming (err e, sink) = (err e, sink)
after_request incoming (ok u, sink) = (read_tcp_response incoming, sink)

-- Client::connect on a new stream: the unread bytes and the writing half make the stream.
unfoldable pub connect : Rng → Address → List ℕ → Sink → Result (Unit {0} × List ℕ) × Sink
unfolding write_tcp_request read_tcp_response
connect rng destination incoming sink =
    after_request incoming (write_tcp_request rng destination sink)
