-- ===== src/Tests/Connections.antt =====
-- Runs of the theorems on the authentication of connections.
use sing_quic_rs.Prelude.{ℕ, refl, true, false, none, some, List, [], ◌∷◌, replicate}
use sing_quic_rs.Prelude.Map.{Map, get, bytes_key}
use sing_quic_rs.Prelude.Bytes.{bytes_eq}
use sing_quic_rs.Congestion.{Connection, switchable, States, bbr}
use sing_quic_rs.Hysteria2.Negotiation.{ServerBandwidth}
use sing_quic_rs.Hysteria2.Protocol.Rate.{parse_congestion_receive}
use sing_quic_rs.Hysteria2.Server.{
  Request, post, url_authority, url_path, authenticated_user, first_request,
}
use sing_quic_rs.Hysteria2.Server.Authentication.{
  IsAuthenticated, authenticated_user-some, IsPhase, first_request-IsPhase,
}
use sing_quic_rs.ShadowQuic.Server.{sunny}
use sing_quic_rs.ShadowQuic.Server.Authentication.{fresh_shared}
use sing_quic_rs.Error.{other}
use sing_quic_rs.Transport.{PathStats, update_connection_windows}
use sing_quic_rs.ShadowQuic.Connection.{
  Serving, Event, opens_stream, arrives, lost, fresh_registry, start, run,
}
use sing_quic_rs.ShadowQuic.Connection.Safety.{IsLooped, streams_of, start-run-IsLooped}
use sing_quic_rs.Tests.Samples.{names, counters}

-- The password "p" of the user "u".
abbrev users : Map (List ℕ) (List ℕ)
users = (b'p' ∷ [], b'u' ∷ []) ∷ []

abbrev request : Request
request = record {
  method = post;
  authority = some url_authority;
  path = url_path;
  auth = some (b'p' ∷ []);
  cc_rx = some (b'9' ∷ []);
}

authenticated_user-some_example : IsAuthenticated some users request (b'u' ∷ [])
authenticated_user-some_example =
    authenticated_user-some some users request (b'u' ∷ [])
      (unfold authenticated_user get bytes_eq in refl)

abbrev bandwidth : ServerBandwidth
bandwidth = record {
  send_bps = 5;
  receive_bps = 7;
  ignore_client_bandwidth = false;
  disable_loss_compensation = false;
  brutal_debug = false;
}

abbrev peer : Connection counters
peer = record { controller = switchable 0; rtt = 20 }

abbrev states : States counters
states = (0, record { controller = 1; kind = bbr; current_mtu = 1200 }) ∷ []

first_request-IsPhase_example :
    IsPhase some counters 5 peer bandwidth states
      (authenticated_user some users request)
      (parse_congestion_receive some request.cc_rx)
      (first_request some counters 5 peer bandwidth users request states)
first_request-IsPhase_example =
    first_request-IsPhase some counters 5 peer bandwidth users request states

abbrev credential : List ℕ
credential = replicate 64 7

-- The user "u" of SunnyQUIC.
abbrev known : Map (List ℕ) (List ℕ)
known = (credential, b'u' ∷ []) ∷ []

abbrev path : PathStats
path = record { rtt = 20; current_mtu = 1200; cwnd = 12_000 }

abbrev beginning : Serving
beginning = record {
  user = [];
  windows = update_connection_windows 1_000_000_000 path 0 0 20_971_520 20_971_520;
  shared = fresh_shared;
  registry = fresh_registry;
  dispatched = [];
}

-- The streams, a datagram, and the loss of the connection.
abbrev events : List Event
events =
    opens_stream (5 ∷ credential)
    ∷ opens_stream (1 ∷ 3 ∷ 1 ∷ b'a' ∷ 0 ∷ 80 ∷ [])
    ∷ arrives (0 ∷ 3 ∷ 9 ∷ [])
    ∷ lost other
    ∷ []

start-run-IsLooped_example :
    IsLooped (sunny known) none (streams_of events) (run names (sunny known) events beginning)
start-run-IsLooped_example =
    start-run-IsLooped names (sunny known) none 1_000_000_000 path (some bbr) true beginning events
      (unfold start in refl)
