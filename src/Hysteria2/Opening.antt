-- ===== src/Hysteria2/Opening.antt =====
-- The HTTP/3 steps around the authentication, at both ends: `serve_connection` of
-- src/hysteria2/server.rs and `authenticate` of src/hysteria2/client.rs. Whether a step of HTTP/3 succeeds
-- is an argument.
use sing_quic_rs.Prelude.{ℕ, Bool, true, false, Option, none, some, List, [], ◌∷◌, if◌then◌else◌}
use sing_quic_rs.Prelude.Map.{Map}
use sing_quic_rs.Error.{Error, http3, protocol, closed_before_authentication, Result, ok, err}
use sing_quic_rs.Hysteria2.Protocol.Rate.{CongestionReceive, congestion_receive_value}
use sing_quic_rs.Hysteria2.Negotiation.{ClientBandwidth, ServerBandwidth}
use sing_quic_rs.Hysteria2.Server.{Request, Phase, masquerading, failed, serving, first_request}
use sing_quic_rs.Hysteria2.Client.{Response, Authenticated, read_response, status_auth_ok}
use sing_quic_rs.Congestion.{Controllers, CongestionKind, Connection, States}

-- What `accept` on the HTTP/3 connection gives, and `resolve_request` behind it: a failure, the end
-- of the connection, or a request.
pub data Incoming : Type 0 where
  accept_fails : Incoming
  no_more : Incoming
  unresolved : Incoming
  resolved : Request → Incoming

-- The first request, behind `h3::server::Connection::new`.
unfoldable pub await_request : Bool → Incoming → Result Request
await_request false incoming = err http3
await_request true accept_fails = err http3
await_request true no_more = err (protocol closed_before_authentication)
await_request true unresolved = err http3
await_request true (resolved request) = ok request

-- The loop of a masquerading connection: the requests it hands to the masquerade, and its end.
unfoldable pub masquerade_all : List Incoming → List Request × Option (Result (Unit {0}))
masquerade_all [] = ([], none)
masquerade_all (accept_fails ∷ rest) = ([], some (err http3))
masquerade_all (no_more ∷ rest) = ([], some (ok tt))
masquerade_all (unresolved ∷ rest) = ([], some (err http3))
masquerade_all (resolved request ∷ rest) =
    let (requests, end) = masquerade_all rest in (request ∷ requests, end)

-- The response to an authenticated request, with the rate that is announced.
unfoldable pub accept_response : CongestionReceive → Response
unfolding congestion_receive_value
accept_response announced = record {
  status = status_auth_ok;
  cc_rx = some (congestion_receive_value announced);
}

-- What a connection comes to: the requests that are masqueraded and the end of that, an error, or
-- streams and datagrams for a user once the response is sent.
pub data Opened : Type 0 where
  refused : Error → Opened
  masqueraded : List Request → Option (Result (Unit {0})) → Opened
  accepted : Response → List ℕ → CongestionKind → Opened

abbrev with_first : Request → List Request × Option (Result (Unit {0})) → Opened
with_first request (requests, end) = masqueraded (request ∷ requests) end

-- Behind the choice of the phase; `responds` says whether the response is sent.
unfoldable pub enter_phase : Bool → Request → List Incoming → Phase → Opened
unfolding masquerade_all accept_response
enter_phase responds request later masquerading = with_first request (masquerade_all later)
enter_phase responds request later (failed e) = refused e
enter_phase true request later (serving user kind announced) =
    accepted (accept_response announced) user kind
enter_phase false request later (serving user kind announced) = refused http3

module _ (to_str : List ℕ → Option (List ℕ)) (q : Controllers) (now : ℕ) (peer : Connection q) where
  abbrev open_with :
      ServerBandwidth
      → Map (List ℕ) (List ℕ)
      → Bool
      → List Incoming
      → Result Request
      → States q
      → Opened × States q
  open_with bandwidth users responds later (err e) states = (refused e, states)
  open_with bandwidth users responds later (ok request) states =
      let (phase, states') = first_request to_str q now peer bandwidth users request states in
      (enter_phase responds request later phase, states')

  -- serve_connection up to the loop over streams and datagrams
  unfoldable pub open_connection :
      ServerBandwidth
      → Map (List ℕ) (List ℕ)
      → Bool
      → Bool
      → Incoming
      → List Incoming
      → States q
      → Opened × States q
  unfolding await_request enter_phase first_request
  open_connection bandwidth users connects responds first later states =
      open_with bandwidth users responds later (await_request connects first) states

  -- `authenticate`: the steps of HTTP/3 from the connection to the end of the response's body, and
  -- the response that they bring; a step that fails leaves the connection as it is.
  unfoldable pub authenticate : ClientBandwidth → List Bool → Response → States q → Authenticated q
  unfolding read_response
  authenticate bandwidth [] response states =
      read_response to_str q now peer bandwidth response states
  authenticate bandwidth (works ∷ steps) response states =
      let rest = authenticate bandwidth steps response states in
      if works then rest else record { result = err http3; closes = false; states = states }
