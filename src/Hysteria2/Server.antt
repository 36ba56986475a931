-- ===== src/Hysteria2/Server.antt =====
-- The authentication of src/hysteria2/server.rs: what `serve_connection` makes of the first request
-- of a connection. `to_str` is `http::HeaderValue::to_str`, and the controllers are as in Congestion.
pub mod Authentication
use sing_quic_rs.Prelude.{
  ℕ, Bool, true, false, not, ◌&&◌, Option, none, some, List, [], ◌∷◌, ltb, ◌==◌, if◌then◌else◌,
}
use sing_quic_rs.Prelude.Bytes.{bytes_eq}
use sing_quic_rs.Prelude.Map.{Map, Key, bytes_key, get}
use sing_quic_rs.Error.{
  Error, congestion_control, ConnectionError, connection, locally_closed, application_closed,
}
use sing_quic_rs.Hysteria2.Protocol.Rate.{CongestionReceive, auto, rate, parse_congestion_receive}
use sing_quic_rs.Hysteria2.Negotiation.{ServerBandwidth, server_negotiated_send_rate}
use sing_quic_rs.Congestion.{
  Controllers, CongestionKind, Connection, States, configure_brutal, connection_congestion_kind,
}

-- "POST", "hysteria" and "/auth"
abbrev pub post : List ℕ
post = b'P' ∷ b'O' ∷ b'S' ∷ b'T' ∷ []

abbrev pub url_authority : List ℕ
url_authority = b'h' ∷ b'y' ∷ b's' ∷ b't' ∷ b'e' ∷ b'r' ∷ b'i' ∷ b'a' ∷ []

abbrev pub url_path : List ℕ
url_path = b'/' ∷ b'a' ∷ b'u' ∷ b't' ∷ b'h' ∷ []

-- The parts of the request that the code reads: its method, its URI and two of its headers.
pub record Request : Type 0 where
  pub method : List ℕ
  pub authority : Option (List ℕ)
  pub path : List ℕ
  pub auth : Option (List ℕ)
  pub cc_rx : Option (List ℕ)

-- is_normal_connection_close
unfoldable pub is_normal_connection_close : Error → Bool
is_normal_connection_close (connection locally_closed) = true
is_normal_connection_close (connection (application_closed code)) = code == 0
is_normal_connection_close e = false

abbrev pub matches : List ℕ → Option (List ℕ) → Bool
matches text none = false
matches text (some value) = bytes_eq value text

abbrev pub and_then {ℓ κ} : {A : Type ℓ} {B : Type κ} → Option A → (A → Option B) → Option B
and_then none f = none
and_then (some a) f = f a

abbrev pub only_if {ℓ} : {A : Type ℓ} → Bool → Option A → Option A
only_if true o = o
only_if false o = none

-- What a connection goes on with behind its first request: every request goes to the masquerade,
-- the connection ends with an error, or streams and datagrams are served, for a user and under the
-- congestion control and the receive rate that the response announced.
pub data Phase : Type 0 where
  masquerading : Phase
  failed : Error → Phase
  serving : List ℕ → CongestionKind → CongestionReceive → Phase

-- The server limits its receiving and the client names no rate, though it has to.
unfoldable pub lacks_rate : ServerBandwidth → CongestionReceive → Bool
lacks_rate bandwidth client_receive =
    ltb 0 bandwidth.receive_bps
    && bandwidth.ignore_client_bandwidth
    && not (positive client_receive)
  where
    positive : CongestionReceive → Bool
    positive auto = false
    positive (rate r) = ltb 0 r

module _ (to_str : List ℕ → Option (List ℕ)) where
  -- The user of the request, if it is authenticated.
  unfoldable pub authenticated_user : Map (List ℕ) (List ℕ) → Request → Option (List ℕ)
  authenticated_user users request =
      only_if
        (bytes_eq request.method post
          && matches url_authority request.authority
          && bytes_eq request.path url_path)
        (and_then (and_then request.auth to_str) (λ password. get password users))

  module _ (q : Controllers) (now : ℕ) (peer : Connection q) (bandwidth : ServerBandwidth) where
    unfoldable pub advertised : Option ℕ → CongestionReceive
    advertised none = auto
    advertised (some r) = rate bandwidth.receive_bps

    -- The phase for the congestion control in use.
    unfoldable pub with_kind :
        List ℕ → Option ℕ → Option CongestionKind → States q → Phase × States q
    unfolding advertised
    with_kind user send_rate none states = (failed congestion_control, states)
    with_kind user send_rate (some kind) states = (serving user kind (advertised send_rate), states)

    unfoldable pub serve_as : List ℕ → Option ℕ → States q → Phase × States q
    unfolding with_kind connection_congestion_kind
    serve_as user send_rate states =
        with_kind user send_rate (connection_congestion_kind q peer states) states

    -- `if let Some(rate) = send_rate && !configure_connection_brutal_with_options(..)`
    unfoldable pub configured : List ℕ → ℕ → Bool × States q → Phase × States q
    unfolding serve_as
    configured user bytes_per_second (true, states) = serve_as user (some bytes_per_second) states
    configured user bytes_per_second (false, states) = (failed congestion_control, states)

    unfoldable pub negotiate : List ℕ → Option ℕ → States q → Phase × States q
    unfolding serve_as configured configure_brutal
    negotiate user none states = serve_as user none states
    negotiate user (some bytes_per_second) states =
        configured user bytes_per_second
          (configure_brutal q now peer bytes_per_second bandwidth.disable_loss_compensation states)

    unfoldable pub admit : Option (List ℕ) → CongestionReceive → States q → Phase × States q
    unfolding negotiate lacks_rate server_negotiated_send_rate
    admit none client_receive states = (masquerading, states)
    admit (some user) client_receive states =
        if lacks_rate bandwidth client_receive
        then (masquerading, states)
        else negotiate user (server_negotiated_send_rate bandwidth client_receive) states

    -- serve_connection up to the response
    unfoldable pub first_request : Map (List ℕ) (List ℕ) → Request → States q → Phase × States q
    unfolding admit authenticated_user parse_congestion_receive
    first_request users request states =
        admit (authenticated_user users request) (parse_congestion_receive to_str request.cc_rx)
          states
