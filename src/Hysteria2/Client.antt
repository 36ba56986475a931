-- ===== src/Hysteria2/Client.antt =====
-- The client of src/hysteria2/client.rs: its authentication request, and what it makes of the response.
-- The controllers are as in Congestion, and `to_str` as in Protocol/Rate.
pub mod Exchange
pub mod Connections
pub mod Streams
use sing_quic_rs.Prelude.{
  ℕ, Bool, true, false, not, Option, none, some, List, [], ◌∷◌, ◌==◌, if◌then◌else◌,
}
use sing_quic_rs.Error.{Error, authentication_failed, congestion_control, Result, ok, err}
use sing_quic_rs.Decimal.{to_decimal}
use sing_quic_rs.Hysteria2.Protocol.Rate.{parse_congestion_receive}
use sing_quic_rs.Hysteria2.Negotiation.{ClientBandwidth, client_negotiated_send_rate}
use sing_quic_rs.Hysteria2.Server.{Request, post, url_authority, url_path}
use sing_quic_rs.Congestion.{
  Controllers, CongestionKind, Connection, States, configure_brutal, connection_congestion_kind,
}

abbrev pub status_auth_ok : ℕ
status_auth_ok = 233

-- The request that `authenticate` builds.
unfoldable pub auth_request : List ℕ → ClientBandwidth → Request
unfolding to_decimal
auth_request password bandwidth = record {
  method = post;
  authority = some url_authority;
  path = url_path;
  auth = some password;
  cc_rx = some (to_decimal bandwidth.receive_bps);
}

-- The parts of the response that the code reads.
pub record Response : Type 0 where
  pub status : ℕ
  pub cc_rx : Option (List ℕ)

-- What `authenticate` leaves behind: its result, whether it closed the connection, and the
-- controllers' states.
pub record Authenticated (q : Controllers) : Type 0 where
  pub result : Result CongestionKind
  pub closes : Bool
  pub states : States q

module _ (to_str : List ℕ → Option (List ℕ)) (q : Controllers) (now : ℕ) (peer : Connection q) where
  -- `connection_congestion_kind(&connection).ok_or(Error::CongestionControl)?`
  unfoldable pub kind_result : Option CongestionKind → Result CongestionKind
  kind_result none = err congestion_control
  kind_result (some kind) = ok kind

  unfoldable pub established : States q → Authenticated q
  unfolding kind_result connection_congestion_kind
  established states = record {
    result = kind_result (connection_congestion_kind q peer states);
    closes = false;
    states = states;
  }

  unfoldable pub after_configure : Bool × States q → Authenticated q
  unfolding established
  after_configure (true, states) = established states
  after_configure (false, states) = record {
    result = err congestion_control;
    closes = true;
    states = states;
  }

  unfoldable pub apply_rate : ClientBandwidth → Option ℕ → States q → Authenticated q
  unfolding established after_configure configure_brutal
  apply_rate bandwidth none states = established states
  apply_rate bandwidth (some bytes_per_second) states =
      after_configure
        (configure_brutal q now peer bytes_per_second bandwidth.disable_loss_compensation states)

  -- `authenticate` behind the response
  unfoldable pub read_response : ClientBandwidth → Response → States q → Authenticated q
  unfolding apply_rate client_negotiated_send_rate parse_congestion_receive
  read_response bandwidth response states =
      if not (response.status == status_auth_ok)
      then record {
        result = err (authentication_failed response.status);
        closes = true;
        states = states;
      }
      else apply_rate bandwidth
          (client_negotiated_send_rate bandwidth.send_bps
            (parse_congestion_receive to_str response.cc_rx))
          states
