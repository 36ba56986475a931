-- ===== src/Hysteria2/Configuration.antt =====
-- How the client of src/hysteria2/client.rs and the server of src/hysteria2/server.rs are set up. The
-- parameters are as in ShadowQuic/Configuration; `Handler` stands for `dyn MasqueradeHandler`.
use sing_quic_rs.Prelude.{
  ℕ, ◌^◌, Bool, true, false, Option, none, some, List, [], ◌∷◌, length, ◌==◌, if◌then◌else◌,
}
use sing_quic_rs.Prelude.Map.{Map, bytes_key, insert}
use sing_quic_rs.Error.{invalid_server_name, quic_tls, tls, closed, Result, ok, err, ◌>>=◌}
use sing_quic_rs.Tls.{ServerTls, ClientTls, Rustls, detect_private_key, add_roots}
use sing_quic_rs.Transport.Settings.{QuicTransportOptions, TransportConfig, base_transport_config}
use sing_quic_rs.Transport.Endpoint.{
  SocketAddr, ServerConfig, Endpoint, Os, bind_endpoint, client_address, set_server_config,
}
use sing_quic_rs.Hysteria2.Negotiation.{ClientBandwidth, ServerBandwidth}
use sing_quic_rs.Hysteria2.Server.{is_normal_connection_close}

pub record ClientOptions : Type 0 where
  pub server : SocketAddr
  pub server_name : List ℕ
  pub password : List ℕ
  pub ca_certificates : List (List ℕ)

pub record User : Type 0 where
  pub name : List ℕ
  pub password : List ℕ

pub record ServerOptions : Type 0 where
  pub listen : SocketAddr
  pub certificate_chain : List (List ℕ)
  pub private_key : List ℕ
  pub users : List User

-- The client without its connection; `tls` and `transport` are what its endpoint connects with.
pub record Client : Type 0 where
  pub endpoint : Endpoint
  pub tls : ClientTls
  pub transport : TransportConfig
  pub options : ClientOptions
  pub bandwidth : ClientBandwidth

-- The server, with what its accept loop gives to each connection.
pub record Server (Handler : Type 0) : Type 0 where
  pub endpoint : Endpoint
  pub transport_options : QuicTransportOptions
  pub users : Map (List ℕ) (List ℕ)
  pub bandwidth : ServerBandwidth
  pub masquerade : Option Handler

abbrev pub default_options : QuicTransportOptions
default_options = record { initial_packet_size = 0; disable_path_mtu_discovery = false }

abbrev pub default_client_bandwidth : ClientBandwidth
default_client_bandwidth = record {
  send_bps = 0;
  receive_bps = 0;
  disable_loss_compensation = false;
  brutal_debug = false;
}

abbrev pub default_server_bandwidth : ServerBandwidth
default_server_bandwidth = record {
  send_bps = 0;
  receive_bps = 0;
  ignore_client_bandwidth = false;
  disable_loss_compensation = false;
  brutal_debug = false;
}

-- `collect` of the pairs of password and name: a later user takes the place of an earlier one.
unfoldable pub insert_passwords : List User → Map (List ℕ) (List ℕ) → Map (List ℕ) (List ℕ)
unfolding insert
insert_passwords [] users = users
insert_passwords (user ∷ rest) users = insert_passwords rest (insert user.password user.name users)

-- The level at which the end of a connection is logged; `none` is a connection that ends without an
-- error, which is not logged.
pub data Logged : Type 0 where
  closed_normally closed_unexpectedly : Logged

unfoldable pub log_end : Result (Unit {0}) → Option Logged
unfolding is_normal_connection_close
log_end (ok u) = none
log_end (err e) =
    some (if is_normal_connection_close e then closed_normally else closed_unexpectedly)

-- Server::accept on the channel of what was accepted, with whether a sender is left; `none` waits.
unfoldable pub accept : {A : Type 0} → Bool → List A → Option (Result A × List A)
accept true [] = none
accept false [] = some (err closed, [])
accept is_open (accepted ∷ rest) = some (ok accepted, rest)

module _ (rustls : Rustls) (os : Os) (defaults : TransportConfig) where
  abbrev finish_client :
      ClientOptions → ClientBandwidth → QuicTransportOptions → ClientTls → Result Client
  finish_client options bandwidth transport_options settings =
      if rustls.client_crypto settings
      then (do
        endpoint ← bind_endpoint os (client_address options.server.0) none
        ok (record {
          endpoint = endpoint;
          tls = settings;
          transport = base_transport_config defaults transport_options;
          options = options;
          bandwidth = bandwidth;
        }))
      else err quic_tls

  -- Client::new_with_bandwidth_and_transport
  unfoldable pub new_with_bandwidth_and_transport :
      ClientOptions → ClientBandwidth → QuicTransportOptions → Result Client
  unfolding add_roots bind_endpoint client_address base_transport_config
  new_with_bandwidth_and_transport options bandwidth transport_options =
      if length options.server_name == 0 then err (invalid_server_name options.server_name) else (do
        roots ← add_roots rustls [] options.ca_certificates
        finish_client options bandwidth transport_options
            (record { roots = roots; enable_early_data = false; jls = none }))

  -- Client::new_with_bandwidth
  unfoldable pub new_with_bandwidth : ClientOptions → ClientBandwidth → Result Client
  unfolding new_with_bandwidth_and_transport
  new_with_bandwidth options bandwidth =
      new_with_bandwidth_and_transport options bandwidth default_options

  -- Client::new
  unfoldable pub new : ClientOptions → Result Client
  unfolding new_with_bandwidth
  new options = new_with_bandwidth options default_client_bandwidth

  abbrev finish_config : QuicTransportOptions → ServerTls → Result ServerConfig
  finish_config transport_options settings =
      if rustls.with_single_cert settings.certificates settings.private_key
      then if rustls.server_crypto settings
        then ok (record {
          crypto = settings;
          transport = record (base_transport_config defaults transport_options) {
            max_concurrent_bidi_streams = 2 ^ 60;
          };
          path_manager_disabled = true;
        })
        else err quic_tls
      else err tls

  unfoldable pub build_server_config :
      List (List ℕ) → List ℕ → QuicTransportOptions → Result ServerConfig
  unfolding detect_private_key base_transport_config
  build_server_config certificate_chain private_key transport_options = do
    key ← detect_private_key rustls private_key
    finish_config transport_options (record {
      certificates = certificate_chain;
      private_key = key;
      max_early_data_size = 0;
      jls = none;
    })

  module _ {Handler : Type 0} where
    -- Server::bind_with_bandwidth_and_transport_and_masquerade
    unfoldable pub bind_with_bandwidth_and_transport_and_masquerade :
        ServerOptions
        → ServerBandwidth
        → QuicTransportOptions
        → Option Handler
        → Result (Server Handler)
    unfolding build_server_config bind_endpoint insert_passwords
    bind_with_bandwidth_and_transport_and_masquerade options bandwidth transport_options
          masquerade =
        do
          server_config ←
              build_server_config options.certificate_chain options.private_key transport_options
          endpoint ← bind_endpoint os options.listen (some server_config)
          ok (record {
            endpoint = endpoint;
            transport_options = transport_options;
            users = insert_passwords options.users [];
            bandwidth = bandwidth;
            masquerade = masquerade;
          })

    -- Server::bind_with_bandwidth_and_masquerade
    unfoldable pub bind_with_bandwidth_and_masquerade :
        ServerOptions → ServerBandwidth → Option Handler → Result (Server Handler)
    unfolding bind_with_bandwidth_and_transport_and_masquerade
    bind_with_bandwidth_and_masquerade options bandwidth masquerade =
        bind_with_bandwidth_and_transport_and_masquerade options bandwidth default_options
          masquerade

    -- Server::bind_with_bandwidth
    unfoldable pub bind_with_bandwidth : ServerOptions → ServerBandwidth → Result (Server Handler)
    unfolding bind_with_bandwidth_and_masquerade
    bind_with_bandwidth options bandwidth =
        bind_with_bandwidth_and_masquerade options bandwidth none

    -- Server::bind
    unfoldable pub bind : ServerOptions → Result (Server Handler)
    unfolding bind_with_bandwidth
    bind options = bind_with_bandwidth options default_server_bandwidth

    abbrev use_config : Server Handler → Result ServerConfig → Result (Unit {0}) × Server Handler
    use_config server (err e) = (err e, server)
    use_config server (ok server_config) =
        (ok tt, record server { endpoint = set_server_config (some server_config) server.endpoint })

    -- Server::update_certificate
    unfoldable pub update_certificate :
        List (List ℕ) → List ℕ → Server Handler → Result (Unit {0}) × Server Handler
    unfolding build_server_config
    update_certificate certificate_chain private_key server =
        use_config server
          (build_server_config certificate_chain private_key server.transport_options)
