-- ===== src/ShadowQuic/Configuration.antt =====
-- How the client and the server of src/shadowquic/mod.rs are set up, and how a server's settings change.
-- `Rustls`, `Os` and `sha256` are as in Tls, Transport/Endpoint and ShadowQuic/Client; `defaults` are
-- Quinn's transport settings.
pub mod Updates
pub mod History
use sing_quic_rs.Prelude.{
  ℕ, ◌-◌, ◌^◌, Bool, true, false, Option, none, some, List, [], ◌∷◌, ◌++◌, length, ◌==◌, map,
  if◌then◌else◌,
}
use sing_quic_rs.Error.{Error, invalid_server_name, quic_tls, tls, closed, Result, ok, err, ◌>>=◌}
use sing_quic_rs.Tls.{
  PrivateKey, pkcs8, JlsServer, ServerTls, ClientTls, Rustls, detect_private_key, add_roots,
}
use sing_quic_rs.Transport.Settings.{TransportConfig, shadowquic_transport_config}
use sing_quic_rs.Transport.Endpoint.{
  SocketAddr, ServerConfig, Endpoint, Os, bind_endpoint, client_address, set_server_config,
}
use sing_quic_rs.Congestion.{Controllers, Connection, States}
use sing_quic_rs.ShadowQuic.Client.{
  CongestionConfig, ClientAuthentication, User, Cached, sunny_users, apply_congestion,
}
use sing_quic_rs.ShadowQuic.Server.{
  ServerAuthentication, jls, sunny, HandshakeData, Accepted, connection_user,
}

pub record ClientOptions : Type 0 where
  pub server : SocketAddr
  pub server_name : List ℕ
  pub username : List ℕ
  pub password : List ℕ
  pub congestion : CongestionConfig
  pub zero_rtt : Bool

pub record SunnyClientOptions : Type 0 where
  pub server : SocketAddr
  pub server_name : List ℕ
  pub credential : List ℕ
  pub ca_certificates : List (List ℕ)
  pub congestion : CongestionConfig
  pub zero_rtt : Bool

pub record ServerOptions : Type 0 where
  pub listen : SocketAddr
  pub users : List User
  pub server_name : Option (List ℕ)
  pub jls_upstream_addr : Option (List ℕ)
  pub jls_rate_limit : ℕ
  pub congestion : CongestionConfig
  pub zero_rtt : Bool

pub record SunnyServerOptions : Type 0 where
  pub listen : SocketAddr
  pub users : List User
  pub certificate_chain : List (List ℕ)
  pub private_key : List ℕ
  pub congestion : CongestionConfig
  pub zero_rtt : Bool

-- The client; `tls` and `transport` are what its endpoint connects with.
pub record Client : Type 0 where
  pub endpoint : Endpoint
  pub tls : ClientTls
  pub transport : TransportConfig
  pub server : SocketAddr
  pub server_name : List ℕ
  pub congestion : CongestionConfig
  pub authentication : ClientAuthentication
  pub connection : Option Cached

pub record Server : Type 0 where
  pub endpoint : Endpoint
  pub congestion : CongestionConfig
  pub authentication : ServerAuthentication

-- The channel of accepted streams and sessions, and whether a sender is left.
pub record Incoming : Type 0 where
  pub queue : List Accepted
  pub is_open : Bool

-- Server::accept; `none` is a call that waits.
unfoldable pub accept : Incoming → Option (Result Accepted × Incoming)
accept incoming = elim incoming.queue [
  | [] ↦ if incoming.is_open then none else some (err closed, incoming)
  | accepted ∷ rest ↦ some (ok accepted, record incoming { queue = rest })
]

-- `u32::MAX` if early data is allowed.
abbrev pub early_data_size : Bool → ℕ
early_data_size zero_rtt = if zero_rtt then 2 ^ 32 - 1 else 0

abbrev pub credentials_of : List User → List (List ℕ × List ℕ)
credentials_of [] = []
credentials_of (user ∷ rest) = (user.password, user.name) ∷ credentials_of rest

module _ (rustls : Rustls) (os : Os) (defaults : TransportConfig) (sha256 : List ℕ → List ℕ) where
  -- `QuicServerConfig::try_from(tls)`, and the settings of the transport.
  abbrev finish_config : ServerTls → Result ServerConfig
  finish_config settings =
      if rustls.server_crypto settings
      then ok (record {
        crypto = settings;
        transport = shadowquic_transport_config defaults;
        path_manager_disabled = false;
      })
      else err quic_tls

  abbrev with_certificate : ServerTls → Result ServerConfig
  with_certificate settings =
      if rustls.with_single_cert settings.certificates settings.private_key
      then finish_config settings
      else err tls

  abbrev self_signed : Option (List ℕ × List ℕ) → Result (List ℕ × List ℕ)
  self_signed none = err quic_tls
  self_signed (some pair) = ok pair

  unfoldable pub build_server_config : ServerOptions → Result ServerConfig
  unfolding shadowquic_transport_config
  build_server_config options = do
    (certificate, key) ← self_signed rustls.self_signed
    with_certificate (record {
      certificates = certificate ∷ [];
      private_key = pkcs8 key;
      max_early_data_size = early_data_size options.zero_rtt;
      jls = some (record {
        rate_limit = options.jls_rate_limit;
        upstream_addr = options.jls_upstream_addr;
        server_name = options.server_name;
        users = credentials_of options.users;
      });
    })

  unfoldable pub build_sunny_server_config : List (List ℕ) → List ℕ → Bool → Result ServerConfig
  unfolding shadowquic_transport_config detect_private_key
  build_sunny_server_config certificate_chain private_key zero_rtt = do
    key ← detect_private_key rustls private_key
    with_certificate (record {
      certificates = certificate_chain;
      private_key = key;
      max_early_data_size = early_data_size zero_rtt;
      jls = none;
    })

  unfoldable pub bind_inner :
      SocketAddr → ServerConfig → CongestionConfig → ServerAuthentication → Result Server
  unfolding bind_endpoint
  bind_inner listen server_config initial_congestion initial_authentication = do
    endpoint ← bind_endpoint os listen (some server_config)
    ok (record {
      endpoint = endpoint;
      congestion = initial_congestion;
      authentication = initial_authentication;
    })

  -- Server::bind
  unfoldable pub bind : ServerOptions → Result Server
  unfolding build_server_config bind_inner
  bind options = do
    server_config ← build_server_config options
    bind_inner options.listen server_config options.congestion jls

  -- Server::bind_sunny
  unfoldable pub bind_sunny : SunnyServerOptions → Result Server
  unfolding build_sunny_server_config bind_inner sunny_users
  bind_sunny options = do
    server_config ←
        build_sunny_server_config options.certificate_chain options.private_key options.zero_rtt
    bind_inner options.listen server_config options.congestion
        (sunny (sunny_users sha256 options.users))

  abbrev pub use_config : Server → Result ServerConfig → Result (Unit {0}) × Server
  use_config server (err e) = (err e, server)
  use_config server (ok server_config) =
      (ok tt, record server { endpoint = set_server_config (some server_config) server.endpoint })

  -- Server::update_config: the congestion control is written before the configuration is built.
  unfoldable pub update_config : ServerOptions → Server → Result (Unit {0}) × Server
  unfolding build_server_config
  update_config options server =
      use_config (record server { congestion = options.congestion }) (build_server_config options)

  abbrev pub replace :
      SunnyServerOptions → Server → Result ServerConfig → Result (Unit {0}) × Server
  replace options server (err e) = (err e, server)
  replace options server (ok server_config) = (
    ok tt,
    record server {
      congestion = options.congestion;
      authentication = sunny (sunny_users sha256 options.users);
      endpoint = set_server_config (some server_config) server.endpoint;
    },
  )

  -- Server::update_sunny_config
  unfoldable pub update_sunny_config : SunnyServerOptions → Server → Result (Unit {0}) × Server
  unfolding build_sunny_server_config sunny_users
  update_sunny_config options server =
      replace options server
        (build_sunny_server_config options.certificate_chain options.private_key options.zero_rtt)

  -- `QuicClientConfig::try_from(tls)`, and the endpoint of a client.
  abbrev pub from_endpoint :
      SocketAddr → List ℕ → CongestionConfig → ClientAuthentication → ClientTls → Result Client
  from_endpoint server server_name congestion authentication settings =
      if rustls.client_crypto settings
      then (do
        endpoint ← bind_endpoint os (client_address server.0) none
        ok (record {
          endpoint = endpoint;
          tls = settings;
          transport = shadowquic_transport_config defaults;
          server = server;
          server_name = server_name;
          congestion = congestion;
          authentication = authentication;
          connection = none;
        }))
      else err quic_tls

  -- Client::new
  unfoldable pub new : ClientOptions → Result Client
  unfolding bind_endpoint client_address shadowquic_transport_config
  new options =
      if length options.server_name == 0
      then err (invalid_server_name options.server_name)
      else from_endpoint options.server options.server_name options.congestion
          ClientAuthentication.jls
          (record {
            roots = rustls.webpki_roots;
            enable_early_data = options.zero_rtt;
            jls = some (options.password, options.username);
          })

  -- The roots that `new_sunny` starts from.
  abbrev pub initial_roots : List (List ℕ) → List (List ℕ)
  initial_roots [] = rustls.webpki_roots
  initial_roots (certificate ∷ rest) = []

  -- Client::new_sunny
  unfoldable pub new_sunny : SunnyClientOptions → Result Client
  unfolding bind_endpoint client_address shadowquic_transport_config add_roots
  new_sunny options =
      if length options.server_name == 0 then err (invalid_server_name options.server_name) else (do
        roots ← add_roots rustls (initial_roots options.ca_certificates) options.ca_certificates
        from_endpoint options.server options.server_name options.congestion
            (ClientAuthentication.sunny options.credential)
            (record { roots = roots; enable_early_data = options.zero_rtt; jls = none }))

-- What the accept loop makes of an incoming connection: the handshake fails, the congestion control
-- cannot be set and the connection is closed, or the connection is served or refused by its user,
-- with the server's users as they were when it came in.
pub data Begun (q : Controllers) : Type 0 where
  handshake_failed : States q → Begun q
  unconfigured : Error → States q → Begun q
  begun : Result (List ℕ) → ServerAuthentication → States q → Begun q

module _ (q : Controllers) (now : ℕ) (server : Server) where
  abbrev after_congestion : Option HandshakeData → Result (Unit {0}) × States q → Begun q
  after_congestion handshake (err e, states) = unconfigured e states
  after_congestion handshake (ok u, states) =
      begun (connection_user server.authentication handshake) server.authentication states

  -- The task of one connection, up to the user of `serve_connection`.
  unfoldable pub begin_connection :
      Option (Connection q) → Option HandshakeData → States q → Begun q
  unfolding apply_congestion connection_user
  begin_connection none handshake states = handshake_failed states
  begin_connection (some connection) handshake states =
      after_congestion handshake (apply_congestion q now connection server.congestion states)
