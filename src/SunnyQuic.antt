-- ===== src/SunnyQuic.antt =====
-- src/sunnyquic/mod.rs: SunnyQUIC, which sets up the client and the server of src/shadowquic/mod.rs with
-- certificates and credentials, and passes every other call on to them.
pub mod Updates
pub mod Login
use sing_quic_rs.Prelude.{ℕ, Bool, Option, List}
use sing_quic_rs.Error.{Error, Result, ok, err, ◌>>=◌}
use sing_quic_rs.Tls.{Rustls}
use sing_quic_rs.Transport.Settings.{TransportConfig}
use sing_quic_rs.Transport.Endpoint.{SocketAddr, Os}
use sing_quic_rs.ShadowQuic.Client.{CongestionConfig, User, sunny_credential}
use sing_quic_rs.ShadowQuic.Configuration
use sing_quic_rs.ShadowQuic.Configuration.{
  SunnyClientOptions, SunnyServerOptions, Incoming, new_sunny, bind_sunny, update_sunny_config,
}
use sing_quic_rs.ShadowQuic.Server.{Accepted}

pub record ClientOptions : Type 0 where
  pub server : SocketAddr
  pub server_name : List ℕ
  pub username : List ℕ
  pub password : List ℕ
  pub ca_certificates : List (List ℕ)
  pub congestion : CongestionConfig
  pub zero_rtt : Bool

pub record ServerOptions : Type 0 where
  pub listen : SocketAddr
  pub users : List User
  pub certificate_chain : List (List ℕ)
  pub private_key : List ℕ
  pub congestion : CongestionConfig
  pub zero_rtt : Bool

pub record Server : Type 0 where
  pub inner : Configuration.Server
  pub options : ServerOptions

-- The options of the shared server.
unfoldable pub inner_options : ServerOptions → SunnyServerOptions
inner_options options = record {
  listen = options.listen;
  users = options.users;
  certificate_chain = options.certificate_chain;
  private_key = options.private_key;
  congestion = options.congestion;
  zero_rtt = options.zero_rtt;
}

-- Server::accept
unfoldable pub accept : Incoming → Option (Result Accepted × Incoming)
unfolding Configuration.accept
accept incoming = Configuration.accept incoming

module _ (rustls : Rustls) (os : Os) (defaults : TransportConfig) (sha256 : List ℕ → List ℕ) where
  -- Client::new
  unfoldable pub new : ClientOptions → Result Configuration.Client
  unfolding new_sunny sunny_credential
  new options = new_sunny rustls os defaults sha256 (record {
    server = options.server;
    server_name = options.server_name;
    credential = sunny_credential sha256 options.username options.password;
    ca_certificates = options.ca_certificates;
    congestion = options.congestion;
    zero_rtt = options.zero_rtt;
  })

  -- Server::bind
  unfoldable pub bind : ServerOptions → Result Server
  unfolding bind_sunny inner_options
  bind options = do
    inner ← bind_sunny rustls os defaults sha256 (inner_options options)
    ok (record { inner = inner; options = options })

  abbrev keep_options :
      Server → Result (Unit {0}) × Configuration.Server → Result (Unit {0}) × Server
  keep_options server (result, inner) = (result, record server { inner = inner })

  -- Server::update_certificate; the server's own options stay as they were bound.
  unfoldable pub update_certificate : List (List ℕ) → List ℕ → Server → Result (Unit {0}) × Server
  unfolding update_sunny_config inner_options
  update_certificate certificate_chain private_key server =
      let options : ServerOptions = record server.options {
        certificate_chain = certificate_chain;
        private_key = private_key;
      } in
      keep_options server
        (update_sunny_config rustls os defaults sha256 (inner_options options) server.inner)
