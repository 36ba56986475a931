-- ===== src/SunnyQuic/Updates.antt =====
-- A server of src/sunnyquic/mod.rs under a sequence of certificate updates.
use sing_quic_rs.Prelude.{ℕ, ◌≡◌, inl, inr, refl, some, List, [], ◌∷◌}
use sing_quic_rs.Error.{ok, ok-injective, bind-ok}
use sing_quic_rs.Transport.Binding.{bind_endpoint-ok}
use sing_quic_rs.Tls.{Rustls}
use sing_quic_rs.Transport.Settings.{TransportConfig}
use sing_quic_rs.Transport.Endpoint.{ServerConfig, Endpoint, Os, bind_endpoint}
use sing_quic_rs.ShadowQuic.Client.{sunny_users}
use sing_quic_rs.ShadowQuic.Server.{sunny}
use sing_quic_rs.ShadowQuic.Configuration
use sing_quic_rs.ShadowQuic.Configuration.{
  SunnyServerOptions, build_sunny_server_config, bind_inner, bind_sunny, update_sunny_config,
}
use sing_quic_rs.ShadowQuic.Configuration.Updates.{update_sunny_config_cases}
use sing_quic_rs.SunnyQuic.{ServerOptions, Server, inner_options, bind, update_certificate}

module _ (rustls : Rustls) (os : Os) (defaults : TransportConfig) (sha256 : List ℕ → List ℕ) where
  -- A server as it was bound with `options`, but for its certificate: its configuration is built
  -- from some chain and key.
  pub record IsBound (options : ServerOptions) (server : Server) : Type 0 where
    pub same_options : server.options ≡ options
    pub users : server.inner.authentication ≡ sunny (sunny_users sha256 options.users)
    pub same_congestion : server.inner.congestion ≡ options.congestion
    pub listening : server.inner.endpoint.socket.address ≡ options.listen
    pub chain : List (List ℕ)
    pub key : List ℕ
    pub config : ServerConfig
    pub built :
        build_sunny_server_config rustls os defaults sha256 chain key options.zero_rtt ≡ ok config
    pub configured : server.inner.endpoint.server_config ≡ some config

  -- The calls of `update_certificate`, failed ones included.
  abbrev pub update_all : List (List (List ℕ) × List ℕ) → Server → Server
  update_all [] server = server
  update_all ((chain, key) ∷ rest) server =
      update_all rest (update_certificate rustls os defaults sha256 chain key server).1

  update_certificate-IsBound :
      (options : ServerOptions) (chain : List (List ℕ)) (key : List ℕ) (server : Server)
      → IsBound options server
      → IsBound options (update_certificate rustls os defaults sha256 chain key server).1
  unfolding update_certificate inner_options
  update_certificate-IsBound options chain key server b =
      let new_options : ServerOptions = record server.options {
        certificate_chain = chain;
        private_key = key;
      } in
      elim (update_sunny_config_cases rustls os defaults sha256 (inner_options new_options)
        server.inner) [
          | inl (e, same) ↦ rw same (record {
            same_options = b.same_options;
            users = b.users;
            same_congestion = b.same_congestion;
            listening = b.listening;
            chain = b.chain;
            key = b.key;
            config = b.config;
            built = b.built;
            configured = b.configured;
          })
          | inr (config, built, changed) ↦ rw changed (record {
            same_options = b.same_options;
            users = rw b.same_options refl;
            same_congestion = rw b.same_options refl;
            listening = b.listening;
            chain = chain;
            key = key;
            config = config;
            built = rw (← b.same_options) built;
            configured = refl;
          })
        ]

  update_all-IsBound :
      (options : ServerOptions) (updates : List (List (List ℕ) × List ℕ)) (server : Server)
      → IsBound options server
      → IsBound options (update_all updates server)
  update_all-IsBound options [] server b = b
  update_all-IsBound options ((chain, key) ∷ rest) server b =
      update_all-IsBound options rest _ (update_certificate-IsBound options chain key server b)

  -- A server that is bound is the record of its parts.
  bound_inner :
      (options : SunnyServerOptions) (inner : Configuration.Server)
      → bind_sunny rustls os defaults sha256 options ≡ ok inner
      → (config : ServerConfig) × (endpoint : Endpoint) × (build_sunny_server_config rustls os
            defaults sha256 options.certificate_chain options.private_key options.zero_rtt
          ≡ ok config)
        × (bind_endpoint os options.listen (some config) ≡ ok endpoint)
        × (record {
          endpoint = endpoint;
          congestion = options.congestion;
          authentication = sunny (sunny_users sha256 options.users);
        }
            ≡ inner)
  unfolding bind_sunny bind_inner
  bound_inner options inner made =
      let (config, built, bound) =
        bind-ok
          (build_sunny_server_config rustls os defaults sha256 options.certificate_chain
            options.private_key options.zero_rtt)
          (λ config.
            bind_inner rustls os defaults sha256 options.listen config options.congestion
              (sunny (sunny_users sha256 options.users)))
          inner made in
      let (endpoint, opened, finished) =
        bind-ok (bind_endpoint os options.listen (some config))
          (λ endpoint. ok (record {
            endpoint = endpoint;
            congestion = options.congestion;
            authentication = sunny (sunny_users sha256 options.users);
          }))
          inner bound in
      (config, endpoint, built, opened, ok-injective _ inner finished)

  pub bind-IsBound :
      (options : ServerOptions) (server : Server)
      → bind rustls os defaults sha256 options ≡ ok server
      → IsBound options server
  unfolding bind inner_options
  bind-IsBound options server e =
      let (inner, made, finished) =
        bind-ok (bind_sunny rustls os defaults sha256 (inner_options options))
          (λ inner. ok (record { inner = inner; options = options })) server e in
      let (config, endpoint, built, opened, whole) =
        bound_inner (inner_options options) inner made in
      let (listening, configured) =
        bind_endpoint-ok os options.listen (some config) endpoint opened in
      rw (← ok-injective _ server finished, ← whole)
        (record {
          same_options = refl;
          users = refl;
          same_congestion = refl;
          listening = listening;
          chain = options.certificate_chain;
          key = options.private_key;
          config = config;
          built = built;
          configured = configured;
        })

  -- Whatever certificates a bound server is then given, whether the calls succeed or fail, it still
  -- listens on its address, its users and its congestion control are those it was bound with, and
  -- its configuration is one that could be built from a certificate chain and a key.
  pub bind-update_all-IsBound :
      (options : ServerOptions) (server : Server) (updates : List (List (List ℕ) × List ℕ))
      → bind rustls os defaults sha256 options ≡ ok server
      → IsBound options (update_all updates server)
  bind-update_all-IsBound options server updates e =
      update_all-IsBound options updates server (bind-IsBound options server e)
