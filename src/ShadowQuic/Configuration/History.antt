-- ===== src/ShadowQuic/Configuration/History.antt =====
-- A ShadowQUIC server of src/shadowquic/mod.rs under a sequence of calls of `update_config`.
use sing_quic_rs.Prelude.{ℕ, ◌≡◌, refl, some, List, [], ◌∷◌}
use sing_quic_rs.Error.{Result, ok, err, ok-injective, bind-ok}
use sing_quic_rs.Transport.Binding.{bind_endpoint-ok}
use sing_quic_rs.Tls.{Rustls}
use sing_quic_rs.Transport.Settings.{TransportConfig}
use sing_quic_rs.Transport.Endpoint.{SocketAddr, ServerConfig, Os, bind_endpoint}
use sing_quic_rs.ShadowQuic.Client.{CongestionConfig}
use sing_quic_rs.ShadowQuic.Server.{jls}
use sing_quic_rs.ShadowQuic.Configuration.{
  ServerOptions, Server, build_server_config, use_config, bind_inner, bind, update_config,
}

-- A server that listens on an address for JLS clients, under a congestion control and a
-- configuration.
pub record Runs (listen : SocketAddr) (congestion : CongestionConfig) (config : ServerConfig)
    (server : Server) : Type 0 where
  pub listening : server.endpoint.socket.address ≡ listen
  pub controlled : server.congestion ≡ congestion
  pub configured : server.endpoint.server_config ≡ some config
  pub authenticating : server.authentication ≡ jls

-- The congestion control of the last options that were passed.
abbrev pub last_congestion : CongestionConfig → List ServerOptions → CongestionConfig
last_congestion congestion [] = congestion
last_congestion congestion (options ∷ rest) = last_congestion options.congestion rest

abbrev pub built_or : ServerConfig → Result ServerConfig → ServerConfig
built_or config (ok built) = built
built_or config (err e) = config

module _ (rustls : Rustls) (os : Os) (defaults : TransportConfig) (sha256 : List ℕ → List ℕ) where
  -- The configuration of the last options from which one could be built.
  abbrev pub last_built : ServerConfig → List ServerOptions → ServerConfig
  last_built config [] = config
  last_built config (options ∷ rest) =
      last_built (built_or config (build_server_config rustls os defaults sha256 options)) rest

  -- The calls of `update_config`, failed ones included.
  abbrev pub update_all : List ServerOptions → Server → Server
  update_all [] server = server
  update_all (options ∷ rest) server =
      update_all rest (update_config rustls os defaults sha256 options server).1

  update_config-Runs :
      (listen : SocketAddr) (congestion : CongestionConfig) (config : ServerConfig)
      (options : ServerOptions) (server : Server)
      → Runs listen congestion config server
      → Runs listen options.congestion
          (built_or config (build_server_config rustls os defaults sha256 options))
          (update_config rustls os defaults sha256 options server).1
  unfolding update_config
  update_config-Runs listen congestion config options server r =
      by_config (build_server_config rustls os defaults sha256 options)
    where
      by_config :
          (built : Result ServerConfig)
          → Runs listen options.congestion
              (built_or config built)
              (use_config rustls os defaults sha256
                (record server { congestion = options.congestion })
                built).1
      by_config (ok fresh) = record {
        listening = r.listening;
        controlled = refl;
        configured = refl;
        authenticating = r.authenticating;
      }
      by_config (err e) = record {
        listening = r.listening;
        controlled = refl;
        configured = r.configured;
        authenticating = r.authenticating;
      }

  update_all-Runs :
      (listen : SocketAddr) (congestion : CongestionConfig) (config : ServerConfig)
      (updates : List ServerOptions) (server : Server)
      → Runs listen congestion config server
      → Runs listen
          (last_congestion congestion updates)
          (last_built config updates)
          (update_all updates server)
  update_all-Runs listen congestion config [] server r = r
  update_all-Runs listen congestion config (options ∷ rest) server r =
      update_all-Runs listen options.congestion _ rest _
        (update_config-Runs listen congestion config options server r)

  bind-Runs :
      (options : ServerOptions) (server : Server)
      → bind rustls os defaults sha256 options ≡ ok server
      → (config : ServerConfig) × (build_server_config rustls os defaults sha256 options
          ≡ ok config)
        × Runs options.listen options.congestion config server
  unfolding bind bind_inner
  bind-Runs options server e =
      let (config, built, behind) =
        bind-ok (build_server_config rustls os defaults sha256 options) _ server e in
      let (endpoint, opened, finished) =
        bind-ok (bind_endpoint os options.listen (some config)) _ server behind in
      let (listening, configured) =
        bind_endpoint-ok os options.listen (some config) endpoint opened in
      (
        config,
        built,
        rw (← ok-injective _ server finished) (record {
          listening = listening;
          controlled = refl;
          configured = configured;
          authenticating = refl;
        }),
      )

  -- However often a bound server is updated, and whether the updates succeed or fail, it listens on
  -- the address it was bound to and authenticates by JLS. Its configuration, with the users in it,
  -- is that of the last options from which one could be built, but its congestion control is that of
  -- the last options passed, those of a failed update included.
  pub bind-update_all-Runs :
      (options : ServerOptions) (server : Server) (updates : List ServerOptions)
      → bind rustls os defaults sha256 options ≡ ok server
      → (config : ServerConfig) × (build_server_config rustls os defaults sha256 options
          ≡ ok config)
        × Runs options.listen
            (last_congestion options.congestion updates)
            (last_built config updates)
            (update_all updates server)
  bind-update_all-Runs options server updates e =
      let (config, built, r) = bind-Runs options server e in
      (config, built, update_all-Runs options.listen options.congestion config updates server r)
