-- ===== src/Tests/Settings.antt =====
-- Runs of the theorems on a server whose settings change.
use sing_quic_rs.Prelude.{ℕ, ◌≡◌, refl, true, false, none, some, List, [], ◌∷◌, ◌==◌}
use sing_quic_rs.Error.{ok}
use sing_quic_rs.Tls.{Rustls, pkcs8}
use sing_quic_rs.Transport.Settings.{shadowquic_transport_config}
use sing_quic_rs.Transport.Endpoint.{ServerConfig}
use sing_quic_rs.ShadowQuic.Client.{bbr_config, brutal_config}
use sing_quic_rs.ShadowQuic.Server.{jls}
use sing_quic_rs.ShadowQuic.Configuration.{ServerOptions, Server, build_server_config, bind}
use sing_quic_rs.ShadowQuic.Configuration.History.{
  Runs, last_built, update_all, bind-update_all-Runs,
}
use sing_quic_rs.Tests.Samples.{rustls, os, defaults, address, socket}

abbrev digest : List ℕ → List ℕ
digest bytes = []

-- A crate that signs, and takes no server with early data.
abbrev signing : Rustls
signing = record rustls {
  server_crypto = λ settings. settings.max_early_data_size == 0;
  self_signed = some (1 ∷ [], 2 ∷ []);
}

abbrev bound : ServerOptions
bound = record {
  listen = address;
  users = [];
  server_name = none;
  jls_upstream_addr = none;
  jls_rate_limit = 0;
  congestion = bbr_config;
  zero_rtt = false;
}

-- Its configuration cannot be built.
abbrev refused : ServerOptions
refused = record bound { congestion = brutal_config 7 false; zero_rtt = true }

abbrev server : Server
server = record {
  endpoint = record {
    socket = socket address;
    server_config = some (record {
      crypto = record {
        certificates = (1 ∷ []) ∷ [];
        private_key = pkcs8 (2 ∷ []);
        max_early_data_size = 0;
        jls =
            some (record { rate_limit = 0; upstream_addr = none; server_name = none; users = [] });
      };
      transport = shadowquic_transport_config defaults;
      path_manager_disabled = false;
    });
  };
  congestion = bbr_config;
  authentication = jls;
}

bind-update_all-Runs_example :
    (config : ServerConfig) × (build_server_config signing os defaults digest bound ≡ ok config)
    × Runs address
        (brutal_config 7 false)
        (last_built signing os defaults digest config (refused ∷ []))
        (update_all signing os defaults digest (refused ∷ []) server)
bind-update_all-Runs_example =
    bind-update_all-Runs signing os defaults digest bound server (refused ∷ [])
      (unfold bind in refl)
