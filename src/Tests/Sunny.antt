-- ===== src/Tests/Sunny.antt =====
-- Runs of the theorems on SunnyQUIC.
use sing_quic_rs.Prelude.{ℕ, ◌≡◌, refl, false, none, some, List, [], ◌∷◌, arith, take, length-take}
use sing_quic_rs.Error.{ok}
use sing_quic_rs.Address.{v4}
use sing_quic_rs.Tls.{pkcs8}
use sing_quic_rs.Transport.Settings.{shadowquic_transport_config}
use sing_quic_rs.ShadowQuic.Client.{
  User, bbr_config, sunny_credential, sunny_users, authenticate_new,
}
use sing_quic_rs.ShadowQuic.Client as Client
use sing_quic_rs.ShadowQuic.Server.{sunny, handle_bi_stream}
use sing_quic_rs.ShadowQuic.Server.Authentication.{fresh_shared}
use sing_quic_rs.ShadowQuic.Configuration
use sing_quic_rs.SunnyQuic.{ClientOptions, ServerOptions, Server, new, bind}
use sing_quic_rs.SunnyQuic.Updates.{IsBound, update_all, bind-update_all-IsBound}
use sing_quic_rs.SunnyQuic.Login.{IsAnswered, new-bind-IsAnswered}
use sing_quic_rs.Tests.Samples.{names, rustls, os, defaults, address, socket}

-- The first 32 bytes stand for the digest.
abbrev digest : List ℕ → List ℕ
digest bytes = take 32 bytes

abbrev user : User
user = record { name = b'u' ∷ []; password = b'p' ∷ [] }

abbrev server_options : ServerOptions
server_options = record {
  listen = address;
  users = user ∷ [];
  certificate_chain = (1 ∷ []) ∷ [];
  private_key = 2 ∷ [];
  congestion = bbr_config;
  zero_rtt = false;
}

abbrev server : Server
server = record {
  inner = record {
    endpoint = record {
      socket = socket address;
      server_config = some (record {
        crypto = record {
          certificates = (1 ∷ []) ∷ [];
          private_key = pkcs8 (2 ∷ []);
          max_early_data_size = 0;
          jls = none;
        };
        transport = shadowquic_transport_config defaults;
        path_manager_disabled = false;
      });
    };
    congestion = bbr_config;
    authentication = sunny (sunny_users digest (user ∷ []));
  };
  options = server_options;
}

bind-update_all-IsBound_example :
    IsBound rustls os defaults digest server_options
      (update_all rustls os defaults digest (((3 ∷ []) ∷ [], 4 ∷ []) ∷ []) server)
bind-update_all-IsBound_example =
    bind-update_all-IsBound rustls os defaults digest server_options server
      (((3 ∷ []) ∷ [], 4 ∷ []) ∷ []) (unfold bind in refl)

abbrev client_options : ClientOptions
client_options = record {
  server = address;
  server_name = b'a' ∷ [];
  username = b'u' ∷ [];
  password = b'p' ∷ [];
  ca_certificates = [];
  congestion = bbr_config;
  zero_rtt = false;
}

abbrev client : Configuration.Client
client = record {
  endpoint = record { socket = socket (v4 (0 ∷ 0 ∷ 0 ∷ 0 ∷ []), 0); server_config = none };
  tls = record { roots = []; enable_early_data = false; jls = none };
  transport = shadowquic_transport_config defaults;
  server = address;
  server_name = b'a' ∷ [];
  congestion = bbr_config;
  authentication = Client.sunny (sunny_credential digest (b'u' ∷ []) (b'p' ∷ []));
  connection = none;
}

new-bind-IsAnswered_example :
    (bytes : List ℕ) × (authenticate_new client.authentication none ≡ ok (some bytes))
    × IsAnswered digest
        (sunny_credential digest (b'u' ∷ []) (b'p' ∷ []))
        (user ∷ [])
        fresh_shared
        (handle_bi_stream names server.inner.authentication [] bytes fresh_shared)
new-bind-IsAnswered_example =
    new-bind-IsAnswered rustls os defaults digest client_options server_options client server none
      names [] fresh_shared (λ bytes. omega (arith, length-take 32 bytes)) (unfold new in refl)
      (unfold bind in refl)
