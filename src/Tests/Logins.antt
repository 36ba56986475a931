-- ===== src/Tests/Logins.antt =====
-- Runs of the theorems on the login of Hysteria2.
use sing_quic_rs.Prelude.{ℕ, refl, ◌^◌, true, false, none, some, [], ◌∷◌}
use sing_quic_rs.Address.{v4}
use sing_quic_rs.Tls.{pkcs8}
use sing_quic_rs.Transport.Settings.{base_transport_config}
use sing_quic_rs.Hysteria2.Configuration.{
  ClientOptions, ServerOptions, User, Client, Server, default_options, default_client_bandwidth,
  default_server_bandwidth, insert_passwords, new_with_bandwidth_and_transport,
  bind_with_bandwidth_and_transport_and_masquerade,
}
use sing_quic_rs.Hysteria2.Server.{authenticated_user}
use sing_quic_rs.Hysteria2.Client.{auth_request}
use sing_quic_rs.Hysteria2.Login.{IsUserOf, new-bind-IsUserOf}
use sing_quic_rs.Tests.Samples.{rustls, os, defaults, address, socket}

abbrev user : User
user = record { name = b'u' ∷ []; password = b'p' ∷ [] }

abbrev own : ClientOptions
own = record {
  server = address;
  server_name = b'a' ∷ [];
  password = b'p' ∷ [];
  ca_certificates = [];
}

abbrev options : ServerOptions
options = record {
  listen = address;
  certificate_chain = (1 ∷ []) ∷ [];
  private_key = 2 ∷ [];
  users = user ∷ [];
}

abbrev client : Client
client = record {
  endpoint = record { socket = socket (v4 (0 ∷ 0 ∷ 0 ∷ 0 ∷ []), 0); server_config = none };
  tls = record { roots = []; enable_early_data = false; jls = none };
  transport = base_transport_config defaults default_options;
  options = own;
  bandwidth = default_client_bandwidth;
}

abbrev server : Server ℕ
server = record {
  endpoint = record {
    socket = socket address;
    server_config = some (record {
      crypto = record {
        certificates = (1 ∷ []) ∷ [];
        private_key = pkcs8 (2 ∷ []);
        max_early_data_size = 0;
        jls = none;
      };
      transport = record (base_transport_config defaults default_options) {
        max_concurrent_bidi_streams = 2 ^ 60;
      };
      path_manager_disabled = true;
    });
  };
  transport_options = default_options;
  users = insert_passwords (user ∷ []) [];
  bandwidth = default_server_bandwidth;
  masquerade = none;
}

new-bind-IsUserOf_example :
    IsUserOf
      (b'p' ∷ [])
      (user ∷ [])
      (authenticated_user some server.users (auth_request client.options.password client.bandwidth))
new-bind-IsUserOf_example =
    new-bind-IsUserOf rustls os defaults some own options default_client_bandwidth
      default_server_bandwidth default_options default_options none client server refl
      (unfold new_with_bandwidth_and_transport in refl)
      (unfold bind_with_bandwidth_and_transport_and_masquerade in refl)
