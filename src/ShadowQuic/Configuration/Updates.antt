-- ===== src/ShadowQuic/Configuration/Updates.antt =====
-- What the updates of src/shadowquic/mod.rs leave behind, and which user a credential belongs to.
use sing_quic_rs.Prelude.{ℕ, ◌≡◌, ◌⊎◌, inl, inr, refl, Option, some, List, [], ◌∷◌}
use sing_quic_rs.Prelude.Map.{Map, bytes_key, get, insert}
use sing_quic_rs.Prelude.Collected.{insert_all, IsLast, IsCollected, insert_all-IsCollected}
use sing_quic_rs.Error.{Error, Result, ok, err}
use sing_quic_rs.Tls.{Rustls}
use sing_quic_rs.Transport.Settings.{TransportConfig}
use sing_quic_rs.Transport.Endpoint.{ServerConfig, Os}
use sing_quic_rs.ShadowQuic.Client.{User, sunny_credential, insert_users, sunny_users}
use sing_quic_rs.ShadowQuic.Server.{sunny}
use sing_quic_rs.ShadowQuic.Configuration.{
  ServerOptions, SunnyServerOptions, Server, build_server_config, build_sunny_server_config,
  use_config, update_config, replace, update_sunny_config,
}

module _ (rustls : Rustls) (os : Os) (defaults : TransportConfig) (sha256 : List ℕ → List ℕ) where
  -- The server after `update_config`, by the configuration that was built or not.
  abbrev pub IsUpdated :
      ServerOptions → Server → Result ServerConfig → Result (Unit {0}) × Server → Type 0
  IsUpdated options server (ok config) (result, after) =
      (result ≡ ok tt)
      × (after.congestion ≡ options.congestion)
      × (after.authentication ≡ server.authentication)
      × (after.endpoint ≡ record server.endpoint { server_config = some config })
  IsUpdated options server (err e) (result, after) =
      (result ≡ err e)
      × (after.congestion ≡ options.congestion)
      × (after.authentication ≡ server.authentication)
      × (after.endpoint ≡ server.endpoint)

  -- If the configuration of an update can be built, the call succeeds, and the endpoint has it from
  -- then on, with the new congestion control. If not, the call fails with that error and the
  -- endpoint keeps its configuration, but the congestion control is the new one all the same. The
  -- authentication is never changed.
  pub update_config-IsUpdated :
      (options : ServerOptions) (server : Server)
      → IsUpdated options server
          (build_server_config rustls os defaults sha256 options)
          (update_config rustls os defaults sha256 options server)
  unfolding update_config
  update_config-IsUpdated options server =
      by_config (build_server_config rustls os defaults sha256 options)
    where
      by_config :
          (r : Result ServerConfig)
          → IsUpdated options server r (
              use_config rustls os defaults sha256
                (record server { congestion = options.congestion })
                r)
      by_config (ok config) = (refl, refl, refl, refl)
      by_config (err e) = (refl, refl, refl, refl)

  -- An update of SunnyQUIC that fails changes nothing; one that succeeds replaces everything.
  pub update_sunny_config_cases :
      (options : SunnyServerOptions) (server : Server)
      → ((e : Error) × (update_sunny_config rustls os defaults sha256 options server
            ≡ (err e, server)))
        ⊎ ((config : ServerConfig) × (build_sunny_server_config rustls os defaults sha256
                options.certificate_chain options.private_key options.zero_rtt
              ≡ ok config)
            × (update_sunny_config rustls os defaults sha256 options server ≡ (
              ok tt,
              record server {
                congestion = options.congestion;
                authentication = sunny (sunny_users sha256 options.users);
                endpoint = record server.endpoint { server_config = some config };
              },
            )))
  unfolding update_sunny_config
  update_sunny_config_cases options server = by_config _ refl
    where
      by_config :
          (r : Result ServerConfig)
          → build_sunny_server_config rustls os defaults sha256 options.certificate_chain
              options.private_key options.zero_rtt
            ≡ r
          → ((e : Error) × (replace rustls os defaults sha256 options server r ≡ (err e, server)))
            ⊎ ((config : ServerConfig) × (build_sunny_server_config rustls os defaults sha256
                    options.certificate_chain options.private_key options.zero_rtt
                  ≡ ok config)
                × (replace rustls os defaults sha256 options server r ≡ (
                  ok tt,
                  record server {
                    congestion = options.congestion;
                    authentication = sunny (sunny_users sha256 options.users);
                    endpoint = record server.endpoint { server_config = some config };
                  },
                )))
      by_config (ok config) e = inr (config, e, refl)
      by_config (err x) e = inl (x, refl)

module _ (sha256 : List ℕ → List ℕ) (credential : List ℕ) where
  abbrev pub credential_of : User → List ℕ
  credential_of user = sunny_credential sha256 user.name user.password

  abbrev name_of : User → List ℕ
  name_of user = user.name

  -- A user of the list has the credential and the name, and no later user has the credential.
  abbrev pub IsLastOwner : List User → List ℕ → Type 0
  IsLastOwner users name = IsLast credential_of name_of credential users name

  -- The name of the last user of the list that has the credential, or none has it.
  abbrev pub IsOwner : List User → Option (List ℕ) → Type 0
  IsOwner users found = IsCollected credential_of name_of credential users found

  insert_users_lem :
      (users : List User) (m : Map (List ℕ) (List ℕ))
      → insert_users sha256 users m ≡ insert_all credential_of name_of users m
  unfolding insert_users
  insert_users_lem [] m = refl
  insert_users_lem (user ∷ rest) m = insert_users_lem rest (insert (credential_of user) user.name m)

  pub sunny_users-IsOwner :
      (users : List User) → IsOwner users (get credential (sunny_users sha256 users))
  unfolding sunny_users
  sunny_users-IsOwner users =
      rw (insert_users_lem users []) (insert_all-IsCollected credential_of name_of credential users)
