-- ===== src/Hysteria2/Login.antt =====
-- A client of src/hysteria2/client.rs that logs in to a server of src/hysteria2/server.rs, from the options
-- that both were made with.
use sing_quic_rs.Prelude.{ℕ, ◌≡◌, refl, sym, ap, Option, none, some, List, [], ◌∷◌}
use sing_quic_rs.Prelude.Map.{Map, bytes_key, get, insert}
use sing_quic_rs.Prelude.Collected.{insert_all, IsCollected, insert_all-IsCollected}
use sing_quic_rs.Error.{invalid_server_name, quic_tls, ok, ok-injective, bind-ok, if-ok, if_err-ok}
use sing_quic_rs.Tls.{Rustls, add_roots}
use sing_quic_rs.Transport.Settings.{QuicTransportOptions, TransportConfig}
use sing_quic_rs.Transport.Endpoint.{Os, bind_endpoint, client_address}
use sing_quic_rs.Hysteria2.Negotiation.{ClientBandwidth, ServerBandwidth}
use sing_quic_rs.Hysteria2.Configuration.{
  ClientOptions, ServerOptions, User, Client, Server, insert_passwords, build_server_config,
  new_with_bandwidth_and_transport, bind_with_bandwidth_and_transport_and_masquerade,
}
use sing_quic_rs.Hysteria2.Server.{authenticated_user}
use sing_quic_rs.Hysteria2.Client.{auth_request}
use sing_quic_rs.Hysteria2.Client.Exchange.{auth_request-authenticated}

insert_passwords_lem :
    (users : List User) (m : Map (List ℕ) (List ℕ))
    → insert_passwords users m
      ≡ insert_all (λ (u : User). u.password) (λ (u : User). u.name) users m
unfolding insert_passwords
insert_passwords_lem [] m = refl
insert_passwords_lem (user ∷ rest) m = insert_passwords_lem rest (insert user.password user.name m)

-- The user of a list that a password belongs to: the last that has it, if any has.
abbrev pub IsUserOf : List ℕ → List User → Option (List ℕ) → Type 0
IsUserOf password users found =
    IsCollected (λ (u : User). u.password) (λ (u : User). u.name) password users found

insert_passwords-IsUserOf :
    (password : List ℕ) (users : List User)
    → IsUserOf password users (get password (insert_passwords users []))
insert_passwords-IsUserOf password users =
    rw (insert_passwords_lem users [])
      (insert_all-IsCollected (λ (u : User). u.password) (λ (u : User). u.name) password users)

module _ (rustls : Rustls) (os : Os) (defaults : TransportConfig) where
  bind_users :
      {Handler : Type 0} (options : ServerOptions) (bandwidth : ServerBandwidth)
      (transport : QuicTransportOptions) (masquerade : Option Handler) (server : Server Handler)
      → bind_with_bandwidth_and_transport_and_masquerade rustls os defaults options bandwidth
          transport masquerade
        ≡ ok server
      → server.users ≡ insert_passwords options.users []
  unfolding bind_with_bandwidth_and_transport_and_masquerade
  bind_users {Handler = Handler} options bandwidth transport masquerade server e =
      let (config, built, behind) =
        bind-ok
          (build_server_config rustls os defaults options.certificate_chain options.private_key
            transport)
          _ server e in
      let (endpoint, opened, finished) =
        bind-ok (bind_endpoint os options.listen (some config)) _ server behind in
      ap (λ (s : Server Handler). s.users) (sym (ok-injective _ server finished))

  new_options :
      (options : ClientOptions) (bandwidth : ClientBandwidth) (transport : QuicTransportOptions)
      (client : Client)
      → new_with_bandwidth_and_transport rustls os defaults options bandwidth transport ≡ ok client
      → (client.options ≡ options) × (client.bandwidth ≡ bandwidth)
  unfolding new_with_bandwidth_and_transport
  new_options options bandwidth transport client e =
      let (named, behind) = if_err-ok _ (invalid_server_name options.server_name) _ client e in
      let (roots, added, made) =
        bind-ok (add_roots rustls [] options.ca_certificates) _ client behind in
      let running = if-ok _ _ quic_tls client made in
      let (endpoint, opened, finished) =
        bind-ok (bind_endpoint os (client_address options.server.0) none) _ client running in
      let same = ok-injective _ client finished in
      (ap (λ (c : Client). c.options) (sym same), ap (λ (c : Client). c.bandwidth) (sym same))

  -- A client that logs in to a server is authenticated as the user of the server's options that its
  -- own password belongs to, which is the last that has this password, and as none if no user has
  -- it: whatever the bandwidths, the transport settings and the masquerade of both. The password is
  -- a header that `to_str` accepts.
  pub new-bind-IsUserOf :
      {Handler : Type 0} (to_str : List ℕ → Option (List ℕ)) (own : ClientOptions)
      (options : ServerOptions) (bandwidth : ClientBandwidth) (limits : ServerBandwidth)
      (transport transport' : QuicTransportOptions) (masquerade : Option Handler) (client : Client)
      (server : Server Handler)
      → to_str own.password ≡ some own.password
      → new_with_bandwidth_and_transport rustls os defaults own bandwidth transport ≡ ok client
      → bind_with_bandwidth_and_transport_and_masquerade rustls os defaults options limits
          transport' masquerade
        ≡ ok server
      → IsUserOf own.password options.users (
          authenticated_user to_str server.users
            (auth_request client.options.password client.bandwidth))
  new-bind-IsUserOf to_str own options bandwidth limits transport transport' masquerade client
        server readable made bound =
      rw
        (
          (new_options own bandwidth transport client made).0,
          bind_users options limits transport' masquerade server bound,
          auth_request-authenticated to_str (insert_passwords options.users []) own.password
              client.bandwidth readable,
        )
        (insert_passwords-IsUserOf own.password options.users)
