-- ===== src/SunnyQuic/Login.antt =====
-- The credential of a client of src/sunnyquic/mod.rs at a server of the same file.
use mathlib.Core.Path.{subst}
use sing_quic_rs.Prelude.{
  ℕ, ◌-◌, ◌≤◌, ◌≡◌, ◌≢◌, ◌⊎◌, inl, inr, refl, sym, ap, Option, none, some, List, [], ◌∷◌, ◌++◌,
  length, replicate, ◌==◌, arith, All, length-append, length-replicate, append-nil,
}
use sing_quic_rs.Prelude.Map.{Map, bytes_key, get}
use sing_quic_rs.Error.{
  invalid_server_name, quic_tls, read, protocol, sunny_authentication_failed, invalid_credentials,
  ok, err, ok-injective, bind-ok, if-ok, if_err-ok,
}
use sing_quic_rs.Reader.{take_exact, take_exact-append}
use sing_quic_rs.Address.{NetText}
use sing_quic_rs.Tls.{Rustls, ClientTls, add_roots}
use sing_quic_rs.Transport.Settings.{TransportConfig}
use sing_quic_rs.Transport.Endpoint.{SocketAddr, Os, bind_endpoint, client_address}
use sing_quic_rs.ShadowQuic.Wire.{sq_authenticate}
use sing_quic_rs.ShadowQuic.Client.{
  ClientAuthentication, CongestionConfig, User, sunny_credential, sunny_users, authenticate_new,
}
use sing_quic_rs.ShadowQuic.Server.{
  sunny, HandshakeData, Shared, Handled, returned, sunny_auth_error_code, authenticate, present,
  handle_authenticate, handle_opcode, handle_bi_stream,
}
use sing_quic_rs.ShadowQuic.Configuration
use sing_quic_rs.ShadowQuic.Configuration.{
  SunnyClientOptions, new_sunny, from_endpoint, initial_roots,
}
use sing_quic_rs.ShadowQuic.Configuration.Updates.{
  credential_of, IsLastOwner, IsOwner, sunny_users-IsOwner,
}
use sing_quic_rs.SunnyQuic.{ClientOptions, ServerOptions, Server, new, bind}
use sing_quic_rs.SunnyQuic.Updates.{bind-IsBound}

length-sunny_credential :
    (sha256 : List ℕ → List ℕ) (username password : List ℕ)
    → ((bytes : List ℕ) → length (sha256 bytes) ≤ 64)
    → length (sunny_credential sha256 username password) ≡ 64
unfolding sunny_credential
length-sunny_credential sha256 username password short =
    let digest : List ℕ = sha256 (username ++ (b':' ∷ password)) in
    omega (
      arith,
      short (username ++ (b':' ∷ password)),
      length-append digest (replicate (64 - length digest) 0),
      length-replicate {A = ℕ} (64 - length digest) 0,
    )

module _ (rustls : Rustls) (os : Os) (defaults : TransportConfig) (sha256 : List ℕ → List ℕ) where
  authentication-from_endpoint :
      (server : SocketAddr) (server_name : List ℕ) (congestion : CongestionConfig)
      (authentication : ClientAuthentication) (settings : ClientTls) (c : Configuration.Client)
      → from_endpoint rustls os defaults sha256 server server_name congestion authentication
          settings
        ≡ ok c
      → c.authentication ≡ authentication
  authentication-from_endpoint server server_name congestion authentication settings c e =
      let (endpoint, opened, finished) =
        bind-ok (bind_endpoint os (client_address server.0) none) _ c
          (if-ok (rustls.client_crypto settings) _ quic_tls c e) in
      ap (λ (x : Configuration.Client). x.authentication) (sym (ok-injective _ c finished))

  authentication-new :
      (options : ClientOptions) (c : Configuration.Client)
      → new rustls os defaults sha256 options ≡ ok c
      → c.authentication
        ≡ ClientAuthentication.sunny (sunny_credential sha256 options.username options.password)
  unfolding new new_sunny
  authentication-new options c e =
      let (named, rest) =
        if_err-ok (length options.server_name == 0) (invalid_server_name options.server_name) _ c
          e in
      let (roots, added, finished) =
        bind-ok
          (add_roots rustls (initial_roots rustls os defaults sha256 options.ca_certificates)
            options.ca_certificates)
          _ c rest in
      authentication-from_endpoint options.server options.server_name options.congestion _ _ c
        finished

-- What the server makes of a credential: the stream is answered and the connection belongs to the
-- last user that has the credential, or no user has it, and the connection is closed as refused.
abbrev pub IsAnswered : (List ℕ → List ℕ) → List ℕ → List User → Shared → Handled → Type 0
IsAnswered sha256 credential users s h =
    ((name : List ℕ) × IsLastOwner sha256 credential users name
      × (h ≡ returned (ok tt) (record s { auth = some (ok name) })))
    ⊎ (All (λ user. credential_of sha256 credential user ≢ credential) users
        × (h
            ≡ returned (err (protocol sunny_authentication_failed)) (record s {
              auth = some (err (protocol invalid_credentials));
              closed_with = some sunny_auth_error_code;
            })))

authenticate-IsAnswered :
    (sha256 : List ℕ → List ℕ) (credential : List ℕ) (users : List User) (s : Shared)
    (found : Option (List ℕ))
    → IsOwner sha256 credential users found
    → IsAnswered sha256 credential users s (authenticate found s)
unfolding authenticate
authenticate-IsAnswered sha256 credential users s none others = inr (others, refl)
authenticate-IsAnswered sha256 credential users s (some name) owner = inl (name, owner, refl)

handle_credential :
    (net : NetText) (known : Map (List ℕ) (List ℕ)) (user credential : List ℕ) (s : Shared)
    → length credential ≡ 64
    → handle_bi_stream net (sunny known) user (sq_authenticate ∷ credential) s
      ≡ authenticate (get credential known) s
unfolding handle_bi_stream handle_opcode handle_authenticate present
handle_credential net known user credential s full =
    let taken : take_exact read 64 credential ≡ ok (credential, []) =
      subst (λ bytes. take_exact read 64 bytes ≡ ok (credential, [])) (append-nil credential)
        (take_exact-append read 64 credential [] full) in
    rw (taken, present) refl

module _ (rustls : Rustls) (os : Os) (defaults : TransportConfig) (sha256 : List ℕ → List ℕ) where
  -- What a client with a name and a password sends on a new connection makes a server with some
  -- users answer and take the connection for the last of them whose credential is the client's, if
  -- there is one; if no user has that credential, the connection is closed with the code of a failed
  -- authentication. The digest has at most 64 bytes.
  pub new-bind-IsAnswered :
      (client : ClientOptions) (server : ServerOptions) (c : Configuration.Client) (v : Server)
      (handshake : Option HandshakeData) (net : NetText) (user : List ℕ) (s : Shared)
      → ((bytes : List ℕ) → length (sha256 bytes) ≤ 64)
      → new rustls os defaults sha256 client ≡ ok c
      → bind rustls os defaults sha256 server ≡ ok v
      → (bytes : List ℕ) × (authenticate_new c.authentication handshake ≡ ok (some bytes))
        × IsAnswered sha256
            (sunny_credential sha256 client.username client.password)
            server.users
            s
            (handle_bi_stream net v.inner.authentication user bytes s)
  unfolding authenticate_new
  new-bind-IsAnswered client server c v handshake net user s short made bound =
      let credential : List ℕ = sunny_credential sha256 client.username client.password in
      let full = length-sunny_credential sha256 client.username client.password short in
      let known = sunny_users sha256 server.users in
      (
        sq_authenticate ∷ credential,
        rw (authentication-new rustls os defaults sha256 client c made) refl,
        rw
            (
              (bind-IsBound rustls os defaults sha256 server v bound).users,
              handle_credential net known user credential s full,
            )
            (authenticate-IsAnswered sha256 credential server.users s (get credential known)
              (sunny_users-IsOwner sha256 credential server.users)),
      )
