-- ===== src/Hysteria2/Client/Exchange.antt =====
-- The authentication request of src/hysteria2/client.rs at the server of src/hysteria2/server.rs.
use sing_quic_rs.Prelude.{ℕ, ◌≡◌, refl, Option, some, List}
use sing_quic_rs.Prelude.Map.{Map, bytes_key, get}
use sing_quic_rs.Prelude.Bytes.{bytes_eq}
use sing_quic_rs.Hysteria2.Negotiation.{ClientBandwidth}
use sing_quic_rs.Hysteria2.Server.{authenticated_user}
use sing_quic_rs.Hysteria2.Client.{auth_request}

-- The server authenticates the client's request as exactly the user that its password belongs to,
-- and as none if the password is unknown, where the header's text is readable.
pub auth_request-authenticated :
    (to_str : List ℕ → Option (List ℕ)) (users : Map (List ℕ) (List ℕ)) (password : List ℕ)
    (bandwidth : ClientBandwidth)
    → to_str password ≡ some password
    → authenticated_user to_str users (auth_request password bandwidth) ≡ get password users
unfolding authenticated_user auth_request bytes_eq
auth_request-authenticated to_str users password bandwidth e = rw e refl
