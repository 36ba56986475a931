-- ===== src/ShadowQuic/Server.antt =====
-- The server of src/shadowquic/mod.rs: who a connection belongs to, and what its bidirectional
-- streams come to. The state that the streams of a connection share is passed along, and each
-- round of a stream's handler is one step on it.
pub mod Authentication
pub mod Streams
use sing_quic_rs.Prelude.{
  ℕ, Bool, true, false, not, ◌&&◌, ◌||◌, Option, none, some, List, [], ◌∷◌, ◌++◌, ◌==◌,
  if◌then◌else◌,
}
use sing_quic_rs.Prelude.Map.{Map, Key, bytes_key, get}
use sing_quic_rs.Error.{
  Error, closed, read, protocol, authentication_timed_out, invalid_credentials,
  sunny_authentication_failed, jls_authentication_failed, Result, ok, err,
}
use sing_quic_rs.Reader.{take_byte, take_exact}
use sing_quic_rs.Address.{Address, NetText}
use sing_quic_rs.ShadowQuic.Wire.{
  sq_connect, sq_associate_over_datagram, sq_associate_over_stream, sq_authenticate, sq_extension,
  decode_address,
}
use sing_quic_rs.ShadowQuic.Udp.{UdpMode, datagram, stream}

abbrev pub stream_error_code : ℕ
stream_error_code = 0x100

abbrev pub sunny_auth_error_code : ℕ
sunny_auth_error_code = 263

-- The users of SunnyQUIC by their credentials.
pub data ServerAuthentication : Type 0 where
  jls : ServerAuthentication
  sunny : Map (List ℕ) (List ℕ) → ServerAuthentication

-- The handshake data of rustls: whether JLS accepted the client, and as whom.
pub record HandshakeData : Type 0 where
  pub jls_authenticated : Option Bool
  pub jls_user : Option (List ℕ)

abbrev pub or_default : Option (List ℕ) → List ℕ
or_default none = []
or_default (some user) = user

-- The user of a connection at the start of `serve_connection`.
unfoldable pub connection_user : ServerAuthentication → Option HandshakeData → Result (List ℕ)
connection_user (sunny users) handshake = ok []
connection_user jls none = err jls_authentication_failed
connection_user jls (some handshake) = by_flag handshake.jls_authenticated
  where
    by_flag : Option Bool → Result (List ℕ)
    by_flag (some true) = ok (or_default handshake.jls_user)
    by_flag (some false) = err jls_authentication_failed
    by_flag none = err jls_authentication_failed

-- `Accepted`, with the mode of a packet connection.
pub data Accepted : Type 0 where
  accepted_stream : Address → List ℕ → Accepted
  accepted_packet : UdpMode → Address → List ℕ → Accepted

abbrev pub user_of : Accepted → List ℕ
user_of (accepted_stream destination user) = user
user_of (accepted_packet mode destination user) = user

-- What the streams share: the `watch` channel of the authentication, the connections handed to the
-- caller, whether the caller still takes them, and the code that the connection was closed with.
pub record Shared : Type 0 where
  pub auth : Option (Result (List ℕ))
  pub accepted : List Accepted
  pub accepting : Bool
  pub closed_with : Option ℕ

-- A round of `wait_for_sunny_auth`: it has an answer, or waits for a change of the channel.
pub data Waited : Type 0 where
  answered : Result (List ℕ) → Waited
  waiting : Waited

unfoldable pub wait_for_sunny_auth : ServerAuthentication → Option (Result (List ℕ)) → Waited
wait_for_sunny_auth jls auth = answered (ok [])
wait_for_sunny_auth (sunny users) none = waiting
wait_for_sunny_auth (sunny users) (some result) = answered result

-- How a handler ends, or where it waits: the request was refused by a reset of the stream, the
-- handler returned, it waits for the authentication, or it goes on with the stream's unread bytes
-- as the control stream of an association or as a request for statistics.
pub data Handled : Type 0 where
  reset : ℕ → Shared → Handled
  returned : Result (Unit {0}) → Shared → Handled
  waits : Shared → Handled
  controls : List ℕ → Shared → Handled
  extends : List ℕ → Shared → Handled

abbrev pub shared_of : Handled → Shared
shared_of (reset code s) = s
shared_of (returned r s) = s
shared_of (waits s) = s
shared_of (controls unread s) = s
shared_of (extends unread s) = s

-- `auth_sender.send(..)`, and the close that follows a refusal.
unfoldable pub authenticate : Option (List ℕ) → Shared → Handled
authenticate (some username) s = returned (ok tt) (record s { auth = some (ok username) })
authenticate none s = returned (err (protocol sunny_authentication_failed)) (record s {
  auth = some (err (protocol invalid_credentials));
  closed_with = some sunny_auth_error_code;
})

-- `users.get(&credential)` behind the read of the credential
unfoldable pub present : Map (List ℕ) (List ℕ) → Result (List ℕ × List ℕ) → Shared → Handled
unfolding authenticate
present users (err e) s = returned (err e) s
present users (ok (credential, rest)) s = authenticate (get credential users) s

-- SQ_AUTHENTICATE
unfoldable pub handle_authenticate : ServerAuthentication → List ℕ → Shared → Handled
unfolding present
handle_authenticate jls unread s = reset stream_error_code s
handle_authenticate (sunny users) unread s = present users (take_exact read 64 unread) s

-- `if authenticated_user.is_empty() { user } else { authenticated_user }`
abbrev pub chosen_user : List ℕ → List ℕ → List ℕ
chosen_user user [] = user
chosen_user user (b ∷ rest) = b ∷ rest

-- `sender.send(accepted)`, then `next`
unfoldable pub accept : Accepted → (Shared → Handled) → Shared → Handled
accept a next s =
    if s.accepting
    then next (record s { accepted = s.accepted ++ (a ∷ []) })
    else returned (err closed) s

-- Behind `wait_for_sunny_auth`, `next` with the user it answers.
unfoldable pub authenticated : Waited → (List ℕ → Shared → Handled) → Shared → Handled
authenticated waiting next s = waits s
authenticated (answered (err e)) next s = returned (err e) s
authenticated (answered (ok user)) next s = next user s

-- Behind `decode_address`, `next` with the destination and the unread bytes.
unfoldable pub addressed :
    Result (Address × List ℕ) → (Address → List ℕ → Shared → Handled) → Shared → Handled
addressed (err e) next s = returned (err e) s
addressed (ok (destination, rest)) next s = next destination rest s

module _ (net : NetText) (authentication : ServerAuthentication) (user : List ℕ) where
  -- SQ_CONNECT
  unfoldable pub handle_connect : List ℕ → List ℕ → Shared → Handled
  unfolding addressed accept
  handle_connect unread authenticated_user =
      addressed (decode_address net unread) (λ destination rest.
        accept (accepted_stream destination (chosen_user user authenticated_user))
          (λ s. returned (ok tt) s))

  -- SQ_ASSOCIATE_OVER_DATAGRAM and SQ_ASSOCIATE_OVER_STREAM
  unfoldable pub handle_associate : UdpMode → List ℕ → List ℕ → Shared → Handled
  unfolding addressed accept
  handle_associate mode unread authenticated_user =
      addressed (decode_address net unread) (λ destination rest.
        accept (accepted_packet mode destination (chosen_user user authenticated_user))
          (λ s. controls rest s))

  -- handle_bi_stream behind the opcode
  unfoldable pub handle_opcode : ℕ → List ℕ → Shared → Handled
  unfolding handle_authenticate handle_connect handle_associate authenticated wait_for_sunny_auth
  handle_opcode opcode unread s =
      let waited = wait_for_sunny_auth authentication s.auth in
      if opcode == sq_authenticate
      then handle_authenticate authentication unread s
      else if opcode == sq_connect
      then authenticated waited (handle_connect unread) s
      else if opcode == sq_associate_over_datagram
      then authenticated waited (handle_associate datagram unread) s
      else if opcode == sq_associate_over_stream
      then authenticated waited (handle_associate stream unread) s
      else if opcode == sq_extension
      then authenticated waited (λ name s. extends unread s) s
      else reset stream_error_code s

  unfoldable pub handle_bi_stream : List ℕ → Shared → Handled
  unfolding handle_opcode
  handle_bi_stream [] s = returned (err read) s
  handle_bi_stream (opcode ∷ unread) s = handle_opcode opcode unread s
