-- ===== src/ShadowQuic/Client.antt =====
-- The client of src/shadowquic/mod.rs: the connection it keeps, and the requests that it opens streams
-- with; and the credentials of SunnyQUIC, where `sha256` stands for ring's digest.
pub mod Requests
use sing_quic_rs.Prelude.{
  ℕ, ◌-◌, Bool, true, false, Option, none, some, List, [], ◌∷◌, ◌++◌, length, replicate, take,
  if◌then◌else◌,
}
use sing_quic_rs.Prelude.Map.{Map, Key, bytes_key, insert}
use sing_quic_rs.Error.{Error, congestion_control, jls_authentication_failed, Result, ok, err}
use sing_quic_rs.Congestion.{
  CongestionKind, Controllers, Connection, States, configure_brutal, configure_bbr,
}
use sing_quic_rs.Address.{Address, NetText}
use sing_quic_rs.ShadowQuic.Wire.{
  sq_authenticate, sq_associate_over_datagram, sq_associate_over_stream, encode_address,
  encode_connect, with_code,
}
use sing_quic_rs.Writer.{Sink}
use sing_quic_rs.ShadowQuic.Udp.{datagram, stream}
use sing_quic_rs.ShadowQuic.PacketConnection.{QuicConnection, ShadowQuicPacketConnection}
use sing_quic_rs.ShadowQuic.Server.{HandshakeData}

pub data CongestionConfig : Type 0 where
  bbr_config : CongestionConfig
  brutal_config : ℕ → Bool → CongestionConfig

pub data ClientAuthentication : Type 0 where
  jls : ClientAuthentication
  sunny : List ℕ → ClientAuthentication

pub record User : Type 0 where
  pub name : List ℕ
  pub password : List ℕ

module _ (sha256 : List ℕ → List ℕ) where
  -- The digest in the front of 64 bytes.
  unfoldable pub sunny_credential : List ℕ → List ℕ → List ℕ
  sunny_credential username password =
      let digest = sha256 (username ++ (b':' ∷ password)) in
      digest ++ replicate (64 - length digest) 0

  -- `collect` into a map: a later user takes the place of an earlier one of the same credential.
  unfoldable pub insert_users : List User → Map (List ℕ) (List ℕ) → Map (List ℕ) (List ℕ)
  unfolding sunny_credential
  insert_users [] users = users
  insert_users (user ∷ rest) users =
      insert_users rest (insert (sunny_credential user.name user.password) user.name users)

  unfoldable pub sunny_users : List User → Map (List ℕ) (List ℕ)
  unfolding insert_users
  sunny_users users = insert_users users []

module _ (q : Controllers) (now : ℕ) where
  unfoldable pub configure : Connection q → CongestionConfig → States q → Bool × States q
  unfolding configure_bbr configure_brutal
  configure connection bbr_config states = configure_bbr q now connection states
  configure connection (brutal_config bytes_per_second disable_loss_compensation) states =
      configure_brutal q now connection bytes_per_second disable_loss_compensation states

  abbrev pub ok_or_congestion : Bool × States q → Result (Unit {0}) × States q
  ok_or_congestion (true, states) = (ok tt, states)
  ok_or_congestion (false, states) = (err congestion_control, states)

  unfoldable pub apply_congestion :
      Connection q → CongestionConfig → States q → Result (Unit {0}) × States q
  unfolding configure
  apply_congestion connection congestion states =
      ok_or_congestion (configure connection congestion states)

-- `data.jls_authenticated != Some(true)`
abbrev pub is_true : Option Bool → Bool
is_true none = false
is_true (some b) = b

-- What a new connection sends first on a stream of its own, or its refusal. Handshake data that is
-- absent is no refusal.
unfoldable pub authenticate_new :
    ClientAuthentication → Option HandshakeData → Result (Option (List ℕ))
authenticate_new jls none = ok none
authenticate_new jls (some handshake) =
    if is_true handshake.jls_authenticated then ok none else err jls_authentication_failed
authenticate_new (sunny credential) handshake = ok (some (sq_authenticate ∷ credential))

-- A connection of the client: its number, and whether it was closed.
pub record Cached : Type 0 where
  pub number : ℕ
  pub is_closed : Bool

abbrev pub live : Option Cached → Option ℕ
live none = none
live (some cached) = if cached.is_closed then none else some cached.number

-- What `connection_state` comes to: the connection it returns, and the one it keeps; `dialled` is
-- what connecting and `authenticate_new` gave.
unfoldable pub connection_state : Option Cached → Result Cached → Result ℕ × Option Cached
connection_state cached dialled = elim (live cached) [
  | some number ↦ (ok number, cached)
  | none ↦ elim dialled [ ok state ↦ (ok state.number, some state) | err e ↦ (err e, cached) ]
]

-- The bytes that `connect` writes on its stream.
unfoldable pub connect_request : NetText → Address → Result (List ℕ)
unfolding encode_connect
connect_request net destination = encode_connect net destination

-- The bytes that `associate` writes on its stream. The code is written before the address is encoded.
unfoldable pub associate_request : NetText → Address → Bool → Result (List ℕ)
unfolding encode_address
associate_request net destination over_stream =
    with_code (if over_stream then sq_associate_over_stream else sq_associate_over_datagram)
      (encode_address net destination)

-- Whether a new connection gets a task for incoming packets.
unfoldable pub receives_udp : ClientAuthentication → Bool
receives_udp jls = false
receives_udp (sunny credential) = true

-- What `associate` returns once its request is written: `next_id` is the counter of the connection.
unfoldable pub association : QuicConnection → ℕ → Bool → Sink → ShadowQuicPacketConnection
association quic next_id over_stream control = record {
  quic = quic;
  mode = if over_stream then stream else datagram;
  next_id = next_id;
  control = control;
  contexts = [];
  incoming = [];
  incoming_closed = false;
}

-- Client::congestion_kind
unfoldable pub congestion_kind : (ℕ → Option CongestionKind) → Option Cached → Option CongestionKind
congestion_kind kind none = none
congestion_kind kind (some cached) = kind cached.number
