-- ===== src/ShadowQuic/Connection.antt =====
-- `serve_connection` of src/shadowquic/mod.rs and the receiver of a client: the state that the tasks of a
-- connection share, each round of a task one step on it, up to the loss of the connection.
pub mod Safety
use sing_quic_rs.Prelude.{
  ℕ, ◌*◌, Bool, true, false, Option, none, some, List, [], ◌∷◌, ◌++◌, if◌then◌else◌,
}
use sing_quic_rs.Error.{
  Error, ConnectionError, connection, congestion_control, Result, ok, err, ◌>>=◌,
}
use sing_quic_rs.Address.{NetText}
use sing_quic_rs.Transport.{PathStats, Windows, update_connection_windows}
use sing_quic_rs.Congestion.{CongestionKind, bbr, brutal}
use sing_quic_rs.ShadowQuic.Udp.{
  IncomingUdpRegistry, control_round, control_end, close, Dispatched, sent, pending, failed,
  handle_incoming_udp_datagram,
}
use sing_quic_rs.ShadowQuic.Server.{
  ServerAuthentication, HandshakeData, Shared, Handled, Waited, answered, waiting, shared_of,
  connection_user, wait_for_sunny_auth, handle_bi_stream,
}

-- The send rate by which the windows of the connection are set.
unfoldable pub send_rate : CongestionKind → ℕ
send_rate (brutal bytes_per_second) = bytes_per_second
send_rate bbr = 0

abbrev pub fresh_registry : IncomingUdpRegistry
fresh_registry = record { routes = []; closed = false }

-- A connection that is served; `dispatched` is what the tasks of incoming datagrams came to.
pub record Serving : Type 0 where
  pub user : List ℕ
  pub windows : Windows
  pub shared : Shared
  pub registry : IncomingUdpRegistry
  pub dispatched : List Dispatched

-- What happens on a connection: a round of the handler of a stream, of the task of a datagram, or of
-- a control stream with its ids and unread bytes; the end of a control stream; the connection's loss.
pub data Event : Type 0 where
  opens_stream : List ℕ → Event
  arrives : List ℕ → Event
  announces : ℕ → List ℕ → List ℕ → Event
  ends_control : List ℕ → Event
  lost : ConnectionError → Event

-- The loop goes on, or has returned.
pub data Looped : Type 0 where
  looping : Serving → Looped
  returned : Error → Serving → Looped

-- The task of a datagram: behind `wait_for_sunny_auth`, the datagram.
unfoldable pub gated : Waited → Dispatched → Dispatched
gated waiting d = pending
gated (answered (err e)) d = failed e
gated (answered (ok user)) d = d

abbrev pub registered : Serving → Result (List ℕ × List ℕ × IncomingUdpRegistry) → Serving
registered c (err e) = c
registered c (ok (ids, rest, registry)) = record c { registry = registry }

module _ (net : NetText) (authentication : ServerAuthentication) where
  abbrev pub kind_known : Option CongestionKind → Result CongestionKind
  kind_known none = err congestion_control
  kind_known (some kind) = ok kind

  -- The beginning: the user, the congestion control, the windows, and an empty registry.
  unfoldable pub start :
      ℕ → PathStats → Option HandshakeData → Option CongestionKind → Bool → Result Serving
  unfolding connection_user send_rate update_connection_windows
  start var_int_max path handshake found accepting = do
    user ← connection_user authentication handshake
    kind ← kind_known found
    ok (record {
      user = user;
      windows =
          update_connection_windows var_int_max path (send_rate kind) 0 (20 * 1024 * 1024)
            (20 * 1024 * 1024);
      shared = record { auth = none; accepted = []; accepting = accepting; closed_with = none };
      registry = fresh_registry;
      dispatched = [];
    })

  -- One event of the loop, or one round of a task that it has started.
  unfoldable pub step : Event → Serving → Looped
  unfolding handle_bi_stream gated wait_for_sunny_auth handle_incoming_udp_datagram control_round
      control_end close
  step (opens_stream bytes) c =
      looping (record c {
        shared = shared_of (handle_bi_stream net authentication c.user bytes c.shared);
      })
  step (arrives datagram) c = looping (record c {
    dispatched =
        c.dispatched
        ++ (gated (wait_for_sunny_auth authentication c.shared.auth)
              (handle_incoming_udp_datagram datagram c.registry)
            ∷ []);
  })
  step (announces sender ids unread) c =
      looping (registered c (control_round net sender ids unread c.registry))
  step (ends_control ids) c = looping (record c { registry = control_end ids c.registry })
  step (lost e) c = returned (connection e) (record c { registry = close c.registry })

  unfoldable pub run : List Event → Serving → Looped
  unfolding step
  run [] c = looping c
  run (event ∷ rest) c = elim (step event c) [
    | looping c' ↦ run rest c'
    | returned e c' ↦ returned e c'
  ]

-- spawn_client_udp_receiver: the client dispatches without a user, and stops with the connection.
unfoldable pub client_receiver :
    List (Result (List ℕ)) → IncomingUdpRegistry → List Dispatched → List Dispatched
unfolding handle_incoming_udp_datagram
client_receiver [] registry dispatched = dispatched
client_receiver (err e ∷ rest) registry dispatched = dispatched
client_receiver (ok datagram ∷ rest) registry dispatched =
    client_receiver rest registry
      (dispatched ++ (handle_incoming_udp_datagram datagram registry ∷ []))
