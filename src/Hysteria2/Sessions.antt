-- ===== src/Hysteria2/Sessions.antt =====
-- The datagrams of `serve_connection` of src/hysteria2/server.rs: the table of UDP sessions, which holds
-- weak handles, and the sessions themselves, which the caller owns and drops.
pub mod Consistency
pub mod Delivery
pub mod Runs
pub mod Arrival
pub mod Exchange
use sing_quic_rs.Prelude.{
  ℕ, Bool, true, false, Option, none, some, List, [], ◌∷◌, ◌++◌, length, set, get_elem?,
  if◌then◌else◌,
}
use sing_quic_rs.Prelude.Map.{Map, Key, nat_key, get, insert}
use sing_quic_rs.Error.{ConnectionError, Error, connection, closed, http3, Result, ok, err}
use sing_quic_rs.Address.{Address, NetText}
use sing_quic_rs.Congestion.{CongestionKind}
use sing_quic_rs.Hysteria2.Packet.{Packet, UdpMessage, decode_message}
use sing_quic_rs.Hysteria2.PacketConnection
use sing_quic_rs.Hysteria2.PacketConnection.{
  Link, PacketConnection, Taken, done, panics, input, recv, send,
}

-- AcceptedPacket; `place` is the `Arc` of the session, a place of the heap. The peer's address is the
-- same for all packets of a connection.
pub record AcceptedPacket : Type 0 where
  pub place : ℕ
  pub destination : Address
  pub user : List ℕ
  pub congestion : CongestionKind

-- `sessions` is `udp_sessions`, with places for weak handles. `heap` holds every session that was
-- made, `none` once its last strong handle is gone. `accepting` says whether the caller still takes
-- what the server accepts.
pub record Sessions : Type 0 where
  pub sessions : Map ℕ ℕ
  pub heap : List (Option PacketConnection)
  pub accepted : List AcceptedPacket
  pub accepting : Bool

-- The table at the start of the loop.
abbrev pub empty : Bool → Sessions
empty accepting = record { sessions = []; heap = []; accepted = []; accepting = accepting }

-- The loop goes on, has ended with an error, or the task has panicked.
pub data Served : Type 0 where
  serving : Sessions → Served
  ended : Error → Sessions → Served
  panicked : Served

-- What a place of the heap holds.
abbrev pub strong : Option (Option PacketConnection) → Option PacketConnection
strong none = none
strong (some o) = o

abbrev pub placed : ℕ → Option PacketConnection → Option (ℕ × PacketConnection)
placed place none = none
placed place (some c) = some (place, c)

-- Weak::upgrade
unfoldable pub upgrade : List (Option PacketConnection) → Option ℕ → Option (ℕ × PacketConnection)
upgrade heap none = none
upgrade heap (some place) = placed place (strong (get_elem? heap place))

-- `udp_sessions.get(&message.session_id).and_then(Weak::upgrade)`
unfoldable pub live_session : ℕ → Sessions → Option (ℕ × PacketConnection)
unfolding upgrade
live_session session_id s = upgrade s.heap (get session_id s.sessions)

-- The session at a place after an operation of its own.
abbrev pub store : ℕ → PacketConnection → Sessions → Sessions
store place c s = record s { heap = set s.heap place (some c) }

unfoldable pub after_input : ℕ → Sessions → Taken → Served
after_input place s panics = panicked
after_input place s (done (ok u) c) = serving (store place c s)
after_input place s (done (err e) c) = ended e (store place c s)

-- `packet_connection.input(message).await?`
unfoldable pub input_at : ℕ → UdpMessage → ℕ → PacketConnection → Sessions → Served
unfolding after_input
input_at now message place c s = after_input place s (input now message c)

-- What happens while the loop runs: a datagram comes at a time, the connection is lost, HTTP/3
-- fails; and what the caller does with a session: it receives, sends, or drops it, or the caller
-- stops taking what is accepted. A stream of its own does not touch the table.
pub data Event : Type 0 where
  arrives : ℕ → List ℕ → Event
  lost : ConnectionError → Event
  control_fails : Event
  stream_opens : Event
  receives : ℕ → ℕ → Event
  sends : Link → ℕ → ℕ → Packet → Event
  drops : ℕ → Event
  stops_accepting : Event

unfoldable pub received : ℕ → Sessions → Option (Packet × PacketConnection) → Sessions
received place s none = s
received place s (some (packet, c)) = store place c s

-- An operation of the caller on a session that it holds.
unfoldable pub on_session :
    (PacketConnection → Sessions) → Option PacketConnection → Sessions → Sessions
on_session act none s = s
on_session act (some c) s = act c

module _ (net : NetText) (user : List ℕ) (congestion : CongestionKind) where
  -- The session is made, accepted and entered.
  unfoldable pub enter : ℕ → UdpMessage → Sessions → Sessions
  enter now message s =
      let place = length s.heap in
      record s {
        sessions = insert message.session_id place s.sessions;
        heap = s.heap ++ (some (PacketConnection.new now message.session_id) ∷ []);
        accepted =
            s.accepted
            ++ (record {
              place = place;
              destination = message.destination;
              user = user;
              congestion = congestion;
            }
                ∷ []);
      }

  -- The `None` of the match: a caller that takes no more ends the loop, and drops the new session.
  unfoldable pub new_session : ℕ → UdpMessage → Sessions → Served
  unfolding enter input_at
  new_session now message s =
      if s.accepting
      then input_at now message (length s.heap) (PacketConnection.new now message.session_id)
          (enter now message s)
      else ended closed s

  unfoldable pub take_message : ℕ → UdpMessage → Option (ℕ × PacketConnection) → Sessions → Served
  unfolding new_session input_at
  take_message now message none s = new_session now message s
  take_message now message (some (place, c)) s = input_at now message place c s

  unfoldable pub take_decoded : ℕ → Result UdpMessage → Sessions → Served
  unfolding take_message live_session
  take_decoded now (err e) s = ended e s
  take_decoded now (ok message) s = take_message now message (live_session message.session_id s) s

  -- The datagram branch of the loop
  unfoldable pub take_datagram : ℕ → List ℕ → Sessions → Served
  unfolding take_decoded decode_message
  take_datagram now datagram s = take_decoded now (decode_message net datagram) s

  -- One turn of the loop, or one operation of the caller.
  unfoldable pub step : Event → Sessions → Served
  unfolding take_datagram received on_session recv send
  step (arrives now datagram) s = take_datagram now datagram s
  step (lost e) s = ended (connection e) s
  step control_fails s = ended http3 s
  step stream_opens s = serving s
  step (receives now place) s =
      serving (on_session (λ c. received place s (recv now c)) (strong (get_elem? s.heap place)) s)
  step (sends link now place packet) s = serving (
      on_session (λ c. store place (send link now packet c).1 s) (strong (get_elem? s.heap place))
        s)
  step (drops place) s = serving (record s { heap = set s.heap place none })
  step stops_accepting s = serving (record s { accepting = false })

  -- The loop over the events, up to its end.
  unfoldable pub run : List Event → Sessions → Served
  unfolding step
  run [] s = serving s
  run (event ∷ rest) s = elim (step event s) [
    | serving s' ↦ run rest s'
    | ended e s' ↦ ended e s'
    | panicked ↦ panicked
  ]
