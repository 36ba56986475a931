-- ===== src/ShadowQuic/Udp/Loops.antt =====
-- The loops of src/shadowquic/mod.rs over the streams of an association: `handle_udp_control_stream` and
-- `handle_incoming_udp_stream`, on all the bytes of a stream up to its end. A loop runs on fuel, one
-- unit for each round, and ends with the error of its last round; `none` is a loop without fuel.
pub mod Ending
pub mod Packets
use sing_quic_rs.Prelude.{
  ℕ, zero, suc, Bool, Option, none, some, List, [], ◌∷◌, ◌++◌, length, if◌then◌else◌,
}
use sing_quic_rs.Error.{Error, closed, Result, ok, err}
use sing_quic_rs.Address.{NetText}
use sing_quic_rs.ShadowQuic.Udp.{
  IncomingUdpRoute, IncomingUdpRegistry, ShadowQuicPacket, control_round, control_end, stream_round,
  Waited, answered, waiting, wait,
}
use sing_quic_rs.ShadowQuic.Wire.{read_u16}

-- The rounds of the control stream, and the removal of its ids.
unfoldable pub control_rounds :
    NetText → ℕ → ℕ → List ℕ → List ℕ → IncomingUdpRegistry → Option (Error × IncomingUdpRegistry)
unfolding control_round control_end
control_rounds net sender zero ids unread registry = none
control_rounds net sender (suc fuel) ids unread registry =
    elim (control_round net sender ids unread registry) [
      | err e ↦ some (e, control_end ids registry)
      | ok (ids', rest, registry') ↦ control_rounds net sender fuel ids' rest registry'
    ]

-- handle_udp_control_stream: every round takes a byte or is the last.
unfoldable pub handle_udp_control_stream :
    NetText → ℕ → List ℕ → IncomingUdpRegistry → Option (Error × IncomingUdpRegistry)
unfolding control_rounds
handle_udp_control_stream net sender unread registry =
    control_rounds net sender (suc (length unread)) [] unread registry

module _ (takes : ShadowQuicPacket → Bool) where
  -- The rounds of a stream of packets: what was sent to the route's channel, which may be closed,
  -- and the error at the end.
  unfoldable pub stream_rounds :
      ℕ → IncomingUdpRoute → List ShadowQuicPacket → List ℕ → Option (List ShadowQuicPacket × Error)
  unfolding stream_round
  stream_rounds zero route sent unread = none
  stream_rounds (suc fuel) route sent unread = elim (stream_round route unread) [
    | err e ↦ some (sent, e)
    | ok (packet, rest) ↦
        let more = stream_rounds fuel route (sent ++ (packet ∷ [])) rest in
        if takes packet then more else some (sent, closed)
  ]

  -- Behind the wait for the route.
  unfoldable pub routed : List ℕ → Waited → Option (List ShadowQuicPacket × Error)
  unfolding stream_rounds
  routed unread waiting = none
  routed unread (answered (err e)) = some ([], e)
  routed unread (answered (ok route)) = stream_rounds (suc (length unread)) route [] unread

  unfoldable pub from_id :
      IncomingUdpRegistry → Result (ℕ × List ℕ) → Option (List ShadowQuicPacket × Error)
  unfolding routed wait
  from_id registry (err e) = some ([], e)
  from_id registry (ok (id, unread)) = routed unread (wait id registry)

  -- handle_incoming_udp_stream, with the registry as it is when the route is asked for; `none` is a
  -- stream that waits for its route.
  unfoldable pub handle_incoming_udp_stream :
      List ℕ → IncomingUdpRegistry → Option (List ShadowQuicPacket × Error)
  unfolding from_id read_u16
  handle_incoming_udp_stream bytes registry = from_id registry (read_u16 bytes)
