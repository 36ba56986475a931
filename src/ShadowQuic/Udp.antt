-- ===== src/ShadowQuic/Udp.antt =====
-- The UDP associations of src/shadowquic/mod.rs: the registry of incoming routes, the sender of
-- packets, the stream that announces routes and the two ways by which packets come in.
-- `NetText` is as in Address. A channel is its number; what is sent on it is part of a result.
pub mod Delivery
pub mod Registry
pub mod Loops
use sing_quic_rs.Prelude.{
  ℕ, zero, suc, ◌+◌, ◌%◌, ◌^◌, Bool, true, false, ◌&&◌, ◌≡◌, ◌↔◌, refl, arith, Option, none, some,
  List, [], ◌∷◌, ◌++◌, length, ltb, ◌==◌, ==_iff, if◌then◌else◌,
}
use sing_quic_rs.Prelude.Bytes.{be_u16, from_be_u16, bytes_eq, bytes_eq→eq, bytes_eq_refl}
use sing_quic_rs.Prelude.Map.{Map, Key, nat_key, get, insert, remove}
use sing_quic_rs.Error.{
  Error, closed, protocol, truncated_squic_datagram, squic_packet_too_large, send_datagram_failed,
  read, write, Result, ok, err, ◌>>=◌,
}
use sing_quic_rs.Reader.{take_exact}
use sing_quic_rs.Writer.{Sink, write_all}
use sing_quic_rs.Address.{Address, NetText}
use sing_quic_rs.ShadowQuic.Wire.{encode_address, decode_address, read_u16}

-- The `Eq` and `Hash` of `Address`.
abbrev pub address_eq : Address → Address → Bool
address_eq a b = bytes_eq a.host b.host && (a.port == b.port)

pub address_eq_iff : (a b : Address) → (address_eq a b ≡ true) ↔ (a ≡ b)
address_eq_iff a b = (forth, λ e. rw e (ground (arith, bytes_eq_refl b.host)))
  where
    forth : address_eq a b ≡ true → a ≡ b
    forth h =
        let hosts : a.host ≡ b.host = bytes_eq→eq a.host b.host (ground arith) in
        let ports : a.port ≡ b.port = ground arith in cc

instance abbrev pub address_key : Key Address
address_key = record { same = address_eq; same_iff = address_eq_iff }

pub data UdpMode : Type 0 where
  datagram stream : UdpMode

pub record IncomingUdpRoute : Type 0 where
  pub sender : ℕ
  pub destination : Address

pub record IncomingUdpRegistry : Type 0 where
  pub routes : Map ℕ IncomingUdpRoute
  pub closed : Bool

pub record ShadowQuicPacket : Type 0 where
  pub payload : List ℕ
  pub destination : Address

-- IncomingUdpRegistry::register
unfoldable pub register : ℕ → Address → ℕ → IncomingUdpRegistry → IncomingUdpRegistry
register id destination sender registry = record registry {
  routes = insert id (record { sender = sender; destination = destination }) registry.routes;
}

-- IncomingUdpRegistry::remove
unfoldable pub remove_routes : List ℕ → Map ℕ IncomingUdpRoute → Map ℕ IncomingUdpRoute
remove_routes [] routes = routes
remove_routes (id ∷ ids) routes = remove_routes ids (remove id routes)

unfoldable pub remove_ids : List ℕ → IncomingUdpRegistry → IncomingUdpRegistry
unfolding remove_routes
remove_ids ids registry = record registry { routes = remove_routes ids registry.routes }

-- IncomingUdpRegistry::close
unfoldable pub close : IncomingUdpRegistry → IncomingUdpRegistry
close registry = record registry { closed = true }

-- One round of the loop of `IncomingUdpRegistry::wait`: it has an answer, or waits for a change.
pub data Waited : Type 0 where
  answered : Result IncomingUdpRoute → Waited
  waiting : Waited

unfoldable pub wait : ℕ → IncomingUdpRegistry → Waited
wait id registry = elim (get id registry.routes) [
  | some route ↦ answered (ok route)
  | none ↦ if registry.closed then answered (err closed) else waiting
]

-- What an incoming packet comes to: it is sent to the channel of its route, waits for its route, or
-- the handler returns an error.
pub data Dispatched : Type 0 where
  sent : ℕ → ShadowQuicPacket → Dispatched
  pending : Dispatched
  failed : Error → Dispatched

unfoldable pub dispatch : List ℕ → Waited → Dispatched
dispatch payload waiting = pending
dispatch payload (answered (err e)) = failed e
dispatch payload (answered (ok route)) =
    sent route.sender (record { payload = payload; destination = route.destination })

-- handle_incoming_udp_datagram
unfoldable pub handle_incoming_udp_datagram : List ℕ → IncomingUdpRegistry → Dispatched
unfolding dispatch wait
handle_incoming_udp_datagram [] registry = failed (protocol truncated_squic_datagram)
handle_incoming_udp_datagram (a ∷ []) registry = failed (protocol truncated_squic_datagram)
handle_incoming_udp_datagram (a ∷ b ∷ payload) registry =
    dispatch payload (wait (from_be_u16 a b) registry)

-- One round of the loop of `handle_udp_control_stream`: the ids so far, the unread bytes and the
-- registry after it, or the error that ends the loop.
unfoldable pub control_round :
    NetText
    → ℕ
    → List ℕ
    → List ℕ
    → IncomingUdpRegistry
    → Result (List ℕ × List ℕ × IncomingUdpRegistry)
unfolding register
control_round net sender ids unread registry = do
  (destination, behind) ← decode_address net unread
  (id, rest) ← read_u16 behind
  ok (ids ++ (id ∷ []), rest, register id destination sender registry)

-- How `handle_udp_control_stream` leaves the registry, at the error that ends its loop.
unfoldable pub control_end : List ℕ → IncomingUdpRegistry → IncomingUdpRegistry
unfolding remove_ids
control_end ids registry = remove_ids ids registry

-- One round of the loop of `handle_incoming_udp_stream` behind the route: a packet, and the rest.
unfoldable pub stream_round : IncomingUdpRoute → List ℕ → Result (ShadowQuicPacket × List ℕ)
unfolding read_u16
stream_round route unread = do
  (n, behind) ← read_u16 unread
  (payload, rest) ← take_exact read n behind
  ok (record { payload = payload; destination = route.destination }, rest)
