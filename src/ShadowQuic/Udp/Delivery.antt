-- ===== src/ShadowQuic/Udp/Delivery.antt =====
-- From the sender of src/shadowquic/mod.rs to the channel of the receiver: announcements, datagrams
-- and packets on streams, and the routes that a control stream leaves behind.
use sing_quic_rs.Prelude.{
  ℕ, ◌≤◌, ◌≡◌, refl, ap, Bool, true, false, ◌||◌, none, some, List, [], ◌∷◌, ◌++◌, length, ◌==◌,
  ==_iff, if◌then◌else◌, arith,
}
use sing_quic_rs.Prelude.Bytes.{be_u16, from_be_u16-bytes}
use sing_quic_rs.Prelude.Map.{Map, nat_key, get, remove, get-insert, get-remove}
use sing_quic_rs.Error.{read, closed, ok, err}
use sing_quic_rs.Reader.{take_exact-append}
use sing_quic_rs.Decimal.{u16_max}
use sing_quic_rs.Address.{Address, NetText, IsValid}
use sing_quic_rs.ShadowQuic.Wire.{encode_address}
use sing_quic_rs.ShadowQuic.Wire.Codec.{IsNetText, seen, decode-encode_address, read_u16-bytes}
use sing_quic_rs.ShadowQuic.Udp.{
  address_key, IncomingUdpRoute, IncomingUdpRegistry, register, remove_routes, remove_ids,
  control_round, control_end, wait, Waited, answered, waiting, sent, pending, failed, dispatch,
  handle_incoming_udp_datagram, stream_round,
}

-- An announcement on the control stream registers its destination, as the receiver sees it, and
-- nothing behind it is read.
control_round-announced :
    (net : NetText) (sender id : ℕ) (destination : Address) (frame rest ids : List ℕ)
    (registry : IncomingUdpRegistry)
    → IsNetText net
    → IsValid destination
    → id ≤ u16_max
    → encode_address net destination ≡ ok frame
    → control_round net sender ids (frame ++ (be_u16 id ++ rest)) registry
      ≡ ok (ids ++ (id ∷ []), rest, register id (seen net destination) sender registry)
unfolding control_round
control_round-announced net sender id destination frame rest ids registry n v fits e =
    rw
      (
        decode-encode_address net destination frame (be_u16 id ++ rest) n v e,
        control_round,
        read_u16-bytes id rest fits,
      )
      refl

-- A datagram of a registered id goes to the channel and under the destination of its route.
datagram-registered :
    (id sender : ℕ) (destination : Address) (payload : List ℕ) (registry : IncomingUdpRegistry)
    → id ≤ u16_max
    → handle_incoming_udp_datagram (be_u16 id ++ payload) (register id destination sender registry)
      ≡ sent sender (record { payload = payload; destination = destination })
unfolding handle_incoming_udp_datagram be_u16 register wait dispatch
datagram-registered id sender destination payload registry fits =
    rw
      (
        from_be_u16-bytes id (omega arith),
        handle_incoming_udp_datagram,
        wait,
        get-insert id id (record { sender = sender; destination = destination }) registry.routes,
        (==_iff id id).1 refl,
      )
      refl

-- The announcement of an address under an id, then a datagram of that id: the receiver's control
-- stream reads exactly the announcement, and the datagram's payload reaches the channel of that
-- stream with the address as the receiver sees it.
pub announced-delivered :
    (net : NetText) (sender id : ℕ) (destination : Address) (frame rest ids payload : List ℕ)
    (registry : IncomingUdpRegistry)
    → IsNetText net
    → IsValid destination
    → id ≤ u16_max
    → encode_address net destination ≡ ok frame
    → (registry' : IncomingUdpRegistry) × (control_round net sender ids
          (frame ++ (be_u16 id ++ rest))
          registry
        ≡ ok (ids ++ (id ∷ []), rest, registry'))
      × (handle_incoming_udp_datagram (be_u16 id ++ payload) registry'
          ≡ sent sender (record { payload = payload; destination = seen net destination }))
announced-delivered net sender id destination frame rest ids payload registry n v fits e = (
  register id (seen net destination) sender registry,
  control_round-announced net sender id destination frame rest ids registry n v fits e,
  datagram-registered id sender (seen net destination) payload registry fits,
)

-- Whether an id is among those that a control stream announced.
pub announced : ℕ → List ℕ → Bool
announced id [] = false
announced id (j ∷ ids) = (j == id) || announced id ids

get-remove_routes :
    (id : ℕ) (ids : List ℕ) (routes : Map ℕ IncomingUdpRoute)
    → get id (remove_routes ids routes) ≡ (if announced id ids then none else get id routes)
unfolding remove_routes announced
get-remove_routes id [] routes = refl
get-remove_routes id (j ∷ ids) routes =
    ground (arith, get-remove_routes id ids (remove j routes), get-remove j id routes)

wait-control_end :
    (id : ℕ) (ids : List ℕ) (registry : IncomingUdpRegistry)
    → wait id (control_end ids registry) ≡ (
        if announced id ids
        then (if registry.closed then answered (err closed) else waiting)
        else wait id registry)
unfolding control_end remove_ids wait
wait-control_end id ids registry =
    rw (get-remove_routes id ids registry.routes, wait) (by_announced (announced id ids))
  where
    by_announced :
        (b : Bool)
        → elim (if b then none else get id registry.routes) [
          | some route ↦ answered (ok route)
          | none ↦ if registry.closed then answered (err closed) else waiting
        ]
          ≡ (if b
              then (if registry.closed then answered (err closed) else waiting)
              else wait id registry)
    by_announced true = refl
    by_announced false = refl

datagram-wait :
    (id : ℕ) (payload : List ℕ) (registry : IncomingUdpRegistry)
    → id ≤ u16_max
    → handle_incoming_udp_datagram (be_u16 id ++ payload) registry
      ≡ dispatch payload (wait id registry)
unfolding handle_incoming_udp_datagram be_u16
datagram-wait id payload registry fits =
    ap (λ i. dispatch payload (wait i registry)) (from_be_u16-bytes id (omega arith))

dispatch-if :
    (payload : List ℕ) (gone shut : Bool) (w : Waited)
    → dispatch payload (if gone then (if shut then answered (err closed) else waiting) else w)
      ≡ (if gone then (if shut then failed closed else pending) else dispatch payload w)
unfolding dispatch
dispatch-if payload true true w = refl
dispatch-if payload true false w = refl
dispatch-if payload false shut w = refl

-- When a control stream ends, a datagram of an id that it announced waits for a new route, or
-- fails on a closed connection; a datagram of any other id is treated as before.
pub control_end_lem :
    (ids payload : List ℕ) (id : ℕ) (registry : IncomingUdpRegistry)
    → id ≤ u16_max
    → handle_incoming_udp_datagram (be_u16 id ++ payload) (control_end ids registry) ≡ (
        if announced id ids
        then (if registry.closed then failed closed else pending)
        else handle_incoming_udp_datagram (be_u16 id ++ payload) registry)
control_end_lem ids payload id registry fits =
    rw
      (
        datagram-wait id payload (control_end ids registry) fits,
        datagram-wait id payload registry fits,
        wait-control_end id ids registry,
      )
      (dispatch-if payload (announced id ids) registry.closed (wait id registry))

-- A packet on a stream is read back whole, and nothing behind it is read.
pub stream_round-packet :
    (route : IncomingUdpRoute) (payload rest : List ℕ)
    → length payload ≤ u16_max
    → stream_round route (be_u16 (length payload) ++ (payload ++ rest))
      ≡ ok (record { payload = payload; destination = route.destination }, rest)
unfolding stream_round
stream_round-packet route payload rest fits =
    rw
      (
        read_u16-bytes (length payload) (payload ++ rest) fits,
        stream_round,
        take_exact-append read (length payload) payload rest refl,
      )
      refl
