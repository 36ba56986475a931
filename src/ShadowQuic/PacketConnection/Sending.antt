-- ===== src/ShadowQuic/PacketConnection/Sending.antt =====
-- What `send` of src/shadowquic/mod.rs puts on the control stream and out as datagrams.
use sing_quic_rs.Prelude.{
  ℕ, ◌+◌, ◌%◌, ◌^◌, ◌≤◌, ◌≡◌, refl, true, false, none, some, List, [], ◌∷◌, ◌++◌, length, ltb,
  arith,
}
use sing_quic_rs.Prelude.Bytes.{be_u16}
use sing_quic_rs.Prelude.Map.{get, insert, get-insert}
use sing_quic_rs.Error.{ok}
use sing_quic_rs.Writer.{write_all, push, push-push}
use sing_quic_rs.Address.{Address, NetText}
use sing_quic_rs.ShadowQuic.Wire.{encode_address}
use sing_quic_rs.ShadowQuic.Udp.{
  address_key, address_eq_iff, UdpMode, datagram, stream, ShadowQuicPacket,
}
use sing_quic_rs.Address.{IsValid}
use sing_quic_rs.Decimal.{u16_max}
use sing_quic_rs.ShadowQuic.Wire.Codec.{IsNetText, seen}
use sing_quic_rs.ShadowQuic.Udp.{
  IncomingUdpRegistry, control_round, sent, handle_incoming_udp_datagram,
}
use sing_quic_rs.ShadowQuic.Udp.Delivery.{announced-delivered}
use sing_quic_rs.ShadowQuic.PacketConnection.{
  by_datagram, ShadowQuicPacketConnection, fetch_add, write_control, new_context, put, announce,
  context_for, send_datagram, send_by, send,
}

-- The connection after a datagram went out.
abbrev pub with_datagram : List ℕ → ShadowQuicPacketConnection → ShadowQuicPacketConnection
with_datagram frame c = record c {
  quic = record c.quic { datagrams = c.quic.datagrams ++ (frame ∷ []) };
}

-- The connection after a destination was announced.
abbrev pub with_context : Address → List ℕ → ShadowQuicPacketConnection → ShadowQuicPacketConnection
with_context destination address c = record c {
  next_id = (c.next_id + 1) % 2 ^ 16;
  control = push c.control (address ++ be_u16 c.next_id);
  contexts = insert destination (by_datagram c.next_id) c.contexts;
}

write_control-fits :
    (bytes : List ℕ) (c : ShadowQuicPacketConnection)
    → length bytes ≤ c.control.budget
    → write_control bytes c ≡ (ok tt, record c { control = push c.control bytes })
unfolding write_control write_all
write_control-fits bytes c h =
    let fits : ltb c.control.budget (length bytes) ≡ false = ground arith in rw fits refl

by_mode :
    (mode : UdpMode) {id : ℕ} {c : ShadowQuicPacketConnection}
    → mode ≡ datagram
    → new_context mode id c ≡ (ok (by_datagram id), c)
unfolding new_context
by_mode datagram e = refl
by_mode stream e = cc

announce-datagram :
    (net : NetText) (destination : Address) (address : List ℕ) (c : ShadowQuicPacketConnection)
    → c.mode ≡ datagram
    → encode_address net destination ≡ ok address
    → length address + 2 ≤ c.control.budget
    → announce net destination c ≡ (ok (by_datagram c.next_id), with_context destination address c)
unfolding announce fetch_add put
announce-datagram net destination address c mode e fits =
    let counted = record c { next_id = (c.next_id + 1) % 2 ^ 16 } in
    let announced = record counted { control = push c.control address } in
    rw
      (
        e,
        announce,
        write_control-fits address counted (omega arith),
        write_control-fits (be_u16 c.next_id) announced (unfold be_u16 in omega arith),
        push-push c.control address (be_u16 c.next_id),
        by_mode c.mode mode,
      )
      refl

send_datagram-taken :
    (frame : List ℕ) (c : ShadowQuicPacketConnection)
    → c.quic.takes frame ≡ true
    → send_datagram frame c ≡ (ok tt, with_datagram frame c)
unfolding send_datagram
send_datagram-taken frame c e = rw e refl

-- The first packet for a destination, over datagrams: the control stream gets the encoded address
-- and the id, the counter goes one up within 16 bits, and the datagram carries the id and the
-- payload. A later packet for the destination is only a datagram with the same id.
pub send_first :
    (net : NetText) (packet : ShadowQuicPacket) (address : List ℕ) (c : ShadowQuicPacketConnection)
    → c.mode ≡ datagram
    → get packet.destination c.contexts ≡ none
    → encode_address net packet.destination ≡ ok address
    → length address + 2 ≤ c.control.budget
    → c.quic.takes (be_u16 c.next_id ++ packet.payload) ≡ true
    → send net packet c ≡ (
      ok tt,
      with_datagram
          (be_u16 c.next_id ++ packet.payload)
          (with_context packet.destination address c),
    )
unfolding send context_for send_by
send_first net packet address c mode fresh e fits taken =
    rw (fresh, context_for, send, announce-datagram net packet.destination address c mode e fits)
      (send_datagram-taken (be_u16 c.next_id ++ packet.payload)
        (with_context packet.destination address c) taken)

-- The first packet for a destination, over datagrams, from end to end: `send` succeeds, adds an
-- announcement to the control stream and one datagram, and leaves the address's context behind;
-- the peer's control stream reads exactly the announcement, after which the datagram reaches the
-- channel of that stream as the payload that was sent, under the address as the peer sees it.
pub send-delivered :
    (net : NetText) (packet : ShadowQuicPacket) (address : List ℕ) (c : ShadowQuicPacketConnection)
    (sender : ℕ) (rest ids : List ℕ) (registry : IncomingUdpRegistry)
    → IsNetText net
    → IsValid packet.destination
    → c.next_id ≤ u16_max
    → c.mode ≡ datagram
    → get packet.destination c.contexts ≡ none
    → encode_address net packet.destination ≡ ok address
    → length address + 2 ≤ c.control.budget
    → c.quic.takes (be_u16 c.next_id ++ packet.payload) ≡ true
    → (c' : ShadowQuicPacketConnection) × (registry' : IncomingUdpRegistry) × (send net packet c
        ≡ (ok tt, c'))
      × (get packet.destination c'.contexts ≡ some (by_datagram c.next_id))
      × (c'.control.written ≡ c.control.written ++ (address ++ be_u16 c.next_id))
      × (c'.quic.datagrams ≡ c.quic.datagrams ++ ((be_u16 c.next_id ++ packet.payload) ∷ []))
      × (control_round net sender ids (address ++ (be_u16 c.next_id ++ rest)) registry
          ≡ ok (ids ++ (c.next_id ∷ []), rest, registry'))
      × (handle_incoming_udp_datagram (be_u16 c.next_id ++ packet.payload) registry'
          ≡ sent sender
              (record { payload = packet.payload; destination = seen net packet.destination }))
send-delivered net packet address c sender rest ids registry n v numbered mode fresh e fits taken =
    let (registry', reads, delivers) =
      announced-delivered net sender c.next_id packet.destination address rest ids packet.payload
        registry n v numbered e in
    (
      with_datagram (be_u16 c.next_id ++ packet.payload)
          (with_context packet.destination address c),
      registry',
      send_first net packet address c mode fresh e fits taken,
      rw
          (
            get-insert packet.destination packet.destination (by_datagram c.next_id) c.contexts,
            (address_eq_iff packet.destination packet.destination).1 refl,
          )
          refl,
      refl,
      refl,
      reads,
      delivers,
    )
