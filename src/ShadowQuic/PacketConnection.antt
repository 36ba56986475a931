-- ===== src/ShadowQuic/PacketConnection.antt =====
-- ShadowQuicPacketConnection of src/shadowquic/mod.rs, whose `send` announces a destination on the
-- control stream before its first packet.
pub mod Sending
use sing_quic_rs.Prelude.{
  ℕ, ◌+◌, ◌-◌, ◌%◌, ◌^◌, Bool, true, false, Option, none, some, List, [], ◌∷◌, ◌++◌, length, ltb,
  if◌then◌else◌,
}
use sing_quic_rs.Prelude.Bytes.{be_u16}
use sing_quic_rs.Prelude.Map.{Map, Key, get, insert}
use sing_quic_rs.Error.{
  Error, ConnectionError, connection, closed, protocol, squic_packet_too_large,
  send_datagram_failed, write, Result, ok, err,
}
use sing_quic_rs.Writer.{Sink, write_all}
use sing_quic_rs.Address.{Address, NetText}
use sing_quic_rs.ShadowQuic.Wire.{encode_address}
use sing_quic_rs.ShadowQuic.Udp.{address_key, UdpMode, datagram, stream, ShadowQuicPacket}

-- OutgoingUdpContext: the id of datagrams, or the stream that was opened.
pub data OutgoingUdpContext : Type 0 where
  by_datagram : ℕ → OutgoingUdpContext
  by_stream : Sink → OutgoingUdpContext

-- quinn::Connection as `send` uses it: the datagrams that went out, which ones it takes, the budgets
-- of the streams that it still opens, and the error when it opens no more.
pub record QuicConnection : Type 0 where
  pub datagrams : List (List ℕ)
  pub takes : List ℕ → Bool
  pub openable : List ℕ
  pub lost : ConnectionError

-- ShadowQuicPacketConnection with its `OutgoingUdpState`. `next_id` is the counter that the
-- associations of a connection share, `incoming` the channel of received packets, and
-- `incoming_closed` says that its sending half is gone.
pub record ShadowQuicPacketConnection : Type 0 where
  pub quic : QuicConnection
  pub mode : UdpMode
  pub next_id : ℕ
  pub control : Sink
  pub contexts : Map Address OutgoingUdpContext
  pub incoming : List ShadowQuicPacket
  pub incoming_closed : Bool

abbrev pub Act : Type 0 → Type 0
Act A = ShadowQuicPacketConnection → Result A × ShadowQuicPacketConnection

abbrev pub continue :
    {A B : Type 0}
    → Result A × ShadowQuicPacketConnection
    → (A → Act B)
    → Result B × ShadowQuicPacketConnection
continue (ok a, c) f = f a c
continue (err e, c) f = (err e, c)

infixl 5 ◌>>=◌ ◌>>◌
abbrev pub ◌>>=◌ : {A B : Type 0} → Act A → (A → Act B) → Act B
◌>>=◌ m f c = continue (m c) f

abbrev pub ◌>>◌ : {A B : Type 0} → Act A → Act B → Act B
m >> k = m >>= λ _. k

abbrev pub pure : {A : Type 0} → A → Act A
pure a c = (ok a, c)

abbrev pub lift : {A : Type 0} → Result A → Act A
lift r c = (r, c)

-- `self.next_id.fetch_add(1)` of an `AtomicU16`, which wraps
unfoldable pub fetch_add : Act ℕ
fetch_add c = (ok c.next_id, record c { next_id = (c.next_id + 1) % 2 ^ 16 })

unfoldable pub write_control : List ℕ → Act (Unit {0})
write_control bytes c =
    let (r, s) = write_all write bytes c.control in (r, record c { control = s })

-- `self.connection.open_uni()` and the id on it
unfoldable pub open_stream : ℕ → Act OutgoingUdpContext
open_stream id c = by_openable c.quic.openable
  where
    by_openable : List ℕ → Result OutgoingUdpContext × ShadowQuicPacketConnection
    by_openable [] = (err (connection c.quic.lost), c)
    by_openable (budget ∷ rest) =
        let (r, s) = write_all write (be_u16 id) (record { written = []; budget = budget }) in
        let opened = record c { quic = record c.quic { openable = rest } } in
        elim r [ ok done ↦ (ok (by_stream s), opened) | err e ↦ (err e, opened) ]

unfoldable pub new_context : UdpMode → ℕ → Act OutgoingUdpContext
unfolding open_stream
new_context datagram id = pure (by_datagram id)
new_context stream id = open_stream id

unfoldable pub put : Address → OutgoingUdpContext → Act OutgoingUdpContext
put destination context c =
    (ok context, record c { contexts = insert destination context c.contexts })

-- The branch of `send` for a destination that has no context.
unfoldable pub announce : NetText → Address → Act OutgoingUdpContext
unfolding fetch_add write_control new_context put
announce net destination c =
    (do
      id ← fetch_add
      address ← lift (encode_address net destination)
      write_control address
      write_control (be_u16 id)
      context ← new_context c.mode id
      put destination context)
      c

unfoldable pub context_for : NetText → Address → Act OutgoingUdpContext
unfolding announce
context_for net destination c = elim (get destination c.contexts) [
  | some context ↦ (ok context, c)
  | none ↦ announce net destination c
]

unfoldable pub send_datagram : List ℕ → Act (Unit {0})
send_datagram frame c =
    if c.quic.takes frame
    then (ok tt, record c { quic = record c.quic { datagrams = c.quic.datagrams ++ (frame ∷ []) } })
    else (err (protocol send_datagram_failed), c)

-- The writes on the stream of a context, which change the stream in place.
unfoldable pub write_stream : Address → List ℕ → Sink → Act Sink
write_stream destination bytes s c =
    let (r, s') = write_all write bytes s in
    let c' = record c { contexts = insert destination (by_stream s') c.contexts } in
    elim r [ ok done ↦ (ok s', c') | err e ↦ (err e, c') ]

unfoldable pub packet_length : List ℕ → Result ℕ
packet_length payload =
    if ltb 0xffff (length payload)
    then err (protocol squic_packet_too_large)
    else ok (length payload)

unfoldable pub send_by : ShadowQuicPacket → OutgoingUdpContext → Act (Unit {0})
unfolding send_datagram write_stream packet_length
send_by packet (by_datagram id) = send_datagram (be_u16 id ++ packet.payload)
send_by packet (by_stream s) = do
  n ← lift (packet_length packet.payload)
  s' ← write_stream packet.destination (be_u16 n) s
  s'' ← write_stream packet.destination packet.payload s'
  pure tt

-- ShadowQuicPacketConnection::send
unfoldable pub send : NetText → ShadowQuicPacket → Act (Unit {0})
unfolding context_for send_by
send net packet = do context ← context_for net packet.destination; send_by packet context

-- ShadowQuicPacketConnection::recv; `none` is a call that waits for a packet.
unfoldable pub recv :
    ShadowQuicPacketConnection → Option (Result ShadowQuicPacket × ShadowQuicPacketConnection)
recv c = elim c.incoming [
  | [] ↦ if c.incoming_closed then some (err closed, c) else none
  | packet ∷ rest ↦ some (ok packet, record c { incoming = rest })
]
