-- ===== src/Hysteria2/PacketConnection.antt =====
-- `Hysteria2PacketConnection` of src/hysteria2/packet.rs: one UDP session over a QUIC connection.
-- `Link` stands for `quinn::Connection`: its datagram size now, and the datagrams that it accepts.
pub mod Input
pub mod Chunks
pub mod Inactivity
pub mod Sending
pub mod Arrivals
pub mod Fragments
pub mod Refusals
pub mod Keeping
use sing_quic_rs.Prelude.{
  ℕ, zero, suc, ◌+◌, ◌-◌, ◌/◌, ◌%◌, ◌^◌, min, max, Bool, true, false, ◌||◌, Option, none, some,
  List, [], ◌∷◌, ◌++◌, length, take, drop, ltb, leb, ◌==◌, if◌then◌else◌,
}
use sing_quic_rs.Error.{
  Error, invalid_address, protocol, packet_too_large, address_exceeds_datagram, too_many_fragments,
  send_datagram_failed, Result, ok, err, ◌>>=◌,
}
use sing_quic_rs.VarInt
use sing_quic_rs.Address.{Address, display}
use sing_quic_rs.Hysteria2.Protocol.{max_address_length}
use sing_quic_rs.Hysteria2.Packet.{Packet, UdpMessage, udp_header_size, encode_message}
use sing_quic_rs.Hysteria2.Defragger.{Defragger, Fed, returned, panicked, feed, max_udp_size}

abbrev pub initial_udp_mtu : ℕ
initial_udp_mtu = 1200 - 3

pub record Link : Type 0 where
  pub max_datagram_size : Option ℕ
  pub accepts : List ℕ → Bool

-- `sent` is what the connection has passed to `send_datagram`; `incoming` is the channel of 64.
pub record PacketConnection : Type 0 where
  pub session_id : ℕ
  pub next_packet_id : ℕ
  pub incoming : List Packet
  pub defragger : Defragger
  pub activity : ℕ
  pub sent : List (List ℕ)

-- Hysteria2PacketConnection::new
unfoldable pub new : ℕ → ℕ → PacketConnection
new now session_id = record {
  session_id = session_id;
  next_packet_id = 0;
  incoming = [];
  defragger = [];
  activity = now;
  sent = [];
}

abbrev pub channel_size : ℕ
channel_size = 64

-- How a call of `input` ends.
pub data Taken : Type 0 where
  done : Result (Unit {0}) → PacketConnection → Taken
  panics : Taken

-- `let _ = self.incoming_sender.try_send(packet)`: a full channel drops the packet.
unfoldable pub try_send : Packet → PacketConnection → PacketConnection
try_send packet c =
    if ltb (length c.incoming) channel_size
    then record c { incoming = c.incoming ++ (packet ∷ []) }
    else c

unfoldable pub take_fed : PacketConnection → Fed → Taken
unfolding try_send
take_fed c panicked = panics
take_fed c (returned (err e) d) = done (err e) (record c { defragger = d })
take_fed c (returned (ok none) d) = done (ok tt) (record c { defragger = d })
take_fed c (returned (ok (some packet)) d) =
    done (ok tt) (try_send packet (record c { defragger = d }))

-- Hysteria2PacketConnection::input
unfoldable pub input : ℕ → UdpMessage → PacketConnection → Taken
unfolding take_fed
input now m c = take_fed c (feed now m c.defragger)

-- The calls that a connection makes for the messages of a session, up to the first failure.
unfoldable pub input_all : List (ℕ × UdpMessage) → PacketConnection → Taken
input_all [] c = done (ok tt) c
input_all ((now, m) ∷ rest) c = elim (input now m c) [
  | panics ↦ panics
  | done (err e) c' ↦ done (err e) c'
  | done (ok u) c' ↦ input_all rest c'
]

-- Hysteria2PacketConnection::recv on a channel that holds a packet; `none` is a call that waits.
unfoldable pub recv : ℕ → PacketConnection → Option (Packet × PacketConnection)
recv now c = elim c.incoming [
  | [] ↦ none
  | packet ∷ rest ↦ some (packet, record c { incoming = rest; activity = now })
]

-- slice::chunks, with a bound on the number of chunks; a chunk size is at least 1.
unfoldable pub chunks_within : ℕ → ℕ → List ℕ → List (List ℕ)
chunks_within zero size bytes = []
chunks_within (suc fuel) size [] = []
chunks_within (suc fuel) size (b ∷ rest) =
    take size (b ∷ rest) ∷ chunks_within fuel size (drop size (b ∷ rest))

unfoldable pub chunks : ℕ → List ℕ → List (List ℕ)
unfolding chunks_within
chunks size bytes = chunks_within (length bytes) size bytes

-- usize::div_ceil
unfoldable pub div_ceil : ℕ → ℕ → ℕ
div_ceil n d = (n + d - 1) / d

-- The packet id of the counter's old value: `fetch_add(1).wrapping_add(1) % u32::from(u16::MAX)`.
unfoldable pub packet_id_of : ℕ → ℕ
packet_id_of counter = (counter + 1) % 2 ^ 32 % 65_535

-- The frames of the loop over `packet.data.chunks(fragment_size).enumerate()`.
unfoldable pub frames_from : ℕ → (ℕ → List ℕ → List ℕ) → List (List ℕ) → List (List ℕ)
frames_from id frame [] = []
frames_from id frame (chunk ∷ rest) = frame (id % 256) chunk ∷ frames_from (id + 1) frame rest

module _ (link : Link) where
  -- `send_datagram` of each frame in turn; the first refusal ends the loop.
  unfoldable pub send_frames :
      List (List ℕ) → PacketConnection → Result (Unit {0}) × PacketConnection
  send_frames [] c = (ok tt, c)
  send_frames (frame ∷ rest) c =
      let more = send_frames rest (record c { sent = c.sent ++ (frame ∷ []) }) in
      if link.accepts frame then more else (err (protocol send_datagram_failed), c)

  -- `.map(|size| size.saturating_sub(3)).unwrap_or(INITIAL_UDP_MTU).min(INITIAL_UDP_MTU)`
  unfoldable pub datagram_size : ℕ
  datagram_size = elim link.max_datagram_size [
    | none ↦ min initial_udp_mtu initial_udp_mtu
    | some size ↦ min (size - 3) initial_udp_mtu
  ]

  -- The frames of a packet whose address and its length are encoded, or the refusal.
  unfoldable pub split : ℕ → ℕ → Packet → List ℕ → Result (List (List ℕ))
  unfolding datagram_size div_ceil chunks frames_from
  split session_id packet_id packet address_length =
      let address = display packet.destination in
      let header_size = udp_header_size + length address_length + length address in
      let room = datagram_size - header_size in
      let total = max (div_ceil (length packet.payload) room) 1 in
      let frame = λ (n id : ℕ) (chunk : List ℕ).
        encode_message session_id packet_id id n address address_length chunk in
      if leb datagram_size header_size
      then err (protocol address_exceeds_datagram)
      else if ltb 255 total
      then err (protocol too_many_fragments)
      else ok (
          frames_from 0 (frame total) (chunks room packet.payload)
          ++ (if length packet.payload == 0 then frame 1 0 [] ∷ [] else []))

  -- `send` between the packet id and the sends
  unfoldable pub packet_frames : ℕ → ℕ → Packet → Result (List (List ℕ))
  unfolding split
  packet_frames session_id packet_id packet =
      let address = display packet.destination in
      if length address == 0 || ltb max_address_length (length address)
      then err invalid_address
      else VarInt.encode (length address) >>= split session_id packet_id packet

  -- `self.activity.send_replace(Instant::now())` after the sends
  abbrev pub touch : ℕ → Result (Unit {0}) × PacketConnection → Result (Unit {0}) × PacketConnection
  touch now (ok u, c) = (ok u, record c { activity = now })
  touch now (err e, c) = (err e, c)

  abbrev pub send_result :
      ℕ → PacketConnection → Result (List (List ℕ)) → Result (Unit {0}) × PacketConnection
  send_result now c (err e) = (err e, c)
  send_result now c (ok frames) = touch now (send_frames frames c)

  -- Hysteria2PacketConnection::send
  unfoldable pub send : ℕ → Packet → PacketConnection → Result (Unit {0}) × PacketConnection
  unfolding send_frames packet_frames
  send now packet c =
      if ltb max_udp_size (length packet.payload)
      then (err (protocol packet_too_large), c)
      else let c' = record c { next_packet_id = (c.next_packet_id + 1) % 2 ^ 32 } in
        send_result now c' (packet_frames c.session_id (packet_id_of c.next_packet_id) packet)
