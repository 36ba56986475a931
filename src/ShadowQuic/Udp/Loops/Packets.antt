-- ===== src/ShadowQuic/Udp/Loops/Packets.antt =====
-- A stream of packets of src/shadowquic/mod.rs, from the sender's writes to the route's channel.
use sing_quic_rs.Prelude.{
  ℕ, zero, suc, ◌≤◌, ◌<◌, ◌≡◌, ◌∙◌, refl, sym, ap, Bool, true, some, List, [], ◌∷◌, ◌++◌, length,
  arith, All, append_assoc, append-nil, length-append,
}
use sing_quic_rs.Prelude.Bytes.{be_u16}
use sing_quic_rs.Prelude.Map.{nat_key, get}
use sing_quic_rs.Error.{read, ok}
use sing_quic_rs.Reader.{take_byte}
use sing_quic_rs.Decimal.{u16_max}
use sing_quic_rs.ShadowQuic.Wire.{read_u16}
use sing_quic_rs.ShadowQuic.Wire.Codec.{read_u16-bytes}
use sing_quic_rs.ShadowQuic.Udp.{
  IncomingUdpRoute, IncomingUdpRegistry, ShadowQuicPacket, stream_round, wait,
}
use sing_quic_rs.ShadowQuic.Udp.Delivery.{stream_round-packet}
use sing_quic_rs.ShadowQuic.Udp.Loops.{stream_rounds, routed, from_id, handle_incoming_udp_stream}

-- What `send` writes for payloads on the stream of a context, in order.
abbrev pub stream_bytes : List (List ℕ) → List ℕ
stream_bytes [] = []
stream_bytes (payload ∷ rest) = be_u16 (length payload) ++ (payload ++ stream_bytes rest)

-- The packets that a route makes of payloads.
abbrev pub packets_of : IncomingUdpRoute → List (List ℕ) → List ShadowQuicPacket
packets_of route [] = []
packets_of route (payload ∷ rest) =
    record { payload = payload; destination = route.destination } ∷ packets_of route rest

module _ (takes : ShadowQuicPacket → Bool)
    (taken : (packet : ShadowQuicPacket) → takes packet ≡ true) (route : IncomingUdpRoute) where
  stream_rounds_step :
      (fuel : ℕ) (sent : List ShadowQuicPacket) (unread rest : List ℕ) (packet : ShadowQuicPacket)
      → stream_round route unread ≡ ok (packet, rest)
      → stream_rounds takes (suc fuel) route sent unread
        ≡ stream_rounds takes fuel route (sent ++ (packet ∷ [])) rest
  unfolding stream_rounds
  stream_rounds_step fuel sent unread rest packet e = rw (e, stream_rounds, taken packet) refl

  stream_rounds-packets :
      (fuel : ℕ) (payloads : List (List ℕ)) (sent : List ShadowQuicPacket)
      → length (stream_bytes payloads) < fuel
      → All (λ payload. length payload ≤ u16_max) payloads
      → stream_rounds takes fuel route sent (stream_bytes payloads)
        ≡ some (sent ++ packets_of route payloads, read)
  stream_rounds-packets zero payloads sent enough fit = absurd (omega arith)
  stream_rounds-packets (suc fuel) [] sent enough fit =
      unfold stream_rounds in
      unfold stream_round in
      unfold read_u16 in
      unfold take_byte in ap (λ packets. some (packets, read)) (sym (append-nil sent))
  stream_rounds-packets (suc fuel) (payload ∷ rest) sent enough fit =
      let packet : ShadowQuicPacket = record {
        payload = payload;
        destination = route.destination;
      } in
      let size = length-append (be_u16 (length payload)) (payload ++ stream_bytes rest) in
      let size' = length-append payload (stream_bytes rest) in
      let two : length (be_u16 (length payload)) ≡ 2 = unfold be_u16 in refl in
      stream_rounds_step fuel sent (stream_bytes (payload ∷ rest)) (stream_bytes rest) packet
        (stream_round-packet route payload (stream_bytes rest) fit.0)
      ∙ (stream_rounds-packets fuel rest (sent ++ (packet ∷ [])) (omega (arith, size, size', two))
            fit.1
          ∙ ap (λ packets. some (packets, read))
              (append_assoc sent (packet ∷ []) (packets_of route rest)))

  -- A stream of a registered route, with payloads of at most 65535 bytes behind its id, is read to
  -- its end: every payload is sent to the route's channel, whole and in order, as a packet for the
  -- route's destination, and the reading ends with the error of a finished stream. The channel takes
  -- every packet.
  pub handle_incoming_udp_stream-packets :
      (id : ℕ) (payloads : List (List ℕ)) (registry : IncomingUdpRegistry)
      → id ≤ u16_max
      → All (λ payload. length payload ≤ u16_max) payloads
      → get id registry.routes ≡ some route
      → handle_incoming_udp_stream takes (be_u16 id ++ stream_bytes payloads) registry
        ≡ some (packets_of route payloads, read)
  unfolding handle_incoming_udp_stream from_id routed wait
  handle_incoming_udp_stream-packets id payloads registry fits fit known =
      rw (read_u16-bytes id (stream_bytes payloads) fits, from_id, known, routed)
        (stream_rounds-packets (suc (length (stream_bytes payloads))) payloads [] (omega arith) fit)
