-- ===== src/Tests/Sessions.antt =====
-- Runs of the theorems on the UDP sessions of Hysteria2.
use sing_quic_rs.Prelude.{ℕ, ◌≡◌, refl, true, none, List, [], ◌∷◌, arith}
use sing_quic_rs.Prelude.Reordering.{keep, empty}
use sing_quic_rs.Prelude.Map.{get}
use sing_quic_rs.Text.{is_utf8, contains}
use sing_quic_rs.Decimal.{to_decimal}
use sing_quic_rs.Address.{display}
use sing_quic_rs.VarInt
use sing_quic_rs.Congestion.{bbr}
use sing_quic_rs.Hysteria2.Packet.{Packet, UdpMessage}
use sing_quic_rs.Hysteria2.Packet.Codec.{decode-encode_message}
use sing_quic_rs.Hysteria2.Defragger.{Defragger}
use sing_quic_rs.Hysteria2.PacketConnection.{
  Link, PacketConnection, new, packet_id_of, packet_frames, send,
}
use sing_quic_rs.Hysteria2.PacketConnection.Fragments.{encoded}
use sing_quic_rs.Hysteria2.PacketConnection.Refusals.{IsLimit, IsCut, packet_frames-IsCut}
use sing_quic_rs.Hysteria2.Sessions
use sing_quic_rs.Hysteria2.Sessions.{
  Event, arrives, receives, drops, serving, store, enter, take_datagram, run,
}
use sing_quic_rs.Hysteria2.Sessions.Consistency.{IsServed, enter-IsConsistent}
use sing_quic_rs.Hysteria2.Sessions.Delivery.{empty-IsConsistent}
use sing_quic_rs.Hysteria2.Sessions.Arrival.{IsDelivered, take_datagram-IsDelivered}
use sing_quic_rs.Hysteria2.Sessions.Runs.{run-empty-IsServed}
use sing_quic_rs.Hysteria2.Sessions.Exchange.{arrivals, send-run-delivers}
use sing_quic_rs.Tests.Samples.{names, site, site-IsCanonical}

abbrev user : List ℕ
user = b'u' ∷ []

abbrev message : UdpMessage
message = record {
  session_id = 1;
  packet_id = 1;
  fragment_id = 0;
  fragment_total = 1;
  destination = site;
  payload = 7 ∷ 8 ∷ [];
}

-- A session is opened, read and dropped, and opened again by the next datagram.
abbrev events : List Event
events = arrives 5 (encoded message) ∷ receives 6 0 ∷ drops 0 ∷ arrives 7 (encoded message) ∷ []

run-empty-IsServed_example : IsServed (run names user bbr events (Sessions.empty true))
run-empty-IsServed_example = run-empty-IsServed names user bbr events true

take_datagram-IsDelivered_example :
    IsDelivered names user bbr 5 message
      (Sessions.empty true)
      (take_datagram names user bbr 5 (encoded message) (Sessions.empty true))
unfolding is_utf8 display contains to_decimal
take_datagram-IsDelivered_example =
    take_datagram-IsDelivered names user bbr 5 (encoded message) message (Sessions.empty true)
      (empty-IsConsistent true)
      (decode-encode_message names message (omega arith) (omega arith) site-IsCanonical refl
        (omega arith))

abbrev link : Link
link = record { max_datagram_size = none; accepts = λ frame. true }

abbrev packet : Packet
packet = record { payload = 7 ∷ 8 ∷ []; destination = site }

packet_frames-IsCut_example :
    (limit : ℕ) × IsLimit link limit × IsCut link 1 1 packet limit (packet_frames link 1 1 packet)
packet_frames-IsCut_example = packet_frames-IsCut link 1 1 packet

-- The session at the client, and the table of a server that has it.
abbrev session : PacketConnection
session = record {
  session_id = 1;
  next_packet_id = 0;
  incoming = [];
  defragger = [];
  activity = 0;
  sent = [];
}

abbrev after_send : PacketConnection
after_send = record session { next_packet_id = 1; activity = 5; sent = encoded message ∷ [] }

send-run-delivers_example :
    (f : Defragger) × (run names user bbr
        (arrivals ((6, encoded message) ∷ []))
        (enter names user bbr 0 message (Sessions.empty true))
      ≡ serving (
          store 0
            (record session { incoming = packet ∷ []; defragger = f })
            (enter names user bbr 0 message (Sessions.empty true))))
unfolding enter new display contains to_decimal VarInt.encode packet_id_of is_utf8 get
send-run-delivers_example =
    send-run-delivers names user bbr 0 link 5 0 packet session after_send session
      (enter names user bbr 0 message (Sessions.empty true)) ((6, encoded message) ∷ [])
      (encoded message ∷ []) (unfold send in refl) refl (keep empty) (omega arith, tt) (omega arith)
      site-IsCanonical refl
      (enter-IsConsistent names user bbr 0 message (Sessions.empty true) (λ place c at. absurd cc)
        (empty-IsConsistent true))
      refl refl refl (omega arith)
