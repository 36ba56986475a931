-- ===== src/Tests/Datagrams.antt =====
-- Runs of the theorems on datagrams and their delivery.
use sing_quic_rs.Prelude.{
  ℕ, ◌≡◌, refl, true, false, some, List, [], ◌∷◌, ◌++◌, arith, if◌then◌else◌,
}
use sing_quic_rs.Prelude.Bytes.{be_u16}
use sing_quic_rs.Prelude.Map.{get, nat_key}
use sing_quic_rs.Error.{ok, closed, other, read}
use sing_quic_rs.Hysteria2.Packet.{UdpMessage}
use sing_quic_rs.Hysteria2.Defragger.{Defragger, feed}
use sing_quic_rs.Hysteria2.Defragger.Invariant.{IsFine, feed-IsSound}
use sing_quic_rs.Hysteria2.PacketConnection.{PacketConnection, done, input_all}
use sing_quic_rs.Hysteria2.PacketConnection.Input.{input_all-delivers}
use sing_quic_rs.ShadowQuic.Wire.{encode_address, encode_host, domain_frame}
use sing_quic_rs.ShadowQuic.Wire.Codec.{seen}
use sing_quic_rs.ShadowQuic.Udp.{
  address_key, datagram, IncomingUdpRoute, IncomingUdpRegistry, ShadowQuicPacket, control_round,
  control_end, handle_incoming_udp_datagram, sent, pending, failed, wait,
}
use sing_quic_rs.ShadowQuic.Udp.Delivery.{announced, control_end_lem}
use sing_quic_rs.ShadowQuic.Udp.Loops.{handle_udp_control_stream, handle_incoming_udp_stream}
use sing_quic_rs.ShadowQuic.Udp.Loops.Ending.{IsEnded, handle_udp_control_stream-IsEnded}
use sing_quic_rs.ShadowQuic.Udp.Loops.Packets.{
  stream_bytes, packets_of, handle_incoming_udp_stream-packets,
}
use sing_quic_rs.ShadowQuic.Udp.Registry.{
  Change, registers, removes, closes, view, changed_all, promised_all, promised_wait,
  changed_all-refines,
}
use sing_quic_rs.ShadowQuic.PacketConnection
use sing_quic_rs.ShadowQuic.PacketConnection.{ShadowQuicPacketConnection, by_datagram}
use sing_quic_rs.ShadowQuic.PacketConnection.Sending.{send-delivered}
use sing_quic_rs.Text.{is_ascii}
use mathlib.Core.List.{flatten}
use sing_quic_rs.Tests.Samples.{names, names-IsNetText, site, site-IsValid}

abbrev fragment : ℕ → List ℕ → UdpMessage
fragment i payload = record {
  session_id = 1;
  packet_id = 9;
  fragment_id = i;
  fragment_total = 2;
  destination = site;
  payload = payload;
}

feed-IsSound_example : IsFine (feed 5 (fragment 1 (7 ∷ [])) [])
feed-IsSound_example = feed-IsSound 5 (fragment 1 (7 ∷ [])) [] tt

abbrev parts : List (List ℕ)
parts = (1 ∷ 2 ∷ []) ∷ (3 ∷ []) ∷ []

-- The second fragment comes first.
abbrev arrivals : List (ℕ × UdpMessage)
arrivals = (5, fragment 1 (3 ∷ [])) ∷ (6, fragment 0 (1 ∷ 2 ∷ [])) ∷ []

abbrev session : PacketConnection
session = record {
  session_id = 1;
  next_packet_id = 0;
  incoming = [];
  defragger = [];
  activity = 0;
  sent = [];
}

input_all-delivers_example :
    (d : Defragger) × (input_all arrivals session
      ≡ done (ok tt) (record session {
        incoming = record { payload = 1 ∷ 2 ∷ 3 ∷ []; destination = site } ∷ [];
        defragger = d;
      }))
unfolding flatten
input_all-delivers_example =
    input_all-delivers parts 9 site arrivals 0 session (omega arith) (omega arith)
      (
        record { packet = refl; total = refl; chunk = refl; addressed = refl },
        ((λ e. absurd (omega arith)), tt),
        (record { packet = refl; total = refl; chunk = refl; addressed = refl }, tt, tt),
      )
      refl (omega arith, (omega arith, tt)) (unfold get in refl) (omega arith)

abbrev registry : IncomingUdpRegistry
registry = record { routes = []; closed = false }

abbrev association : ShadowQuicPacketConnection
association = record {
  quic = record { datagrams = []; takes = λ frame. true; openable = []; lost = other };
  mode = datagram;
  next_id = 3;
  control = record { written = []; budget = 100 };
  contexts = [];
  incoming = [];
  incoming_closed = false;
}

abbrev packet : ShadowQuicPacket
packet = record { payload = 1 ∷ 2 ∷ []; destination = site }

abbrev site_frame : List ℕ
site_frame = 3 ∷ 2 ∷ b'a' ∷ b'b' ∷ be_u16 80

send-delivered_example :
    (c' : ShadowQuicPacketConnection) × (registry' : IncomingUdpRegistry) × (PacketConnection.send
        names packet association
      ≡ (ok tt, c'))
    × (get site c'.contexts ≡ some (by_datagram 3))
    × (c'.control.written ≡ site_frame ++ be_u16 3)
    × (c'.quic.datagrams ≡ (be_u16 3 ++ (1 ∷ 2 ∷ [])) ∷ [])
    × (control_round names 8 [] (site_frame ++ (be_u16 3 ++ [])) registry
        ≡ ok (3 ∷ [], [], registry'))
    × (handle_incoming_udp_datagram (be_u16 3 ++ (1 ∷ 2 ∷ [])) registry'
        ≡ sent 8 (record { payload = 1 ∷ 2 ∷ []; destination = seen names site }))
unfolding encode_address encode_host domain_frame is_ascii be_u16 get
send-delivered_example =
    send-delivered names packet site_frame association 8 [] [] registry names-IsNetText site-IsValid
      (omega arith) refl refl refl (omega arith) refl

control_end_example :
    handle_incoming_udp_datagram (be_u16 3 ++ (1 ∷ [])) (control_end (3 ∷ []) registry) ≡ (
      if announced 3 (3 ∷ [])
      then (if registry.closed then failed closed else pending)
      else handle_incoming_udp_datagram (be_u16 3 ++ (1 ∷ [])) registry)
control_end_example = control_end_lem (3 ∷ []) (1 ∷ []) 3 registry (omega arith)

abbrev route : IncomingUdpRoute
route = record { sender = 8; destination = site }

abbrev routed : IncomingUdpRegistry
routed = record { routes = (3, route) ∷ []; closed = false }

handle_incoming_udp_stream-packets_example :
    handle_incoming_udp_stream
      (λ packet. true)
      (be_u16 3 ++ stream_bytes ((1 ∷ 2 ∷ []) ∷ (7 ∷ []) ∷ []))
      routed
    ≡ some (packets_of route ((1 ∷ 2 ∷ []) ∷ (7 ∷ []) ∷ []), read)
handle_incoming_udp_stream-packets_example =
    handle_incoming_udp_stream-packets (λ packet. true) (λ packet. refl) route 3
      ((1 ∷ 2 ∷ []) ∷ (7 ∷ []) ∷ []) routed (omega arith) (omega arith, (omega arith, tt))
      (unfold get in refl)

handle_udp_control_stream-IsEnded_example :
    IsEnded routed
      (handle_udp_control_stream names 8 (site_frame ++ (be_u16 4 ++ site_frame)) routed)
handle_udp_control_stream-IsEnded_example =
    handle_udp_control_stream-IsEnded names 8 (site_frame ++ (be_u16 4 ++ site_frame)) routed

-- An association registers an id, another registers another, and the first one ends.
abbrev changes : List Change
changes = registers 4 site 8 ∷ registers 3 site 9 ∷ removes (4 ∷ []) ∷ closes ∷ []

changed_all-refines_example :
    (view (changed_all changes routed) ≡ promised_all changes (view routed))
    × (wait 3 (changed_all changes routed) ≡ promised_wait 3 (promised_all changes (view routed)))
changed_all-refines_example = changed_all-refines changes routed 3
