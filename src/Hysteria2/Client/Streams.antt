-- ===== src/Hysteria2/Client/Streams.antt =====
-- A stream from the client of src/hysteria2/client.rs to the server of src/hysteria2/server.rs.
use sing_quic_rs.Prelude.{ℕ, ◌≤◌, ◌≡◌, refl, ap, true, List, ◌++◌, length}
use sing_quic_rs.Error.{Result, ok}
use sing_quic_rs.Text.{is_utf8}
use sing_quic_rs.Writer.{Sink, push}
use sing_quic_rs.Address.{Address, NetText, display}
use sing_quic_rs.Address.RoundTrip.{IsCanonical}
use sing_quic_rs.Hysteria2.Protocol.{Rng, padding, max_address_length}
use sing_quic_rs.Hysteria2.Protocol.Send.{accepted}
use sing_quic_rs.Hysteria2.Protocol.Frames.{IsRng, request_frame, read-write_tcp_request}
use sing_quic_rs.Hysteria2.Protocol.Responses.{response_frame, read-write_tcp_response}
use sing_quic_rs.Hysteria2.Stream.{hand_over, respond, handle_stream}
use sing_quic_rs.Hysteria2.Client.Connections.{after_request, connect}

-- A stream whose response was written is handed over with the sink that the response left.
handed :
    (a : Address) (user unread : List ℕ) (p : Result (Unit {0}) × Sink) (sink : Sink)
    → p ≡ (ok tt, sink)
    → hand_over true (record { destination = a; user = user; unread = unread; sink = p.1 }) p.0
      ≡ ok (record { destination = a; user = user; unread = unread; sink = sink })
handed a user unread p sink e =
    ap
      (λ (p : Result (Unit {0}) × Sink).
        hand_over true (record { destination = a; user = user; unread = unread; sink = p.1 }) p.0)
      e

-- A client that opens a stream to an address and a server that takes the stream agree: the server
-- hands over a stream for exactly that address and the connection's user, with the bytes behind the
-- request still to be read; the client's call succeeds, with the bytes behind the response still to
-- be read. Both have written one frame and nothing else. The address is canonical, valid UTF-8 and
-- of at most 2048 bytes, and both streams take the frames.
pub connect-handle_stream :
    (net : NetText) (client server : Rng) (user : List ℕ) (a : Address) (upload download : List ℕ)
    (s t : Sink)
    → IsRng client
    → IsRng server
    → IsCanonical net a
    → is_utf8 (display a) ≡ true
    → length (display a) ≤ max_address_length
    → length (request_frame (display a) (padding client 64 512)) ≤ s.budget
    → length (response_frame accepted (padding server 128 1024)) ≤ t.budget
    → (request : List ℕ) × (response : List ℕ) × (handle_stream net server user true
          (request ++ upload)
          t
        ≡ ok (record { destination = a; user = user; unread = upload; sink = push t response }))
      × (connect client a (response ++ download) s ≡ (ok (tt, download), push s request))
unfolding handle_stream connect
connect-handle_stream net client server user a upload download s t rc rs canonical text near roomy
      roomy' =
    let (request, sent, seen) =
      read-write_tcp_request net client a upload s rc canonical text near roomy in
    let (response, answered, heard_) =
      read-write_tcp_response server accepted download t rs roomy' in
    (
      request,
      response,
      rw (seen, respond) (handed a user upload _ (push t response) answered),
      rw (sent, after_request, heard_) refl,
    )
