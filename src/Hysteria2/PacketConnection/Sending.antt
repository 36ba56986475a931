-- ===== src/Hysteria2/PacketConnection/Sending.antt =====
-- What a successful `send` of src/hysteria2/packet.rs has passed on to the connection.
use sing_quic_rs.Prelude.{
  ℕ, ◌≤◌, ◌≡◌, ◌∙◌, refl, sym, ap, Bool, true, false, List, [], ◌∷◌, ◌++◌, length, ltb, arith,
  if◌then◌else◌, append-nil, append_assoc,
}
use sing_quic_rs.Error.{Error, protocol, send_datagram_failed, packet_too_large, Result, ok, err}
use sing_quic_rs.Hysteria2.Packet.{Packet}
use sing_quic_rs.Hysteria2.Defragger.{max_udp_size}
use sing_quic_rs.Hysteria2.PacketConnection.{
  Link, PacketConnection, packet_id_of, send_frames, packet_frames, touch, send_result, send,
}

module _ (link : Link) where
  accepted_send :
      (t : Bool) (p : Result (Unit {0}) × PacketConnection) (e : Error) (c c' : PacketConnection)
      → (if t then p else (err e, c)) ≡ (ok tt, c')
      → p ≡ (ok tt, c')
  accepted_send true p e c c' h = h
  accepted_send false p e c c' h = absurd (let f : err e ≡ ok tt = ap (λ q. q.0) h in cc)

  send_frames-sent :
      (frames : List (List ℕ)) (c c' : PacketConnection)
      → send_frames link frames c ≡ (ok tt, c')
      → c'.sent ≡ c.sent ++ frames
  unfolding send_frames
  send_frames-sent [] c c' e =
      ap (λ (q : Result (Unit {0}) × PacketConnection). q.1.sent) (sym e) ∙ sym (append-nil c.sent)
  send_frames-sent (frame ∷ rest) c c' e =
      let more = accepted_send (link.accepts frame) _ (protocol send_datagram_failed) c c' e in
      send_frames-sent rest (record c { sent = c.sent ++ (frame ∷ []) }) c' more
      ∙ append_assoc c.sent (frame ∷ []) rest

  touch-sent :
      (now : ℕ) (result : Result (Unit {0}) × PacketConnection) (c' : PacketConnection)
      → touch link now result ≡ (ok tt, c')
      → (d : PacketConnection) × (result ≡ (ok tt, d)) × (c'.sent ≡ d.sent)
  touch-sent now (ok u, d) c' e =
      (d, refl, ap (λ (q : Result (Unit {0}) × PacketConnection). q.1.sent) (sym e))
  touch-sent now (err x, d) c' e = absurd (let f : err x ≡ ok tt = ap (λ q. q.0) e in cc)

  send_result-sent :
      (now : ℕ) (r : Result (List (List ℕ))) (c c' : PacketConnection)
      → send_result link now c r ≡ (ok tt, c')
      → (frames : List (List ℕ)) × (r ≡ ok frames) × (c'.sent ≡ c.sent ++ frames)
  send_result-sent now (err x) c c' e = absurd (let f : err x ≡ ok tt = ap (λ q. q.0) e in cc)
  send_result-sent now (ok frames) c c' e =
      let (d, done_, same) = touch-sent now (send_frames link frames c) c' e in
      (frames, refl, same ∙ send_frames-sent frames c d done_)

  too_large :
      (t : Bool) (p : Result (Unit {0}) × PacketConnection) (e : Error) (c c' : PacketConnection)
      → (if t then (err e, c) else p) ≡ (ok tt, c')
      → (t ≡ false) × (p ≡ (ok tt, c'))
  too_large true p e c c' h = absurd (let f : err e ≡ ok tt = ap (λ q. q.0) h in cc)
  too_large false p e c c' h = (refl, h)

  -- A `send` that returns no error has passed on the frames of the packet, and nothing else.
  pub send-sent :
      (now : ℕ) (packet : Packet) (c c' : PacketConnection)
      → send link now packet c ≡ (ok tt, c')
      → (length packet.payload ≤ max_udp_size)
        × ((frames : List (List ℕ)) × (packet_frames link c.session_id
                (packet_id_of c.next_packet_id)
                packet
              ≡ ok frames)
            × (c'.sent ≡ c.sent ++ frames))
  unfolding send
  send-sent now packet c c' e =
      let (small, rest) =
        too_large (ltb max_udp_size (length packet.payload)) _ (protocol packet_too_large) c c' e in
      (ground (arith, small), send_result-sent now _ _ c' rest)
