-- ===== src/Hysteria2/PacketConnection/Keeping.antt =====
-- What the operations of `Hysteria2PacketConnection` in src/hysteria2/packet.rs leave as it is.
use sing_quic_rs.Prelude.{
  ℕ, ◌≡◌, inl, inr, refl, Option, none, some, List, [], ◌∷◌, ◌++◌, length, ltb, Bool-cases,
}
use sing_quic_rs.Error.{Result, ok, err}
use sing_quic_rs.Hysteria2.Packet.{Packet, UdpMessage}
use sing_quic_rs.Hysteria2.Defragger.{Fed, returned, panicked, max_udp_size}
use sing_quic_rs.Hysteria2.Defragger.Invariant.{IsSound, IsFine, feed-IsSound}
use sing_quic_rs.Hysteria2.PacketConnection.{
  Link, PacketConnection, Taken, done, panics, channel_size, try_send, take_fed, input, recv,
  packet_id_of, send_frames, packet_frames, touch, send_result, send,
}

-- The session is still the same one, and its map of fragments is sound.
pub record Keeps (c c' : PacketConnection) : Type 0 where
  pub same_id : c'.session_id ≡ c.session_id
  pub sound : IsSound c'.defragger

abbrev pub IsKept : PacketConnection → Taken → Type 0
IsKept c panics = ⊥
IsKept c (done r c') = Keeps c c'

try_send-Keeps :
    (packet : Packet) (c d : PacketConnection) → Keeps c d → Keeps c (try_send packet d)
unfolding try_send
try_send-Keeps packet c d k = elim (Bool-cases (ltb (length d.incoming) channel_size)) [
  | inl room ↦ rw room (record { same_id = k.same_id; sound = k.sound })
  | inr full ↦ rw full k
]

take_fed-IsKept : (c : PacketConnection) (f : Fed) → IsFine f → IsKept c (take_fed c f)
unfolding take_fed
take_fed-IsKept c panicked fine = fine
take_fed-IsKept c (returned (err e) d) fine = record { same_id = refl; sound = fine }
take_fed-IsKept c (returned (ok none) d) fine = record { same_id = refl; sound = fine }
take_fed-IsKept c (returned (ok (some packet)) d) fine =
    try_send-Keeps packet c (record c { defragger = d }) (record { same_id = refl; sound = fine })

pub input-IsKept :
    (now : ℕ) (m : UdpMessage) (c : PacketConnection)
    → IsSound c.defragger
    → IsKept c (input now m c)
unfolding input
input-IsKept now m c s = take_fed-IsKept c _ (feed-IsSound now m c.defragger s)

abbrev pub IsReceived : PacketConnection → Option (Packet × PacketConnection) → Type 0
IsReceived c none = Unit {0}
IsReceived c (some (packet, c')) = Keeps c c'

pub recv-Keeps : (now : ℕ) (c : PacketConnection) → IsSound c.defragger → IsReceived c (recv now c)
unfolding recv
recv-Keeps now c s = by_channel c.incoming
  where
    by_channel :
        (incoming : List Packet)
        → IsReceived c (elim incoming [
          | [] ↦ none
          | packet ∷ rest ↦ some (packet, record c { incoming = rest; activity = now })
        ])
    by_channel [] = tt
    by_channel (packet ∷ rest) = record { same_id = refl; sound = s }

module _ (link : Link) where
  send_frames-Keeps :
      (frames : List (List ℕ)) (c d : PacketConnection)
      → Keeps c d
      → Keeps c (send_frames link frames d).1
  unfolding send_frames
  send_frames-Keeps [] c d k = k
  send_frames-Keeps (frame ∷ rest) c d k = elim (Bool-cases (link.accepts frame)) [
    | inl taken ↦ rw taken (
        send_frames-Keeps rest c (record d { sent = d.sent ++ (frame ∷ []) })
          (record { same_id = k.same_id; sound = k.sound }))
    | inr refused ↦ rw refused k
  ]

  send_result-Keeps :
      (now : ℕ) (c d : PacketConnection) (r : Result (List (List ℕ)))
      → Keeps c d
      → Keeps c (send_result link now d r).1
  send_result-Keeps now c d (err e) k = k
  send_result-Keeps now c d (ok frames) k =
      touched (send_frames link frames d) (send_frames-Keeps frames c d k)
    where
      touched :
          (t : Result (Unit {0}) × PacketConnection) → Keeps c t.1 → Keeps c (touch link now t).1
      touched (ok u, e) h = record { same_id = h.same_id; sound = h.sound }
      touched (err x, e) h = h

  pub send-Keeps :
      (now : ℕ) (packet : Packet) (c : PacketConnection)
      → IsSound c.defragger
      → Keeps c (send link now packet c).1
  unfolding send
  send-Keeps now packet c s = elim (Bool-cases (ltb max_udp_size (length packet.payload))) [
    | inl large ↦ rw large (record { same_id = refl; sound = s })
    | inr small ↦ rw small (
        send_result-Keeps now c _
          (packet_frames link c.session_id (packet_id_of c.next_packet_id) packet)
          (record { same_id = refl; sound = s }))
  ]
