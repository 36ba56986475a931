-- ===== src/Hysteria2/Sessions/Exchange.antt =====
-- A packet from a session of src/hysteria2/packet.rs at one end of a connection to the session that
-- src/hysteria2/server.rs keeps for it at the other.
use mathlib.Core.List.{append_cancel_left}
use mathlib.Core.Path.{subst}
use sing_quic_rs.Prelude.{
  ℕ, zero, suc, ◌^◌, ◌≤◌, ◌<◌, ◌≡◌, ◌∙◌, refl, sym, ap, true, none, some, List, [], ◌∷◌, ◌++◌,
  length, map, set, get_elem?, arith, All, get_elem?-set_self,
}
use sing_quic_rs.Prelude.Map.{nat_key, get}
use sing_quic_rs.Prelude.Reordering.{Reordering, length-Reordering, All-Reordering, Reordering-map}
use sing_quic_rs.Error.{ok, err}
use sing_quic_rs.Text.{is_utf8}
use sing_quic_rs.Address.{NetText, display}
use sing_quic_rs.Address.RoundTrip.{IsCanonical}
use sing_quic_rs.Congestion.{CongestionKind}
use sing_quic_rs.Hysteria2.Packet.{Packet, UdpMessage, decode_message}
use sing_quic_rs.Hysteria2.Defragger.{Defragger, max_udp_size}
use sing_quic_rs.Hysteria2.Defragger.Delivery.{get_elem?-lt_length}
use sing_quic_rs.Hysteria2.PacketConnection.{
  Link, PacketConnection, Taken, done, panics, channel_size, input, input_all, packet_id_of, send,
}
use sing_quic_rs.Hysteria2.PacketConnection.Input.{InTime}
use sing_quic_rs.Hysteria2.PacketConnection.Sending.{send-sent}
use sing_quic_rs.Hysteria2.PacketConnection.Keeping.{Keeps, IsKept, input-IsKept}
use sing_quic_rs.Hysteria2.PacketConnection.Fragments.{
  encoded, numbered, IsSplit, packet_frames-IsSplit,
}
use sing_quic_rs.Hysteria2.PacketConnection.Arrivals.{
  Apart-Reordering, retime, contents, length-retime, InTime-retime, AreFragments-retime,
  Apart-numbered, AreFragments-numbered, length-numbered, Decodes-numbered, input_all-arrives,
}
use sing_quic_rs.Hysteria2.Sessions.{
  Sessions, Event, serving, store, live_session, input_at, after_input, arrives, take_datagram,
  take_decoded, take_message, step, run,
}
use sing_quic_rs.Hysteria2.Sessions.Consistency.{At, IsConsistent, store-IsConsistent}
use sing_quic_rs.Hysteria2.Sessions.Delivery.{live_session-At}

module _ {ℓ} {A : Type ℓ} where
  set-get_elem? : (xs : List A) (i : ℕ) (v : A) → get_elem? xs i ≡ some v → set xs i v ≡ xs
  set-get_elem? [] i v e = refl
  set-get_elem? (x ∷ xs) zero v e = cc
  set-get_elem? (x ∷ xs) (suc i) v e = ap (◌∷◌ x) (set-get_elem? xs i v e)

  set-set : (xs : List A) (i : ℕ) (v w : A) → set (set xs i v) i w ≡ set xs i w
  set-set [] i v w = refl
  set-set (x ∷ xs) zero v w = refl
  set-set (x ∷ xs) (suc i) v w = ap (◌∷◌ x) (set-set xs i v w)

-- Datagrams that decode to the messages of one session.
abbrev pub DecodeTo : NetText → ℕ → List (ℕ × List ℕ) → List (ℕ × UdpMessage) → Type 0
DecodeTo net id [] [] = Unit {0}
DecodeTo net id [] (m ∷ ms) = ⊥
DecodeTo net id (e ∷ es) [] = ⊥
DecodeTo net id ((now, datagram) ∷ es) ((later, m) ∷ ms) =
    (now ≡ later)
    × (decode_message net datagram ≡ ok m)
    × (m.session_id ≡ id)
    × DecodeTo net id es ms

DecodeTo-retime :
    (net : NetText) (id : ℕ) (events : List (ℕ × List ℕ)) (ms : List UdpMessage)
    → contents events ≡ map encoded ms
    → All (λ m. (decode_message net (encoded m) ≡ ok m) × (m.session_id ≡ id)) ms
    → DecodeTo net id events (retime events ms)
DecodeTo-retime net id [] [] e h = tt
DecodeTo-retime net id [] (m ∷ ms) e h = absurd cc
DecodeTo-retime net id (v ∷ rest) [] e h = absurd cc
DecodeTo-retime net id ((now, datagram) ∷ rest) (m ∷ ms) e h =
    let same : datagram ≡ encoded m = cc in
    (
      refl,
      rw same (h.0).0,
      (h.0).1,
      DecodeTo-retime net id rest ms (let tail : contents rest ≡ map encoded ms = cc in tail) h.1,
    )

abbrev pub arrivals : List (ℕ × List ℕ) → List Event
arrivals [] = []
arrivals ((now, datagram) ∷ rest) = arrives now datagram ∷ arrivals rest

-- The first message of a list that is taken without an error is taken so.
first_taken :
    (now : ℕ) (m : UdpMessage) (ms : List (ℕ × UdpMessage)) (c c' : PacketConnection)
    → input_all ((now, m) ∷ ms) c ≡ done (ok tt) c'
    → (d : PacketConnection) × (input now m c ≡ done (ok tt) d) × (input_all ms d ≡ done (ok tt) c')
unfolding input_all
first_taken now m ms c c' e = by_input (input now m c) refl e
  where
    by_input :
        (t : Taken)
        → input now m c ≡ t
        → elim t [
          | panics ↦ panics
          | done (err x) d ↦ done (err x) d
          | done (ok u) d ↦ input_all ms d
        ]
          ≡ done (ok tt) c'
        → (d : PacketConnection) × (input now m c ≡ done (ok tt) d)
          × (input_all ms d ≡ done (ok tt) c')
    by_input panics f e = absurd cc
    by_input (done (err x) d) f e = absurd cc
    by_input (done (ok u) d) f e = (d, f, e)

store_same : (place : ℕ) (c : PacketConnection) (s : Sessions) → At s place c → store place c s ≡ s
store_same place c s at = ap (λ h. record s { heap = h }) (set-get_elem? s.heap place (some c) at)

store-store :
    (place : ℕ) (c d : PacketConnection) (s : Sessions)
    → store place d (store place c s) ≡ store place d s
store-store place c d s = ap (λ h. record s { heap = h }) (set-set s.heap place (some c) (some d))

packet_id_of-bound : (counter : ℕ) → packet_id_of counter < 2 ^ 16
unfolding packet_id_of
packet_id_of-bound counter = omega arith

module _ (net : NetText) (user : List ℕ) (congestion : CongestionKind) (place : ℕ) where
  take_live :
      (now : ℕ) (datagram : List ℕ) (m : UdpMessage) (c d : PacketConnection) (s : Sessions)
      → IsConsistent s
      → At s place c
      → decode_message net datagram ≡ ok m
      → m.session_id ≡ c.session_id
      → input now m c ≡ done (ok tt) d
      → take_datagram net user congestion now datagram s ≡ serving (store place d s)
  unfolding take_datagram take_decoded take_message input_at after_input
  take_live now datagram m c d s i at decoded same taken =
      let found : live_session m.session_id s ≡ some (place, c) =
        rw same (live_session-At place c s i at) in
      rw (decoded, take_decoded, found, take_message, taken, after_input) refl

  run-arrives :
      (now : ℕ) (datagram : List ℕ) (rest : List Event) (s s' : Sessions)
      → take_datagram net user congestion now datagram s ≡ serving s'
      → run net user congestion (arrives now datagram ∷ rest) s ≡ run net user congestion rest s'
  unfolding run step
  run-arrives now datagram rest s s' e = rw (e, run) refl

  run-arrivals :
      (events : List (ℕ × List ℕ)) (ms : List (ℕ × UdpMessage)) (c c' : PacketConnection)
      (s : Sessions)
      → IsConsistent s
      → At s place c
      → DecodeTo net c.session_id events ms
      → input_all ms c ≡ done (ok tt) c'
      → run net user congestion (arrivals events) s ≡ serving (store place c' s)
  unfolding run input_all
  run-arrivals [] [] c c' s i at h e =
      let same : c ≡ c' = cc in rw (← same) (ap serving (sym (store_same place c s at)))
  run-arrivals [] (m ∷ ms) c c' s i at h e = absurd h
  run-arrivals (v ∷ rest) [] c c' s i at h e = absurd h
  run-arrivals ((now, datagram) ∷ rest) ((later, m) ∷ ms) c c' s i at h e =
      let (d, taken, more) = first_taken later m ms c c' e in
      let taken_now : input now m c ≡ done (ok tt) d = rw h.0 taken in
      let kept : Keeps c d =
        subst (IsKept c) taken_now (input-IsKept now m c (i.sound place c at)) in
      let here = get_elem?-set_self s.heap place (some d) (get_elem?-lt_length s.heap place _ at) in
      run-arrives now datagram (arrivals rest) s (store place d s)
        (take_live now datagram m c d s i at h.1 h.2 taken_now)
      ∙ (run-arrivals rest ms d c' (store place d s) (store-IsConsistent place c d s at kept i) here
            (rw kept.same_id h.3) more
          ∙ ap serving (store-store place d c' s))

  -- The frames of a packet, in any order, at the session of its id.
  frames-delivered :
      (link : Link) (session_id packet_id start : ℕ) (packet : Packet) (frames : List (List ℕ))
      (events : List (ℕ × List ℕ)) (d : PacketConnection) (s : Sessions)
      → IsSplit link session_id packet_id packet frames
      → length packet.payload ≤ max_udp_size
      → Reordering (contents events) frames
      → InTime start events
      → session_id < 2 ^ 32
      → packet_id < 2 ^ 16
      → IsCanonical net packet.destination
      → is_utf8 (display packet.destination) ≡ true
      → IsConsistent s
      → At s place d
      → d.session_id ≡ session_id
      → get packet_id d.defragger ≡ none
      → length d.incoming < channel_size
      → (f : Defragger) × (run net user congestion (arrivals events) s
          ≡ serving
              (store place (record d { incoming = d.incoming ++ (packet ∷ []); defragger = f }) s))
  frames-delivered link session_id packet_id start packet frames events d s split small order time
        low id_low canonical text i at same free room =
      let to = packet.destination in
      let total = length split.parts in
      let sent = numbered session_id packet_id total to 0 split.parts in
      let (ms, order', images) = Reordering-map encoded sent order split.sends in
      let are =
        AreFragments-retime encoded split.parts packet_id to events ms
          (All-Reordering _ order'
            (AreFragments-numbered session_id packet_id total to split.parts refl))
          (Apart-Reordering order' (Apart-numbered session_id packet_id total to 0 split.parts)) in
      let decodes = DecodeTo-retime net session_id events ms images (
        All-Reordering _ order' (
          Decodes-numbered session_id packet_id total to net 0 split.parts (omega arith)
            (omega arith) canonical text split.address_fits)) in
      let count : length ms ≡ length split.parts =
        length-Reordering order' ∙ length-numbered session_id packet_id total to 0 split.parts in
      let (f, taken) =
        input_all-arrives split.parts packet_id to (retime events ms) start d split.some_part
          (rw split.joined small) are (length-retime encoded events ms images ∙ count)
          (InTime-retime encoded events ms start time) free room in
      (
        f,
        run-arrivals events (retime events ms) d _ s i at (rw same decodes)
            (taken ∙ rw split.joined refl),
      )

  -- A packet that `send` passes on without an error arrives whole at the session of its id at the
  -- other end: whatever the order in which its datagrams come, if each comes once, within ten
  -- seconds of the one before, the loop of the server goes on with only that session changed, and
  -- the packet is at the end of the session's channel. The table is consistent, the address is
  -- canonical and valid UTF-8, the session holds no fragment of the packet's id, and its channel has
  -- room.
  pub send-run-delivers :
      (link : Link) (now start : ℕ) (packet : Packet) (c c' d : PacketConnection) (s : Sessions)
      (events : List (ℕ × List ℕ)) (frames : List (List ℕ))
      → send link now packet c ≡ (ok tt, c')
      → c'.sent ≡ c.sent ++ frames
      → Reordering (contents events) frames
      → InTime start events
      → c.session_id < 2 ^ 32
      → IsCanonical net packet.destination
      → is_utf8 (display packet.destination) ≡ true
      → IsConsistent s
      → At s place d
      → d.session_id ≡ c.session_id
      → get (packet_id_of c.next_packet_id) d.defragger ≡ none
      → length d.incoming < channel_size
      → (f : Defragger) × (run net user congestion (arrivals events) s
          ≡ serving
              (store place (record d { incoming = d.incoming ++ (packet ∷ []); defragger = f }) s))
  send-run-delivers link now start packet c c' d s events frames sent passed order time low
        canonical text i at same free room =
      let (small, (frames', made, passed')) = send-sent link now packet c c' sent in
      let frames_same : frames' ≡ frames =
        append_cancel_left c.sent frames' frames (sym passed' ∙ passed) in
      frames-delivered link c.session_id (packet_id_of c.next_packet_id) start packet frames events
        d s
        (rw (← frames_same) (
          packet_frames-IsSplit link c.session_id (packet_id_of c.next_packet_id) packet frames'
            made))
        small order time low (packet_id_of-bound c.next_packet_id) canonical text i at same free
        room
