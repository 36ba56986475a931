-- ===== src/Hysteria2/PacketConnection/Arrivals.antt =====
-- The datagrams of one packet of src/hysteria2/packet.rs as they arrive, in any order.
use mathlib.Core.List.{flatten}
use sing_quic_rs.Prelude.{
  ℕ, zero, suc, ◌+◌, ◌≤◌, ◌<◌, ◌≡◌, ◌≢◌, ◌∙◌, refl, sym, ap, none, some, List, [], ◌∷◌, ◌++◌,
  length, map, get_elem?, true, arith, All, append-nil, lt→ltb, leb,
}
use sing_quic_rs.Prelude.Map.{nat_key, get}
use sing_quic_rs.Prelude.Reordering.{Reordering, empty, keep, swap, chain, All-Reordering}
use sing_quic_rs.Error.{ok}
use sing_quic_rs.Text.{is_utf8}
use sing_quic_rs.Address.{Address, NetText, display}
use sing_quic_rs.Address.RoundTrip.{IsCanonical}
use sing_quic_rs.Hysteria2.Protocol.{max_address_length}
use sing_quic_rs.Hysteria2.Packet.{Packet, UdpMessage, decode_message}
use sing_quic_rs.Hysteria2.Packet.Codec.{decode-encode_message}
use sing_quic_rs.Hysteria2.Defragger.{Defragger, feed, max_udp_size, returned}
use sing_quic_rs.Hysteria2.Defragger.Reassembly.{IsFragment}
use sing_quic_rs.Hysteria2.PacketConnection.{
  PacketConnection, done, channel_size, input_all, input, take_fed, try_send,
}
use sing_quic_rs.Hysteria2.PacketConnection.Input.{
  AreFragments, InTime, input_all_step, input_all-delivers,
}
use sing_quic_rs.Hysteria2.PacketConnection.Fragments.{encoded, numbered}

-- No two messages have the same fragment id.
abbrev pub Apart : List UdpMessage → Type 0
Apart [] = Unit {0}
Apart (m ∷ ms) = All (λ n. m.fragment_id ≢ n.fragment_id) ms × Apart ms

pub Apart-Reordering : {xs ys : List UdpMessage} → Reordering xs ys → Apart ys → Apart xs
Apart-Reordering empty h = tt
Apart-Reordering (keep p) h = (All-Reordering _ p h.0, Apart-Reordering p h.1)
Apart-Reordering swap h = (((λ e. h.0.0 (sym e)), h.1.0), (h.0.1, h.1.1))
Apart-Reordering (chain p q) h = Apart-Reordering p (Apart-Reordering q h)

-- The messages in place of the datagrams, at the same times.
abbrev pub retime : {A B : Type 0} → List (ℕ × A) → List B → List (ℕ × B)
retime [] ms = []
retime ((now, a) ∷ rest) [] = []
retime ((now, a) ∷ rest) (m ∷ ms) = (now, m) ∷ retime rest ms

abbrev pub contents : {A : Type 0} → List (ℕ × A) → List A
contents [] = []
contents ((now, a) ∷ rest) = a ∷ contents rest

module _ {A : Type 0} (f : UdpMessage → A) where
  pub length-retime :
      (events : List (ℕ × A)) (ms : List UdpMessage)
      → contents events ≡ map f ms
      → length (retime events ms) ≡ length ms
  length-retime [] [] e = refl
  length-retime [] (m ∷ ms) e = absurd cc
  length-retime ((now, a) ∷ rest) [] e = refl
  length-retime ((now, a) ∷ rest) (m ∷ ms) e = ap suc (length-retime rest ms cc)

  pub InTime-retime :
      (events : List (ℕ × A)) (ms : List UdpMessage) (last : ℕ)
      → InTime last events
      → InTime last (retime events ms)
  InTime-retime [] ms last t = tt
  InTime-retime ((now, a) ∷ rest) [] last t = tt
  InTime-retime ((now, a) ∷ rest) (m ∷ ms) last t = (t.0, InTime-retime rest ms now t.1)

  apart_from :
      (i : ℕ) (events : List (ℕ × A)) (ms : List UdpMessage)
      → All (λ n. i ≢ n.fragment_id) ms
      → All (λ e. i ≢ (e.1).fragment_id) (retime events ms)
  apart_from i [] ms h = tt
  apart_from i ((now, a) ∷ rest) [] h = tt
  apart_from i ((now, a) ∷ rest) (m ∷ ms) h = (h.0, apart_from i rest ms h.1)

  pub AreFragments-retime :
      (cs : List (List ℕ)) (id : ℕ) (to : Address) (events : List (ℕ × A)) (ms : List UdpMessage)
      → All (IsFragment cs id to) ms
      → Apart ms
      → AreFragments cs id to (retime events ms)
  AreFragments-retime cs id to [] ms h a = tt
  AreFragments-retime cs id to ((now, e) ∷ rest) [] h a = tt
  AreFragments-retime cs id to ((now, e) ∷ rest) (m ∷ ms) h a =
      (h.0, apart_from m.fragment_id rest ms a.0, AreFragments-retime cs id to rest ms h.1 a.1)

module _ (session_id packet_id total : ℕ) (to : Address) where
  numbered_above :
      (j i : ℕ) (cs : List (List ℕ))
      → j < i
      → All (λ n. j ≢ n.fragment_id) (numbered session_id packet_id total to i cs)
  numbered_above j i [] h = tt
  numbered_above j i (c ∷ cs) h = ((λ e. omega arith), numbered_above j (i + 1) cs (omega arith))

  pub Apart-numbered :
      (i : ℕ) (cs : List (List ℕ)) → Apart (numbered session_id packet_id total to i cs)
  Apart-numbered i [] = tt
  Apart-numbered i (c ∷ cs) = (numbered_above i (i + 1) cs (omega arith), Apart-numbered (i + 1) cs)

  -- The parts behind the first `i` of the whole.
  IsFragment-numbered :
      (whole : List (List ℕ)) (i : ℕ) (cs : List (List ℕ))
      → total ≡ length whole
      → ((j : ℕ) → get_elem? whole (i + j) ≡ get_elem? cs j)
      → All (IsFragment whole packet_id to) (numbered session_id packet_id total to i cs)
  IsFragment-numbered whole i [] t h = tt
  IsFragment-numbered whole i (c ∷ cs) t h = (
    record {
      packet = refl;
      total = t;
      chunk = ap (get_elem? whole) (omega arith) ∙ h 0;
      addressed = refl;
    },
    IsFragment-numbered whole (i + 1) cs t (λ j. ap (get_elem? whole) (omega arith) ∙ h (suc j)),
  )

  pub AreFragments-numbered :
      (cs : List (List ℕ))
      → total ≡ length cs
      → All (IsFragment cs packet_id to) (numbered session_id packet_id total to 0 cs)
  AreFragments-numbered cs t = IsFragment-numbered cs 0 cs t (λ j. ap (get_elem? cs) (omega arith))

  pub length-numbered :
      (i : ℕ) (cs : List (List ℕ))
      → length (numbered session_id packet_id total to i cs) ≡ length cs
  length-numbered i [] = refl
  length-numbered i (c ∷ cs) = ap suc (length-numbered (i + 1) cs)

  -- Each of the datagrams decodes to its message, which belongs to the session.
  abbrev pub Decodes : NetText → UdpMessage → Type 0
  Decodes net m = (decode_message net (encoded m) ≡ ok m) × (m.session_id ≡ session_id)

  pub Decodes-numbered :
      (net : NetText) (i : ℕ) (cs : List (List ℕ))
      → session_id < 0x100000000
      → packet_id < 0x10000
      → IsCanonical net to
      → is_utf8 (display to) ≡ true
      → length (display to) ≤ max_address_length
      → All (Decodes net) (numbered session_id packet_id total to i cs)
  Decodes-numbered net i [] s p c text near = tt
  Decodes-numbered net i (d ∷ ds) s p c text near = (
    (
      decode-encode_message net
          (record {
            session_id = session_id;
            packet_id = packet_id;
            fragment_id = i;
            fragment_total = total;
            destination = to;
            payload = d;
          })
          s p c text near,
      refl,
    ),
    Decodes-numbered net (i + 1) ds s p c text near,
  )

-- A packet in one datagram goes to the channel as it is.
input_all-single :
    (now id : ℕ) (to : Address) (c : List ℕ) (m : UdpMessage) (d : PacketConnection)
    → IsFragment (c ∷ []) id to m
    → length d.incoming < channel_size
    → m.payload ≡ c
    → input_all ((now, m) ∷ []) d
      ≡ done (ok tt) (record d {
        incoming = d.incoming ++ (record { payload = c ++ []; destination = to } ∷ []);
      })
unfolding input_all input feed take_fed try_send
input_all-single now id to c m d f room same =
    let single : leb m.fragment_total 1 ≡ true = ground (arith, f.total) in
    let packet : Packet = record { payload = m.payload; destination = m.destination } in
    input_all_step now m [] d (returned (ok (some packet)) d.defragger) _ (rw single refl)
      (rw (lt→ltb (length d.incoming) channel_size room, f.addressed, same, append-nil) refl)

only_chunk : (c p : List ℕ) (i : ℕ) → get_elem? (c ∷ []) i ≡ some p → p ≡ c
only_chunk c p zero e = cc
only_chunk c p (suc i) e = cc

-- A packet in any number of datagrams, in any order, reaches the channel.
pub input_all-arrives :
    (cs : List (List ℕ)) (id : ℕ) (to : Address) (ms : List (ℕ × UdpMessage)) (start : ℕ)
    (c : PacketConnection)
    → 1 ≤ length cs
    → length (flatten cs) ≤ max_udp_size
    → AreFragments cs id to ms
    → length ms ≡ length cs
    → InTime start ms
    → get id c.defragger ≡ none
    → length c.incoming < channel_size
    → (d : Defragger) × (input_all ms c
        ≡ done (ok tt) (record c {
          incoming = c.incoming ++ (record { payload = flatten cs; destination = to } ∷ []);
          defragger = d;
        }))
unfolding flatten
input_all-arrives [] id to ms start c one small are count time free room = absurd (omega arith)
input_all-arrives (b ∷ []) id to [] start c one small are count time free room =
    absurd (omega arith)
input_all-arrives (b ∷ []) id to ((now, m) ∷ []) start c one small are count time free room = (
  c.defragger,
  input_all-single now id to b m c are.0 room (only_chunk b m.payload m.fragment_id (are.0).chunk),
)
input_all-arrives (b ∷ []) id to (e ∷ f ∷ ms) start c one small are count time free room =
    absurd (omega arith)
input_all-arrives (a ∷ b ∷ cs) id to ms start c one small are count time free room =
    input_all-delivers (a ∷ b ∷ cs) id to ms start c (omega arith) small are count time free room
