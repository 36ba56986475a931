-- ===== src/Hysteria2/PacketConnection/Input.antt =====
-- A packet's fragments arriving at a `Hysteria2PacketConnection` of src/hysteria2/packet.rs.
use mathlib.Core.List.{flatten}
use sing_quic_rs.Prelude.{
  ℕ, ◌+◌, ◌-◌, ◌≤◌, ◌<◌, ◌≡◌, ◌≢◌, ◌∙◌, refl, Option, none, some, List, [], ◌∷◌, ◌++◌, length,
  arith, All, lt→ltb,
}
use sing_quic_rs.Prelude.Map.{nat_key, get, insert, remove, retain, get-insert}
use sing_quic_rs.Error.{ok}
use sing_quic_rs.Address.{Address}
use sing_quic_rs.Hysteria2.Packet.{UdpMessage}
use sing_quic_rs.Hysteria2.Defragger.{
  FragmentSet, Defragger, Fed, is_live, feed, max_udp_size, fragment_lifetime,
}
use sing_quic_rs.Hysteria2.Defragger.Reassembly.{IsFragment, Holds, Slot}
use sing_quic_rs.Hysteria2.Defragger.Delivery.{
  whole, feed_middle, feed_final, get-retain-some, get-retain-none, get_elem?-lt_length,
}
use sing_quic_rs.Hysteria2.PacketConnection.{
  PacketConnection, done, channel_size, take_fed, input, input_all,
}

-- The messages carry fragments of the packet, no two the same.
abbrev pub AreFragments : List (List ℕ) → ℕ → Address → List (ℕ × UdpMessage) → Type 0
AreFragments cs id to [] = Unit {0}
AreFragments cs id to ((now, m) ∷ ms) =
    IsFragment cs id to m
    × All (λ e. m.fragment_id ≢ (e.1).fragment_id) ms
    × AreFragments cs id to ms

-- Each message comes within the lifetime of a set after the one before, `last`.
abbrev pub InTime : {A : Type 0} → ℕ → List (ℕ × A) → Type 0
InTime last [] = Unit {0}
InTime last ((now, m) ∷ ms) = (now - last ≤ fragment_lifetime) × InTime now ms

abbrev ids : List (ℕ × UdpMessage) → List ℕ
ids [] = []
ids ((now, m) ∷ ms) = m.fragment_id ∷ ids ms

-- What the map holds of the packet, with the time of its last fragment.
abbrev Held : List (List ℕ) → Address → ℕ → List ℕ → ℕ → Option FragmentSet → Type 0
Held cs to k missing last none = (k ≡ 0) × All (λ i. i < length cs) missing
Held cs to k missing last (some f) = Holds cs to k missing f × (f.updated_at ≡ last)

pub input_all_step :
    (now : ℕ) (m : UdpMessage) (ms : List (ℕ × UdpMessage)) (c : PacketConnection) (f : Fed)
    (c' : PacketConnection)
    → feed now m c.defragger ≡ f
    → take_fed c f ≡ done (ok tt) c'
    → input_all ((now, m) ∷ ms) c ≡ input_all ms c'
unfolding input_all input
input_all_step now m ms c f c' e t = rw (e, t, input_all)

module _ (cs : List (List ℕ)) (id : ℕ) (to : Address) where
  live-Slot :
      (k last now : ℕ) (missing : List ℕ) (d : Defragger)
      → now - last ≤ fragment_lifetime
      → Held cs to k missing last (get id d)
      → Slot cs to k missing (get id (retain (is_live now) d))
  live-Slot k last now missing d h = by_slot (get id d) refl
    where
      by_slot :
          (o : Option FragmentSet)
          → get id d ≡ o
          → Held cs to k missing last o
          → Slot cs to k missing (get id (retain (is_live now) d))
      by_slot none e held = rw (get-retain-none id (is_live now) d e) held
      by_slot (some f) e held =
          rw (get-retain-some id (is_live now) d f e (ground (arith, held.1))) held.0

  apart_ids :
      (i : ℕ) (ms : List (ℕ × UdpMessage))
      → All (λ e. i ≢ (e.1).fragment_id) ms
      → All (λ j. i ≢ j) (ids ms)
  apart_ids i [] a = tt
  apart_ids i ((now, m) ∷ ms) a = (a.0, apart_ids i ms a.1)

  module _ (several : 2 ≤ length cs) (small : length (flatten cs) ≤ max_udp_size) where
    -- The channel with the packet at its end.
    abbrev received : PacketConnection → Defragger → PacketConnection
    received c d = record c { incoming = c.incoming ++ (whole cs id to ∷ []); defragger = d }

    arrives :
        (ms : List (ℕ × UdpMessage)) (k last : ℕ) (c : PacketConnection)
        → AreFragments cs id to ms
        → InTime last ms
        → k + length ms ≡ length cs
        → 1 ≤ length ms
        → length c.incoming < channel_size
        → Held cs to k (ids ms) last (get id c.defragger)
        → (d : Defragger) × (input_all ms c ≡ done (ok tt) (received c d))
    unfolding input_all input
    arrives [] k last c are time count one room held = absurd (omega arith)
    arrives ((now, m) ∷ []) k last c are time count one room held =
        let slot = live-Slot k last now (m.fragment_id ∷ []) c.defragger time.0 held in
        let e =
          feed_final cs id to several now k [] m c.defragger are.0 tt slot (omega arith) small in
        (
          remove id (retain (is_live now) c.defragger),
          input_all_step now m [] c _ (received c (remove id (retain (is_live now) c.defragger))) e
              (unfold take_fed in rw (lt→ltb (length c.incoming) channel_size room)),
        )
    arrives ((now, m) ∷ (later, n) ∷ ms) k last c are time count one room held =
        let slot =
          live-Slot k last now (ids ((now, m) ∷ (later, n) ∷ ms)) c.defragger time.0 held in
        let apart = apart_ids m.fragment_id ((later, n) ∷ ms) are.1 in
        let (g, e, h, t) =
          feed_middle cs id to several now k (ids ((later, n) ∷ ms)) m c.defragger are.0 apart slot
            (omega arith) in
        let d : Defragger = insert id g (retain (is_live now) c.defragger) in
        let c' = record c { defragger = d } in
        let found : get id d ≡ some g =
          get-insert id id g (retain (is_live now) c.defragger) ∙ ground arith in
        let (d', done_) =
          arrives ((later, n) ∷ ms) (k + 1) now c' are.2 time.1 (omega arith) (omega arith) room
            (rw found (h, t)) in
        (d', input_all_step now m ((later, n) ∷ ms) c _ c' e (unfold take_fed in refl) ∙ done_)

in_range :
    (cs : List (List ℕ)) (id : ℕ) (to : Address) (ms : List (ℕ × UdpMessage))
    → AreFragments cs id to ms
    → All (λ i. i < length cs) (ids ms)
in_range cs id to [] are = tt
in_range cs id to ((now, m) ∷ ms) are =
    (get_elem?-lt_length cs m.fragment_id m.payload are.0.chunk, in_range cs id to ms are.2)

-- A packet of at most 4096 bytes in two or more fragments reaches the channel whole, in whatever
-- order the fragments come, if none is lost or doubled, each comes within ten seconds of the one
-- before, the map holds nothing under the packet's id, and the channel has room. No call fails, and
-- nothing but the map and the channel changes.
pub input_all-delivers :
    (cs : List (List ℕ)) (id : ℕ) (to : Address) (ms : List (ℕ × UdpMessage)) (start : ℕ)
    (c : PacketConnection)
    → 2 ≤ length cs
    → length (flatten cs) ≤ max_udp_size
    → AreFragments cs id to ms
    → length ms ≡ length cs
    → InTime start ms
    → get id c.defragger ≡ none
    → length c.incoming < channel_size
    → (d : Defragger) × (input_all ms c
        ≡ done (ok tt) (record c {
          incoming = c.incoming ++ (record { payload = flatten cs; destination = to } ∷ []);
          defragger = d;
        }))
input_all-delivers cs id to ms start c several small are count time empty room =
    arrives cs id to several small ms 0 start c are time (omega arith) (omega arith) room
      (rw empty (refl, in_range cs id to ms are))
