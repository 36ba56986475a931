-- ===== src/Hysteria2/Defragger/Delivery.antt =====
-- A packet's fragments fed one after the other to the `Defragger` of src/hysteria2/packet.rs.
use mathlib.Core.List.{flatten}
use sing_quic_rs.Prelude.{
  ℕ, zero, suc, ◌+◌, ◌≤◌, ◌<◌, ◌≡◌, ◌≢◌, ◌∙◌, refl, Bool, true, false, none, some, List, [], ◌∷◌,
  length, get_elem?, leb, ◌==◌, arith, All,
}
use sing_quic_rs.Prelude.Map.{nat_key, get, insert, remove, retain}
use sing_quic_rs.Error.{ok}
use sing_quic_rs.Address.{Address}
use sing_quic_rs.Hysteria2.Packet.{Packet, UdpMessage}
use sing_quic_rs.Hysteria2.Defragger.{
  FragmentSet, Defragger, returned, open_set, store_part, close_set, is_live, feed, max_udp_size,
}
use sing_quic_rs.Hysteria2.Defragger.Invariant.{present}
use sing_quic_rs.Hysteria2.Defragger.Parts.{length-Agrees, finish-Agrees}
use sing_quic_rs.Hysteria2.Defragger.Reassembly.{
  IsFragment, Holds, Slot, open_set-Holds, store_part-Holds,
}

pub get-retain-some :
    (k : ℕ) (keep : FragmentSet → Bool) (d : Defragger) (f : FragmentSet)
    → get k d ≡ some f
    → keep f ≡ true
    → get k (retain keep d) ≡ some f
unfolding get retain
get-retain-some k keep [] f e h = cc
get-retain-some k keep ((j, g) ∷ d) f e h = ground (arith, get-retain-some k keep d f)

pub get-retain-none :
    (k : ℕ) (keep : FragmentSet → Bool) (d : Defragger)
    → get k d ≡ none
    → get k (retain keep d) ≡ none
unfolding get retain
get-retain-none k keep [] e = refl
get-retain-none k keep ((j, g) ∷ d) e = ground (arith, get-retain-none k keep d)

pub get_elem?-lt_length {ℓ} :
    {A : Type ℓ} (xs : List A) (i : ℕ) (x : A) → get_elem? xs i ≡ some x → i < length xs
get_elem?-lt_length [] i x e = cc
get_elem?-lt_length (y ∷ xs) zero x e = omega arith
get_elem?-lt_length (y ∷ xs) (suc i) x e = omega (arith, get_elem?-lt_length xs i x e)

module _ (cs : List (List ℕ)) (id : ℕ) (to : Address) where
  -- The packet that the chunks make up.
  abbrev pub whole : Packet
  whole = record { payload = flatten cs; destination = to }

  module _ (several : 2 ≤ length cs) (now k : ℕ) (rest : List ℕ) (m : UdpMessage) (d : Defragger)
      (p : IsFragment cs id to m) (apart : All (λ j. m.fragment_id ≢ j) rest)
      (slot : Slot cs to k (m.fragment_id ∷ rest) (get id (retain (is_live now) d))) where
    stored :
        (g : FragmentSet) × (store_part now m (open_set now m (get id (retain (is_live now) d)))
          ≡ some g)
        × Holds cs to (k + 1) rest g
        × (g.updated_at ≡ now)
    stored =
        store_part-Holds cs id to k now rest m _ p
          (open_set-Holds cs id to k now (m.fragment_id ∷ rest) m _ p slot) apart

    feed_stored : feed now m d ≡ close_set id (length cs) (retain (is_live now) d) (some stored.0)
    unfolding feed
    feed_stored =
        let in_range = get_elem?-lt_length cs m.fragment_id m.payload p.chunk in
        let big : leb m.fragment_total 1 ≡ false = ground (arith, p.total) in
        let within : leb m.fragment_total m.fragment_id ≡ false =
          ground (arith, p.total, in_range) in
        rw (big, within, p.packet, stored.1, p.total)

    -- A fragment after which others are still missing is kept.
    pub feed_middle :
        k + 1 < length cs
        → (g : FragmentSet) × (feed now m d
            ≡ returned (ok none) (insert id g (retain (is_live now) d)))
          × Holds cs to (k + 1) rest g
          × (g.updated_at ≡ now)
    feed_middle more =
        let (g, e, h, t) = stored in
        let part : (g.received == length cs) ≡ false = ground (arith, h.received) in
        (g, feed_stored ∙ unfold close_set in rw part, h, t)

    -- The last missing fragment completes the packet.
    pub feed_final :
        k + 1 ≡ length cs
        → length (flatten cs) ≤ max_udp_size
        → feed now m d ≡ returned (ok (some whole)) (remove id (retain (is_live now) d))
    feed_final all small =
        let (g, e, h, t) = stored in
        let full : (g.received == length cs) ≡ true = ground (arith, h.received) in
        let complete : present g.parts ≡ length g.parts =
          omega (arith, h.counted, length-Agrees cs g.parts h.agrees) in
        feed_stored
        ∙ unfold close_set in
          rw full (finish-Agrees cs g _ h.agrees complete small ∙ rw h.addressed)
