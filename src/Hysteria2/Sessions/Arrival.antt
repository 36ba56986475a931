-- ===== src/Hysteria2/Sessions/Arrival.antt =====
-- What a datagram does to the sessions of src/hysteria2/server.rs, as the caller and the later datagrams
-- see it.
use sing_quic_rs.Prelude.{
  ℕ, zero, suc, ◌<◌, ◌≡◌, ◌≢◌, ◌⊎◌, ◌∙◌, inl, inr, refl, sym, ap, true, false, Option, none, some,
  List, [], ◌∷◌, ◌++◌, length, set, get_elem?, get_elem?-snoc_last, arith, append-nil,
}
use sing_quic_rs.Prelude.Map.{nat_key, get, get-insert_same, get-insert_ne}
use sing_quic_rs.Error.{closed, Result, ok, err}
use sing_quic_rs.Address.{NetText}
use sing_quic_rs.Congestion.{CongestionKind}
use sing_quic_rs.Hysteria2.Packet.{UdpMessage, decode_message}
use sing_quic_rs.Hysteria2.PacketConnection
use sing_quic_rs.Hysteria2.PacketConnection.{PacketConnection, Taken, done, panics, input}
use sing_quic_rs.Hysteria2.PacketConnection.Keeping.{IsKept, input-IsKept}
use sing_quic_rs.Hysteria2.Sessions.{
  AcceptedPacket, Sessions, Served, serving, ended, upgrade, live_session, store, after_input,
  input_at, enter, take_datagram,
}
use sing_quic_rs.Hysteria2.Sessions.Consistency.{At, IsConsistent, IsFree}
use sing_quic_rs.Hysteria2.Sessions.Delivery.{take_decoded-IsRouted}

module _ {A : Type 0} where
  get_elem?-set_same :
      (xs : List A) (i : ℕ) (v w : A) → get_elem? xs i ≡ some w → get_elem? (set xs i v) i ≡ some v
  get_elem?-set_same [] i v w e = absurd cc
  get_elem?-set_same (x ∷ xs) zero v w e = refl
  get_elem?-set_same (x ∷ xs) (suc i) v w e = get_elem?-set_same xs i v w e

  get_elem?-set_ne :
      (xs : List A) (i j : ℕ) (v : A) → i ≢ j → get_elem? (set xs i v) j ≡ get_elem? xs j
  get_elem?-set_ne [] i j v h = refl
  get_elem?-set_ne (x ∷ xs) zero zero v h = absurd (h refl)
  get_elem?-set_ne (x ∷ xs) zero (suc j) v h = refl
  get_elem?-set_ne (x ∷ xs) (suc i) zero v h = refl
  get_elem?-set_ne (x ∷ xs) (suc i) (suc j) v h =
      get_elem?-set_ne xs i j v (λ same. h (ap suc same))

  get_elem?-snoc_lt :
      (xs : List A) (j : ℕ) (v : A) → j < length xs → get_elem? (xs ++ (v ∷ [])) j ≡ get_elem? xs j
  get_elem?-snoc_lt [] j v h = absurd (omega arith)
  get_elem?-snoc_lt (x ∷ xs) zero v h = refl
  get_elem?-snoc_lt (x ∷ xs) (suc j) v h = get_elem?-snoc_lt xs j v (omega arith)

-- The table after a message for `id`: the caller holds the session `d` at `place` under the id,
-- what was held under any other id is untouched, and the caller was told of `announced`.
pub record IsChanged (id place : ℕ) (d : PacketConnection) (announced : List AcceptedPacket)
    (s s' : Sessions) : Type 0 where
  pub reached : live_session id s' ≡ some (place, d)
  pub others : (other : ℕ) → other ≢ id → live_session other s' ≡ live_session other s
  pub told : s'.accepted ≡ s.accepted ++ announced
  pub still : s'.accepting ≡ s.accepting

-- The loop goes on behind a message that its session has taken, and ends with the session's error.
abbrev pub continued : Result (Unit {0}) → Sessions → Served
continued (ok u) s = serving s
continued (err e) s = ended e s

-- The session `c` at `place` has taken the message, and the table is the one that holds it then.
abbrev pub IsTaken :
    ℕ → UdpMessage → ℕ → PacketConnection → List AcceptedPacket → Sessions → Served → Type 0
IsTaken now m place c announced s t =
    (r : Result (Unit {0})) × (d : PacketConnection) × (s' : Sessions) × (input now m c ≡ done r d)
    × (t ≡ continued r s')
    × IsChanged m.session_id place d announced s s'

-- What the table finds depends on its place only.
upgrade-at :
    (heap heap' : List (Option PacketConnection)) (o : Option ℕ)
    → ((p : ℕ) → o ≡ some p → get_elem? heap' p ≡ get_elem? heap p)
    → upgrade heap' o ≡ upgrade heap o
unfolding upgrade
upgrade-at heap heap' none h = refl
upgrade-at heap heap' (some p) h = rw (h p refl) refl

-- A session that changes in place.
store-IsChanged :
    (place : ℕ) (c d : PacketConnection) (s : Sessions)
    → IsConsistent s
    → At s place c
    → IsChanged c.session_id place d [] s (store place d s)
unfolding live_session upgrade
store-IsChanged place c d s i at = record {
  reached =
      rw (i.found place c at, upgrade, get_elem?-set_same s.heap place (some d) (some c) at) refl;
  others = λ other different.
      upgrade-at s.heap (set s.heap place (some d)) (get other s.sessions) (λ p e.
        get_elem?-set_ne s.heap place p (some d)
          (λ same. different (sym (i.named other place c (e ∙ ap some (sym same)) at))));
  told = sym (append-nil s.accepted);
  still = refl;
}

-- A session as it is made for its first message.
abbrev pub made : ℕ → ℕ → PacketConnection
made now id = record {
  session_id = id;
  next_packet_id = 0;
  incoming = [];
  defragger = [];
  activity = now;
  sent = [];
}

module _ (net : NetText) (user : List ℕ) (congestion : CongestionKind) where
  -- What the caller is told of a new session.
  abbrev pub announcement : ℕ → UdpMessage → AcceptedPacket
  announcement place m = record {
    place = place;
    destination = m.destination;
    user = user;
    congestion = congestion;
  }

  -- What becomes of a message in a table: the session that the caller holds under its id takes it,
  -- and nothing is announced; there is none, and a new session at a place of its own is announced
  -- and takes it; or there is none and the caller takes no more, and the loop ends.
  abbrev pub IsDelivered : ℕ → UdpMessage → Sessions → Served → Type 0
  IsDelivered now m s t =
      ((place : ℕ) × (c : PacketConnection) × At s place c
        × (c.session_id ≡ m.session_id)
        × IsTaken now m place c [] s t)
      ⊎ (IsFree m.session_id s
          × (((s.accepting ≡ true)
                × IsTaken now m (length s.heap) (made now m.session_id)
                    (announcement (length s.heap) m ∷ []) s t)
              ⊎ ((s.accepting ≡ false) × (t ≡ ended closed s))))

  entered-IsChanged :
      (now : ℕ) (m : UdpMessage) (d : PacketConnection) (s : Sessions)
      → IsConsistent s
      → IsChanged m.session_id
          (length s.heap)
          d
          (announcement (length s.heap) m ∷ [])
          s
          (store (length s.heap) d (enter net user congestion now m s))
  unfolding live_session upgrade enter
  entered-IsChanged now m d s i =
      let fresh = some (PacketConnection.new now m.session_id) in
      let last = get_elem?-snoc_last s.heap fresh in
      record {
        reached =
            rw
              (
                get-insert_same m.session_id (length s.heap) s.sessions,
                upgrade,
                get_elem?-set_same (s.heap ++ (fresh ∷ [])) (length s.heap) (some d) fresh last,
              )
              refl;
        others = λ other different.
            rw
              (get-insert_ne m.session_id other (length s.heap) s.sessions
                (λ same. different (sym same)))
              (upgrade-at s.heap (set (s.heap ++ (fresh ∷ [])) (length s.heap) (some d))
                (get other s.sessions)
                (λ p e.
                  let near = i.entered other p e in
                  get_elem?-set_ne (s.heap ++ (fresh ∷ [])) (length s.heap) p (some d)
                    (λ same. absurd (omega (arith, same, near)))
                  ∙ get_elem?-snoc_lt s.heap p fresh near));
        told = refl;
        still = refl;
      }

  -- A message is taken by the session it comes to, which never panics on it.
  input_at-IsTaken :
      (now : ℕ) (m : UdpMessage) (place : ℕ) (c : PacketConnection)
      (announced : List AcceptedPacket) (s s1 : Sessions)
      → IsKept c (input now m c)
      → ((d : PacketConnection) → IsChanged m.session_id place d announced s (store place d s1))
      → IsTaken now m place c announced s (input_at now m place c s1)
  unfolding input_at after_input
  input_at-IsTaken now m place c announced s s1 kept changed = by_end (input now m c) refl kept
    where
      by_end :
          (t : Taken)
          → input now m c ≡ t
          → IsKept c t
          → IsTaken now m place c announced s (after_input place s1 t)
      by_end panics e k = absurd k
      by_end (done (ok u) d) e k = (ok u, d, store place d s1, e, refl, changed d)
      by_end (done (err x) d) e k = (err x, d, store place d s1, e, refl, changed d)

  -- In a consistent table, a datagram that decodes is taken by the one session that the caller holds
  -- under the message's id, and nothing is announced. If it holds none, exactly one new session is
  -- announced, at a place of its own, with the message's destination and the connection's user and
  -- congestion control; it is found under the message's id from then on, and takes the message.
  -- Either way the sessions of all other ids stay as they are, and an error of the session ends the
  -- loop. If the caller takes no more sessions, a new one ends the loop and changes nothing.
  pub take_datagram-IsDelivered :
      (now : ℕ) (datagram : List ℕ) (m : UdpMessage) (s : Sessions)
      → IsConsistent s
      → decode_message net datagram ≡ ok m
      → IsDelivered now m s (take_datagram net user congestion now datagram s)
  unfolding take_datagram PacketConnection.new
  take_datagram-IsDelivered now datagram m s i e =
      rw (e, take_datagram)
        (elim (take_decoded-IsRouted net user congestion now m s i) [
          | inl (place, c, at, same, routed) ↦ rw routed (
              inl (
                place,
                c,
                at,
                same,
                input_at-IsTaken now m place c [] s s (input-IsKept now m c (i.sound place c at))
                    (λ d. rw (← same) (store-IsChanged place c d s i at)),
              ))
          | inr (free, inl (taken, routed)) ↦ rw routed (
              inr (
                free,
                inl (
                  taken,
                  input_at-IsTaken now m (length s.heap) (made now m.session_id) _ s
                      (enter net user congestion now m s)
                      (input-IsKept now m (made now m.session_id) tt)
                      (λ d. entered-IsChanged now m d s i),
                ),
              ))
          | inr (free, inr (refused, routed)) ↦ rw routed (inr (free, inr (refused, refl)))
        ])
