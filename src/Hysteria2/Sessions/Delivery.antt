-- ===== src/Hysteria2/Sessions/Delivery.antt =====
-- Which session a datagram reaches in src/hysteria2/server.rs.
use sing_quic_rs.Prelude.{
  ℕ, ◌≡◌, ◌⊎◌, ◌∙◌, inl, inr, refl, sym, ap, Bool, true, false, Option, none, some, List, length,
  get_elem?, get_elem?-snoc_last, Bool-cases, Option-cases,
}
use sing_quic_rs.Prelude.Map.{nat_key, get}
use sing_quic_rs.Error.{closed, Result, ok, err}
use sing_quic_rs.Address.{NetText}
use sing_quic_rs.Congestion.{CongestionKind}
use sing_quic_rs.Hysteria2.Packet.{UdpMessage, decode_message}
use sing_quic_rs.Hysteria2.PacketConnection
use sing_quic_rs.Hysteria2.PacketConnection.{
  PacketConnection, Taken, done, panics, input, recv, send,
}
use sing_quic_rs.Hysteria2.PacketConnection.Keeping.{IsKept, input-IsKept}
use sing_quic_rs.Hysteria2.Sessions.{
  Sessions, Served, ended, empty, strong, placed, upgrade, live_session, after_input, input_at,
  enter, new_session, take_message, take_decoded, take_datagram,
}
use sing_quic_rs.Hysteria2.Sessions.Consistency.{
  At, IsConsistent, IsServed, IsFree, store-IsConsistent, enter-IsConsistent,
}

pub strong-some :
    (o : Option (Option PacketConnection)) (c : PacketConnection)
    → strong o ≡ some c
    → o ≡ some (some c)
strong-some none c e = cc
strong-some (some o) c e = ap some e

placed-some :
    (place p : ℕ) (o : Option PacketConnection) (c : PacketConnection)
    → placed place o ≡ some (p, c)
    → (place ≡ p) × (o ≡ some c)
placed-some place p none c e = cc
placed-some place p (some d) c e = (cc, cc)

live_session-some :
    (id p : ℕ) (c : PacketConnection) (s : Sessions)
    → live_session id s ≡ some (p, c)
    → (get id s.sessions ≡ some p) × At s p c
unfolding live_session upgrade
live_session-some id p c s e = by_place (get id s.sessions) refl e
  where
    by_place :
        (o : Option ℕ)
        → get id s.sessions ≡ o
        → upgrade s.heap o ≡ some (p, c)
        → (get id s.sessions ≡ some p) × At s p c
    by_place none g e = cc
    by_place (some place) g e =
        let (same, at) = placed-some place p (strong (get_elem? s.heap place)) c e in
        (g ∙ ap some same, rw (← same) (strong-some _ c at))

-- A session that the caller holds is what the table finds.
pub live_session-At :
    (p : ℕ) (c : PacketConnection) (s : Sessions)
    → IsConsistent s
    → At s p c
    → live_session c.session_id s ≡ some (p, c)
unfolding live_session upgrade
live_session-At p c s i at = rw (i.found p c at, upgrade, at) refl

pub live_session-none :
    (id : ℕ) (s : Sessions) → IsConsistent s → live_session id s ≡ none → IsFree id s
live_session-none id s i e place c at same =
    let found : live_session id s ≡ some (place, c) =
      rw (← same) (live_session-At place c s i at) in
    absurd (let f : none ≡ some (place, c) = sym e ∙ found in cc)

input_at-IsServed :
    (now : ℕ) (m : UdpMessage) (place : ℕ) (c : PacketConnection) (s : Sessions)
    → At s place c
    → IsConsistent s
    → IsServed (input_at now m place c s)
unfolding input_at after_input
input_at-IsServed now m place c s at i =
    by_end (input now m c) (input-IsKept now m c (i.sound place c at))
  where
    by_end : (t : Taken) → IsKept c t → IsServed (after_input place s t)
    by_end panics k = k
    by_end (done (ok u) d) k = store-IsConsistent place c d s at k i
    by_end (done (err e) d) k = store-IsConsistent place c d s at k i

pub empty-IsConsistent : (accepting : Bool) → IsConsistent (empty accepting)
unfolding get
empty-IsConsistent accepting = record {
  found = λ place c at. cc;
  entered = λ id place e. absurd cc;
  named = λ id place c e at. cc;
  sound = λ place c at. cc;
}

module _ (net : NetText) (user : List ℕ) (congestion : CongestionKind) where
  -- The call that a message comes to: for the session that it reaches, the one that the caller holds under its id, or a new one if
  -- there is none and the caller still takes sessions; else the loop ends.
  abbrev pub IsRouted : ℕ → UdpMessage → Sessions → Served → Type 0
  IsRouted now m s t =
      ((place : ℕ) × (c : PacketConnection) × At s place c
        × (c.session_id ≡ m.session_id)
        × (t ≡ input_at now m place c s))
      ⊎ (IsFree m.session_id s
          × (((s.accepting ≡ true)
                × (t
                    ≡ input_at now m (length s.heap) (PacketConnection.new now m.session_id)
                        (enter net user congestion now m s)))
              ⊎ ((s.accepting ≡ false) × (t ≡ ended closed s))))

  new_session-IsRouted :
      (now : ℕ) (m : UdpMessage) (s : Sessions)
      → IsFree m.session_id s
      → IsRouted now m s (new_session net user congestion now m s)
  unfolding new_session
  new_session-IsRouted now m s free = elim (Bool-cases s.accepting) [
    | inl taken ↦ inr (free, inl (taken, rw (taken, new_session) refl))
    | inr refused ↦ inr (free, inr (refused, rw (refused, new_session) refl))
  ]

  pub take_decoded-IsRouted :
      (now : ℕ) (m : UdpMessage) (s : Sessions)
      → IsConsistent s
      → IsRouted now m s (take_decoded net user congestion now (ok m) s)
  unfolding take_decoded take_message
  take_decoded-IsRouted now m s i = elim (Option-cases (live_session m.session_id s)) [
    | inl missing ↦
        rw (missing, take_decoded, take_message)
          (new_session-IsRouted now m s (live_session-none m.session_id s i missing))
    | inr (pair, e) ↦
        let (g, at) = live_session-some m.session_id pair.0 pair.1 s e in
        rw (e, take_decoded, take_message)
          (inl (pair.0, pair.1, at, i.named m.session_id pair.0 pair.1 g at, refl))
  ]

  IsRouted-IsServed :
      (now : ℕ) (m : UdpMessage) (s : Sessions) (t : Served)
      → IsConsistent s
      → IsRouted now m s t
      → IsServed t
  unfolding enter PacketConnection.new
  IsRouted-IsServed now m s t i (inl (place, c, at, same, e)) =
      rw e (input_at-IsServed now m place c s at i)
  IsRouted-IsServed now m s t i (inr (free, inl (taken, e))) = rw e (
      input_at-IsServed now m (length s.heap) (PacketConnection.new now m.session_id)
        (enter net user congestion now m s) (get_elem?-snoc_last s.heap _)
        (enter-IsConsistent net user congestion now m s free i))
  IsRouted-IsServed now m s t i (inr (free, inr (refused, e))) = rw e i

  pub take_datagram-IsServed :
      (now : ℕ) (datagram : List ℕ) (s : Sessions)
      → IsConsistent s
      → IsServed (take_datagram net user congestion now datagram s)
  unfolding take_datagram take_decoded
  take_datagram-IsServed now datagram s i = by_message (decode_message net datagram)
    where
      by_message : (r : Result UdpMessage) → IsServed (take_decoded net user congestion now r s)
      by_message (err e) = i
      by_message (ok m) = IsRouted-IsServed now m s _ i (take_decoded-IsRouted now m s i)
