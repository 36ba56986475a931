-- ===== src/Hysteria2/Sessions/Runs.antt =====
-- What every run of the loop over datagrams of src/hysteria2/server.rs keeps.
use sing_quic_rs.Prelude.{ℕ, ◌≡◌, refl, Bool, Option, none, some, List, [], ◌∷◌, get_elem?}
use sing_quic_rs.Prelude.Map.{nat_key}
use sing_quic_rs.Address.{NetText}
use sing_quic_rs.Congestion.{CongestionKind}
use sing_quic_rs.Hysteria2.Packet.{Packet}
use sing_quic_rs.Hysteria2.PacketConnection.{PacketConnection}
use sing_quic_rs.Hysteria2.PacketConnection.Keeping.{IsReceived, recv-Keeps, send-Keeps}
use sing_quic_rs.Hysteria2.Sessions.{
  Sessions, Served, serving, ended, panicked, empty, strong, Event, arrives, lost, control_fails,
  stream_opens, receives, sends, drops, stops_accepting, received, on_session, step, run,
}
use sing_quic_rs.Hysteria2.Sessions.Consistency.{
  At, IsConsistent, IsServed, store-IsConsistent, drop-IsConsistent,
}
use sing_quic_rs.Hysteria2.Sessions.Delivery.{
  strong-some, empty-IsConsistent, take_datagram-IsServed,
}

module _ (net : NetText) (user : List ℕ) (congestion : CongestionKind) where
  on_session-IsConsistent :
      (act : PacketConnection → Sessions) (place : ℕ) (s : Sessions)
      → ((c : PacketConnection) → At s place c → IsConsistent (act c))
      → IsConsistent s
      → IsConsistent (on_session act (strong (get_elem? s.heap place)) s)
  unfolding on_session
  on_session-IsConsistent act place s keeps i = by_session (strong (get_elem? s.heap place)) refl
    where
      by_session :
          (o : Option PacketConnection)
          → strong (get_elem? s.heap place) ≡ o
          → IsConsistent (on_session act o s)
      by_session none e = i
      by_session (some c) e = keeps c (strong-some _ c e)

  received-IsConsistent :
      (place : ℕ) (c : PacketConnection) (s : Sessions) (o : Option (Packet × PacketConnection))
      → At s place c
      → IsReceived c o
      → IsConsistent s
      → IsConsistent (received place s o)
  unfolding received
  received-IsConsistent place c s none at k i = i
  received-IsConsistent place c s (some (packet, d)) at k i = store-IsConsistent place c d s at k i

  step-IsServed :
      (event : Event) (s : Sessions) → IsConsistent s → IsServed (step net user congestion event s)
  unfolding step
  step-IsServed (arrives now datagram) s i =
      take_datagram-IsServed net user congestion now datagram s i
  step-IsServed (lost e) s i = i
  step-IsServed control_fails s i = i
  step-IsServed stream_opens s i = i
  step-IsServed (receives now place) s i =
      on_session-IsConsistent _ place s
        (λ c at. received-IsConsistent place c s _ at (recv-Keeps now c (i.sound place c at)) i) i
  step-IsServed (sends link now place packet) s i =
      on_session-IsConsistent _ place s
        (λ c at.
          store-IsConsistent place c _ s at (send-Keeps link now packet c (i.sound place c at)) i)
        i
  step-IsServed (drops place) s i = drop-IsConsistent place s i
  step-IsServed stops_accepting s i = record {
    found = i.found;
    entered = i.entered;
    named = i.named;
    sound = i.sound;
  }

  run-IsServed :
      (events : List (Event)) (s : Sessions)
      → IsConsistent s
      → IsServed (run net user congestion events s)
  unfolding run
  run-IsServed [] s i = i
  run-IsServed (event ∷ rest) s i =
      by_step (step net user congestion event s) (step-IsServed event s i) (run-IsServed rest)
    where
      by_step :
          (t : Served)
          → IsServed t
          → ((s' : Sessions) → IsConsistent s' → IsServed (run net user congestion rest s'))
          → IsServed (elim t [
            | serving s' ↦ run net user congestion rest s'
            | ended e s' ↦ ended e s'
            | panicked ↦ panicked
          ])
      by_step (serving s') k more = more s' k
      by_step (ended e s') k more = k
      by_step panicked k more = k

  -- In every order of datagrams and of the caller's receives, sends and drops, the loop never
  -- panics, and leaves a consistent table: the caller never holds two sessions of one id, each
  -- session it holds is found under its own id, and the map of fragments of each is sound.
  pub run-empty-IsServed :
      (events : List Event) (accepting : Bool)
      → IsServed (run net user congestion events (empty accepting))
  run-empty-IsServed events accepting = run-IsServed events _ (empty-IsConsistent accepting)
