-- ===== src/ShadowQuic/Connection/Safety.antt =====
-- What a connection of src/shadowquic/mod.rs lets through, over every run of its loop and tasks.
use sing_quic_rs.Prelude.{
  ℕ, zero, suc, ◌++◌, length, get_elem?, get_elem?-snoc_last, append-nil, append_assoc, ◌≡◌, ◌⊎◌,
  inl, inr, refl, Bool, true, Option, none, some, List, [], ◌∷◌, All, All-append,
}
use sing_quic_rs.Prelude.Map.{bytes_key}
use sing_quic_rs.Error.{Result, ok, err, ok-injective, bind-ok}
use sing_quic_rs.Address.{NetText}
use sing_quic_rs.ShadowQuic.Wire.{sq_authenticate}
use sing_quic_rs.Transport.{PathStats}
use sing_quic_rs.Congestion.{CongestionKind}
use sing_quic_rs.ShadowQuic.Udp.{
  IncomingUdpRegistry, control_round, control_end, close, Dispatched, sent, pending, failed,
  handle_incoming_udp_datagram,
}
use sing_quic_rs.ShadowQuic.Server.{
  ServerAuthentication, jls, sunny, HandshakeData, connection_user, wait_for_sunny_auth,
  chosen_user, shared_of, handle_bi_stream,
}
use sing_quic_rs.ShadowQuic.Server.Authentication.{
  IsAdmitted, IsAnswer, IsSafe, IsUser, IsUser-IsPending, connection_user-IsUser, IsAdmitted-more,
  IsSafe-more,
}
use sing_quic_rs.ShadowQuic.Server.Streams.{bi_stream-IsSafe}
use sing_quic_rs.ShadowQuic.Connection.{
  Serving, Event, opens_stream, arrives, announces, ends_control, lost, Looped, looping, returned,
  gated, registered, kind_known, start, step, run,
}

abbrev pub NotSent : Dispatched → Type 0
NotSent (sent sender packet) = ⊥
NotSent pending = Unit {0}
NotSent (failed e) = Unit {0}

-- A stream of the list authenticated with the credential: its 64 bytes follow the opcode.
abbrev pub IsPresented : List (List ℕ) → List ℕ → Type 0
IsPresented streams credential =
    (i : ℕ) × (rest : List ℕ) × (get_elem? streams i
      ≡ some (sq_authenticate ∷ (credential ++ rest)))
    × (length credential ≡ 64)

-- Whoever the connection belongs to is admitted: the user that its handshake authenticated, or a
-- user of a registered credential that one of its `streams` has presented. So are the owner of each
-- stream and association that was handed over, and somebody before any packet is passed on.
pub record IsGuarded (authentication : ServerAuthentication) (handshake : Option HandshakeData)
    (streams : List (List ℕ)) (c : Serving) : Type 0 where
  pub known : IsUser authentication handshake c.user
  pub safe : IsSafe (IsPresented streams) authentication c.user c.shared
  pub passed :
      All NotSent c.dispatched
      ⊎ ((u : List ℕ) × IsAdmitted
            (IsPresented streams)
            authentication
            c.user
            (chosen_user c.user u))

-- A connection that is lost has closed its registry, so that no task waits for a route for ever.
abbrev pub IsLooped : ServerAuthentication → Option HandshakeData → List (List ℕ) → Looped → Type 0
IsLooped authentication handshake streams (looping c) = IsGuarded authentication handshake streams c
IsLooped authentication handshake streams (returned e c) =
    IsGuarded authentication handshake streams c × (c.registry.closed ≡ true)

-- The streams that are opened before the connection is lost.
abbrev pub streams_of : List Event → List (List ℕ)
streams_of [] = []
streams_of (opens_stream bytes ∷ rest) = bytes ∷ streams_of rest
streams_of (arrives datagram ∷ rest) = streams_of rest
streams_of (announces sender ids unread ∷ rest) = streams_of rest
streams_of (ends_control ids ∷ rest) = streams_of rest
streams_of (lost e ∷ rest) = []

gated-passed :
    (P : List ℕ → Type 0) (authentication : ServerAuthentication) (user : List ℕ)
    (auth : Option (Result (List ℕ))) (d : Dispatched)
    → IsAnswer P authentication user auth
    → NotSent (gated (wait_for_sunny_auth authentication auth) d)
      ⊎ ((u : List ℕ) × IsAdmitted P authentication user (chosen_user user u))
unfolding gated wait_for_sunny_auth IsAnswer IsAdmitted
gated-passed P jls user auth d a = inr ([], refl)
gated-passed P (sunny users) user none d a = inl tt
gated-passed P (sunny users) user (some (err e)) d a = inl tt
gated-passed P (sunny users) user (some (ok u)) d a = inr (u, a)

get_elem?-append :
    {A : Type 0} (xs ys : List A) (i : ℕ) (a : A)
    → get_elem? xs i ≡ some a
    → get_elem? (xs ++ ys) i ≡ some a
get_elem?-append [] ys i a e = absurd cc
get_elem?-append (x ∷ xs) ys zero a e = e
get_elem?-append (x ∷ xs) ys (suc i) a e = get_elem?-append xs ys i a e

module _ (net : NetText) (authentication : ServerAuthentication)
    (handshake : Option HandshakeData) where
  abbrev Guarded : List (List ℕ) → Serving → Type 0
  Guarded streams c = IsGuarded authentication handshake streams c

  -- The same for one more stream.
  IsGuarded-more :
      (streams : List (List ℕ)) (bytes : List ℕ) (c : Serving)
      → Guarded streams c
      → Guarded (streams ++ (bytes ∷ [])) c
  IsGuarded-more streams bytes c g = record {
    known = g.known;
    safe =
        IsSafe-more (IsPresented streams) (IsPresented (streams ++ (bytes ∷ []))) more
          authentication c.user c.shared g.safe;
    passed = elim g.passed [
      | inl nothing ↦ inl nothing
      | inr (u, admitted) ↦ inr (
        u,
        IsAdmitted-more (IsPresented streams) (IsPresented (streams ++ (bytes ∷ []))) more
            authentication c.user (chosen_user c.user u) admitted,
      )
    ];
  }
    where
      more :
          (credential : List ℕ)
          → IsPresented streams credential
          → IsPresented (streams ++ (bytes ∷ [])) credential
      more credential (i, rest, at, full) =
          (i, rest, get_elem?-append streams (bytes ∷ []) i _ at, full)

  opened-IsGuarded :
      (streams : List (List ℕ)) (bytes : List ℕ) (c : Serving)
      → Guarded streams c
      → Guarded (streams ++ (bytes ∷ [])) (record c {
        shared = shared_of (handle_bi_stream net authentication c.user bytes c.shared);
      })
  opened-IsGuarded streams bytes c g =
      let g' = IsGuarded-more streams bytes c g in
      record {
        known = g.known;
        safe =
            bi_stream-IsSafe (IsPresented (streams ++ (bytes ∷ []))) net authentication c.user bytes
              c.shared (IsUser-IsPending authentication handshake c.user g.known)
              (λ credential rest front full.
                (length streams, rest, (rw (← front) (get_elem?-snoc_last streams bytes)), full))
              g'.safe;
        passed = g'.passed;
      }

  -- With nothing new handed over or passed on, the invariant does not see the registry.
  IsGuarded-registry :
      (streams : List (List ℕ)) (c : Serving) (registry : IncomingUdpRegistry)
      → Guarded streams c
      → Guarded streams (record c { registry = registry })
  IsGuarded-registry streams c registry g = record {
    known = g.known;
    safe = g.safe;
    passed = g.passed;
  }

  arrived-IsGuarded :
      (streams : List (List ℕ)) (d : Dispatched) (c : Serving)
      → Guarded streams c
      → Guarded streams (record c {
        dispatched =
            c.dispatched ++ (gated (wait_for_sunny_auth authentication c.shared.auth) d ∷ []);
      })
  arrived-IsGuarded streams d c g = record {
    known = g.known;
    safe = g.safe;
    passed = elim g.passed [
      | inl nothing ↦
          elim (gated-passed (IsPresented streams) authentication c.user c.shared.auth d
            g.safe.answer) [
              | inl held ↦ inl (All-append NotSent c.dispatched (_ ∷ []) nothing (held, tt))
              | inr admitted ↦ inr admitted
            ]
      | inr admitted ↦ inr admitted
    ];
  }

  announced-IsGuarded :
      (streams : List (List ℕ)) (c : Serving) (r : Result (List ℕ × List ℕ × IncomingUdpRegistry))
      → Guarded streams c
      → Guarded streams (registered c r)
  announced-IsGuarded streams c (err e) g = g
  announced-IsGuarded streams c (ok (ids, rest, registry)) g =
      IsGuarded-registry streams c registry g

  run-IsLooped :
      (events : List Event) (streams : List (List ℕ)) (c : Serving)
      → Guarded streams c
      → IsLooped authentication handshake
          (streams ++ streams_of events)
          (run net authentication events c)
  unfolding run step close
  run-IsLooped [] streams c g = rw (append-nil streams) g
  run-IsLooped (opens_stream bytes ∷ rest) streams c g =
      rw (← append_assoc streams (bytes ∷ []) (streams_of rest))
        (run-IsLooped rest (streams ++ (bytes ∷ [])) _ (opened-IsGuarded streams bytes c g))
  run-IsLooped (arrives datagram ∷ rest) streams c g =
      run-IsLooped rest streams _
        (arrived-IsGuarded streams (handle_incoming_udp_datagram datagram c.registry) c g)
  run-IsLooped (announces sender ids unread ∷ rest) streams c g =
      run-IsLooped rest streams _
        (announced-IsGuarded streams c (control_round net sender ids unread c.registry) g)
  run-IsLooped (ends_control ids ∷ rest) streams c g =
      run-IsLooped rest streams _ (IsGuarded-registry streams c (control_end ids c.registry) g)
  run-IsLooped (lost e ∷ rest) streams c g =
      rw (append-nil streams) (IsGuarded-registry streams c (close c.registry) g, refl)

  start-IsGuarded :
      (var_int_max : ℕ) (path : PathStats) (found : Option CongestionKind) (accepting : Bool)
      (c : Serving)
      → start net authentication var_int_max path handshake found accepting ≡ ok c
      → Guarded [] c
  unfolding start IsAnswer
  start-IsGuarded var_int_max path found accepting c e =
      let (user, named, next) = bind-ok (connection_user authentication handshake) _ c e in
      let (kind, configured, made) = bind-ok (kind_known net authentication found) _ c next in
      rw (← ok-injective _ c made) (record {
        known = connection_user-IsUser authentication handshake user named;
        safe = record { answer = tt; admitted = tt; gated = inl refl };
        passed = inl tt;
      })

  -- Over every run of a connection that the server did not refuse - streams, datagrams and control
  -- streams in whatever order, up to the loss of the connection. Under JLS the handshake has
  -- authenticated the client, and every stream and association that is handed to the caller belongs
  -- to the handshake's user. Under SunnyQUIC each belongs to the user of a registered credential that
  -- a stream of this connection has presented, none is handed over before the authentication has
  -- answered, and no packet is passed on before such a credential was presented. Once the
  -- connection is lost its registry is closed.
  pub start-run-IsLooped :
      (var_int_max : ℕ) (path : PathStats) (found : Option CongestionKind) (accepting : Bool)
      (c : Serving) (events : List Event)
      → start net authentication var_int_max path handshake found accepting ≡ ok c
      → IsLooped authentication handshake (streams_of events) (run net authentication events c)
  start-run-IsLooped var_int_max path found accepting c events e =
      run-IsLooped events [] c (start-IsGuarded var_int_max path found accepting c e)
