-- ===== src/ShadowQuic/Server/Streams.antt =====
-- What the handler of a stream in src/shadowquic/mod.rs hands over, and for whom.
use sing_quic_rs.Prelude.{
  ℕ, ◌≡◌, inr, refl, sym, Bool, true, false, Option, none, some, List, [], ◌∷◌, ◌++◌, All-append,
  ◌==◌, ==_iff, length, if◌then◌else◌,
}
use sing_quic_rs.Prelude.Map.{Map, bytes_key, get}
use sing_quic_rs.Error.{Result, ok, err, closed, read}
use sing_quic_rs.Reader.{take_exact, take_exact-ok}
use sing_quic_rs.Address.{Address, NetText}
use sing_quic_rs.ShadowQuic.Wire.{
  sq_connect, sq_associate_over_datagram, sq_associate_over_stream, sq_authenticate, sq_extension,
  decode_address,
}
use sing_quic_rs.ShadowQuic.Udp.{UdpMode, datagram, stream}
use sing_quic_rs.ShadowQuic.Server.{
  ServerAuthentication, jls, sunny, Accepted, accepted_stream, accepted_packet, user_of, Shared,
  wait_for_sunny_auth, Handled, returned, controls, shared_of, authenticate, present,
  handle_authenticate, chosen_user, accept, authenticated, addressed, handle_connect,
  handle_associate, handle_opcode, handle_bi_stream,
}
use sing_quic_rs.ShadowQuic.Server.Authentication.{IsPending, IsOpen, IsAdmitted, IsAnswer, IsSafe}

chosen_empty : (u : List ℕ) → chosen_user [] u ≡ u
chosen_empty [] = refl
chosen_empty (b ∷ u) = refl

-- `P` says of a credential that a stream of the connection has presented it.
module _ (P : List ℕ → Type 0) where
  module _ (authentication : ServerAuthentication) (user : List ℕ) where
    abbrev Safe : Shared → Type 0
    Safe s = IsSafe P authentication user s

    -- The connection that a handler hands over for an admitted user keeps the invariant.
    accept-IsSafe :
        (a : Accepted) (next : Shared → Handled) (s : Shared)
        → ((t : Shared) → shared_of (next t) ≡ t)
        → IsAdmitted P authentication user (user_of a)
        → IsOpen authentication s.auth
        → Safe s
        → Safe (shared_of (accept a next s))
    unfolding accept
    accept-IsSafe a next s passes admitted opened safe = by_accepting s.accepting
      where
        more : Shared
        more = record s { accepted = s.accepted ++ (a ∷ []) }

        by_accepting :
            (b : Bool) → Safe (shared_of (if b then next more else returned (err closed) s))
        by_accepting true = rw (passes more) (record {
          answer = safe.answer;
          admitted = All-append _ s.accepted (a ∷ []) safe.admitted (admitted, tt);
          gated = inr opened;
        })
        by_accepting false = safe

    addressed-IsSafe :
        (r : Result (Address × List ℕ)) (next : Address → List ℕ → Shared → Handled) (s : Shared)
        → ((destination : Address) (rest : List ℕ) → Safe (shared_of (next destination rest s)))
        → Safe s
        → Safe (shared_of (addressed r next s))
    unfolding addressed
    addressed-IsSafe (err e) next s each safe = safe
    addressed-IsSafe (ok (destination, rest)) next s each safe = each destination rest

  IsAnswer-at :
      (authentication : ServerAuthentication) (user : List ℕ) (a b : Option (Result (List ℕ)))
      → a ≡ b
      → IsAnswer P authentication user a
      → IsAnswer P authentication user b
  IsAnswer-at authentication user a b e h = rw (sym e) h

  -- What stands behind `wait_for_sunny_auth` runs for an admitted user only.
  authenticated-IsSafe :
      (authentication : ServerAuthentication) (user : List ℕ) (auth : Option (Result (List ℕ)))
      (next : List ℕ → Shared → Handled) (s : Shared)
      → s.auth ≡ auth
      → ((u : List ℕ)
          → IsAdmitted P authentication user (chosen_user user u)
          → IsOpen authentication auth
          → IsSafe P authentication user (shared_of (next u s)))
      → IsSafe P authentication user s
      → IsSafe P authentication user
          (shared_of (authenticated (wait_for_sunny_auth authentication auth) next s))
  unfolding authenticated wait_for_sunny_auth IsAdmitted IsOpen IsAnswer
  authenticated-IsSafe jls user auth next s here each safe = each [] refl tt
  authenticated-IsSafe (sunny users) user none next s here each safe = safe
  authenticated-IsSafe (sunny users) user (some (err e)) next s here each safe = safe
  authenticated-IsSafe (sunny users) user (some (ok u)) next s here each safe =
      each u (IsAnswer-at (sunny users) user s.auth (some (ok u)) here safe.answer) (λ e. cc)

  -- A presented credential names its user, or none.
  authenticate-IsSafe :
      (users : Map (List ℕ) (List ℕ)) (credential : List ℕ) (found : Option (List ℕ)) (s : Shared)
      → get credential users ≡ found
      → P credential
      → IsSafe P (sunny users) [] s
      → IsSafe P (sunny users) [] (shared_of (authenticate found s))
  unfolding authenticate IsAnswer IsAdmitted IsOpen
  authenticate-IsSafe users credential none s e shown safe = record {
    answer = tt;
    admitted = safe.admitted;
    gated = inr (λ h. cc);
  }
  authenticate-IsSafe users credential (some name) s e shown safe = record {
    answer = (credential, shown, rw (chosen_empty name) e);
    admitted = safe.admitted;
    gated = inr (λ h. cc);
  }

  -- The credentials that these bytes present.
  abbrev Presents : List ℕ → Type 0
  Presents unread =
      (credential rest : List ℕ)
      → unread ≡ credential ++ rest
      → length credential ≡ 64
      → P credential

  present-IsSafe :
      (users : Map (List ℕ) (List ℕ)) (unread : List ℕ) (r : Result (List ℕ × List ℕ)) (s : Shared)
      → take_exact read 64 unread ≡ r
      → Presents unread
      → IsSafe P (sunny users) [] s
      → IsSafe P (sunny users) [] (shared_of (present users r s))
  unfolding present
  present-IsSafe users unread (err e) s taken presents safe = safe
  present-IsSafe users unread (ok (credential, rest)) s taken presents safe =
      let (front, full) = take_exact-ok read 64 unread credential rest taken in
      authenticate-IsSafe users credential (get credential users) s refl
        (presents credential rest front full) safe

  handle_authenticate-IsSafe :
      (authentication : ServerAuthentication) (user unread : List ℕ) (s : Shared)
      → IsPending authentication user
      → Presents unread
      → IsSafe P authentication user s
      → IsSafe P authentication user (shared_of (handle_authenticate authentication unread s))
  unfolding handle_authenticate IsPending
  handle_authenticate-IsSafe jls user unread s known presents safe = safe
  handle_authenticate-IsSafe (sunny users) user unread s known presents safe =
      let safe' : IsSafe P (sunny users) [] s = rw (sym known) safe in
      rw known (present-IsSafe users unread (take_exact read 64 unread) s refl presents safe')

  module _ (net : NetText) (authentication : ServerAuthentication) (user : List ℕ) where
    connect-IsSafe :
        (unread u : List ℕ) (s : Shared)
        → IsAdmitted P authentication user (chosen_user user u)
        → IsOpen authentication s.auth
        → IsSafe P authentication user s
        → IsSafe P authentication user
            (shared_of (handle_connect net authentication user unread u s))
    unfolding handle_connect
    connect-IsSafe unread u s admitted opened safe =
        addressed-IsSafe authentication user (decode_address net unread) _ s
          (λ destination rest.
            accept-IsSafe authentication user (accepted_stream destination (chosen_user user u))
              (λ t. returned (ok tt) t) s (λ t. refl) admitted opened safe)
          safe

    associate-IsSafe :
        (mode : UdpMode) (unread u : List ℕ) (s : Shared)
        → IsAdmitted P authentication user (chosen_user user u)
        → IsOpen authentication s.auth
        → IsSafe P authentication user s
        → IsSafe P authentication user
            (shared_of (handle_associate net authentication user mode unread u s))
    unfolding handle_associate
    associate-IsSafe mode unread u s admitted opened safe =
        addressed-IsSafe authentication user (decode_address net unread) _ s
          (λ destination rest.
            accept-IsSafe authentication user
              (accepted_packet mode destination (chosen_user user u)) (λ t. controls rest t) s
              (λ t. refl) admitted opened safe)
          safe

    opcode-IsSafe :
        (opcode : ℕ) (unread : List ℕ) (s : Shared)
        → IsPending authentication user
        → (opcode ≡ sq_authenticate → Presents unread)
        → IsSafe P authentication user s
        → IsSafe P authentication user
            (shared_of (handle_opcode net authentication user opcode unread s))
    unfolding handle_opcode
    opcode-IsSafe opcode unread s known presents safe =
        by_test (opcode == sq_authenticate) _ _
          (λ e.
            handle_authenticate-IsSafe authentication user unread s known
              (presents ((==_iff opcode sq_authenticate).0 e)) safe)
          (by_test (opcode == sq_connect) _ _
            (λ e. waited _ (λ u a o. connect-IsSafe unread u s a o safe))
            (by_test (opcode == sq_associate_over_datagram) _ _
              (λ e. waited _ (λ u a o. associate-IsSafe datagram unread u s a o safe))
              (by_test (opcode == sq_associate_over_stream) _ _
                (λ e. waited _ (λ u a o. associate-IsSafe stream unread u s a o safe))
                (by_test (opcode == sq_extension) _ _ (λ e. waited _ (λ u a o. safe)) safe))))
      where
        waited :
            (next : List ℕ → Shared → Handled)
            → ((u : List ℕ)
                → IsAdmitted P authentication user (chosen_user user u)
                → IsOpen authentication s.auth
                → IsSafe P authentication user (shared_of (next u s)))
            → IsSafe P authentication user
                (shared_of (authenticated (wait_for_sunny_auth authentication s.auth) next s))
        waited next each = authenticated-IsSafe authentication user s.auth _ s refl each safe

        by_test :
            (b : Bool) (x y : Handled)
            → (b ≡ true → IsSafe P authentication user (shared_of x))
            → IsSafe P authentication user (shared_of y)
            → IsSafe P authentication user (shared_of (if b then x else y))
        by_test true x y hx hy = hx refl
        by_test false x y hx hy = hy

    -- A stream keeps the invariant, if what it presents counts as presented.
    pub bi_stream-IsSafe :
        (unread : List ℕ) (s : Shared)
        → IsPending authentication user
        → ((credential rest : List ℕ)
            → unread ≡ sq_authenticate ∷ (credential ++ rest)
            → length credential ≡ 64
            → P credential)
        → IsSafe P authentication user s
        → IsSafe P authentication user
            (shared_of (handle_bi_stream net authentication user unread s))
    unfolding handle_bi_stream
    bi_stream-IsSafe [] s known presents safe = safe
    bi_stream-IsSafe (opcode ∷ unread) s known presents safe =
        opcode-IsSafe opcode unread s known
          (λ same credential rest front full. presents credential rest (rw (same, front) refl) full)
          safe
