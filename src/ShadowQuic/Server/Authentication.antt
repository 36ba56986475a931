-- ===== src/ShadowQuic/Server/Authentication.antt =====
-- Who the users of a connection of src/shadowquic/mod.rs are, and to whom what it hands over belongs.
use sing_quic_rs.Prelude.{
  ℕ, ◌≡◌, ◌≢◌, ◌⊎◌, inl, inr, refl, sym, ap, ◌∙◌, Bool, true, false, Option, none, some, List, [],
  ◌∷◌, All,
}
use sing_quic_rs.Prelude.Map.{bytes_key, get}
use sing_quic_rs.Error.{ok-injective, Result, ok, err}
use sing_quic_rs.ShadowQuic.Server.{
  ServerAuthentication, jls, sunny, HandshakeData, connection_user, Accepted, user_of, Shared,
  chosen_user,
}

-- The user at the start of a connection: under JLS the one that the handshake has authenticated, with
-- an empty name where it gives none; under SunnyQUIC the empty one, as the user is chosen later.
pub IsUser : ServerAuthentication → Option HandshakeData → List ℕ → Type 0
IsUser jls handshake user =
    (h : HandshakeData) × (handshake ≡ some h)
    × (h.jls_authenticated ≡ some true)
    × ((h.jls_user ≡ some user) ⊎ ((h.jls_user ≡ none) × (user ≡ [])))
IsUser (sunny users) handshake user = user ≡ []

jls-IsUser :
    (h : HandshakeData) (user : List ℕ) (flag : Option Bool) (name : Option (List ℕ))
    → h.jls_authenticated ≡ flag
    → h.jls_user ≡ name
    → connection_user jls (some h) ≡ ok user
    → IsUser jls (some h) user
unfolding connection_user IsUser
jls-IsUser h user none name f g e = absurd (let bad = rw f at e in cc)
jls-IsUser h user (some false) name f g e = absurd (let bad = rw f at e in cc)
jls-IsUser h user (some true) none f g e =
    let made = rw (f, g) at e in (h, refl, f, inr (g, sym (ok-injective [] user made)))
jls-IsUser h user (some true) (some name) f g e =
    let made = rw (f, g) at e in (h, refl, f, inl (g ∙ ap some (ok-injective name user made)))

pub connection_user-IsUser :
    (authentication : ServerAuthentication) (handshake : Option HandshakeData) (user : List ℕ)
    → connection_user authentication handshake ≡ ok user
    → IsUser authentication handshake user
unfolding connection_user IsUser
connection_user-IsUser (sunny users) handshake user e = cc
connection_user-IsUser jls none user e = absurd cc
connection_user-IsUser jls (some h) user e = jls-IsUser h user _ _ refl refl e

-- Under SunnyQUIC the user is still to be chosen.
unfoldable pub IsPending : ServerAuthentication → List ℕ → Type 0
IsPending jls user = Unit {0}
IsPending (sunny users) user = user ≡ []

pub IsUser-IsPending :
    (authentication : ServerAuthentication) (handshake : Option HandshakeData) (user : List ℕ)
    → IsUser authentication handshake user
    → IsPending authentication user
unfolding IsUser IsPending
IsUser-IsPending jls handshake user h = tt
IsUser-IsPending (sunny users) handshake user h = h

-- Whether SunnyQUIC still waits for a credential.
unfoldable pub IsOpen : ServerAuthentication → Option (Result (List ℕ)) → Type 0
IsOpen jls auth = Unit {0}
IsOpen (sunny users) auth = auth ≢ none

-- `P` says of a credential that a stream of the connection has presented it.
module _ (P : List ℕ → Type 0) where
  -- A user that the authentication admits, on a connection of `user`: that of the handshake under
  -- JLS, one with a registered credential that was presented under SunnyQUIC.
  unfoldable pub IsAdmitted : ServerAuthentication → List ℕ → List ℕ → Type 0
  IsAdmitted jls user u = u ≡ user
  IsAdmitted (sunny users) user u =
      (credential : List ℕ) × P credential × (get credential users ≡ some u)

  -- The answer of the authentication names an admitted user.
  unfoldable pub IsAnswer : ServerAuthentication → List ℕ → Option (Result (List ℕ)) → Type 0
  IsAnswer authentication user none = Unit {0}
  IsAnswer authentication user (some (err e)) = Unit {0}
  IsAnswer authentication user (some (ok u)) = IsAdmitted authentication user (chosen_user user u)

  -- Every connection that was handed over belongs to an admitted user, and under SunnyQUIC none is
  -- handed over before the client was authenticated.
  pub record IsSafe (authentication : ServerAuthentication) (user : List ℕ) (s : Shared)
      : Type 0 where
    pub answer : IsAnswer authentication user s.auth
    pub admitted : All (λ a. IsAdmitted authentication user (user_of a)) s.accepted
    pub gated : (s.accepted ≡ []) ⊎ IsOpen authentication s.auth

-- The invariant holds for more presented credentials.
module _ (P Q : List ℕ → Type 0) (more : (credential : List ℕ) → P credential → Q credential) where
  pub IsAdmitted-more :
      (authentication : ServerAuthentication) (user u : List ℕ)
      → IsAdmitted P authentication user u
      → IsAdmitted Q authentication user u
  unfolding IsAdmitted
  IsAdmitted-more jls user u h = h
  IsAdmitted-more (sunny users) user u (credential, shown, known) =
      (credential, more credential shown, known)

  IsAnswer-more :
      (authentication : ServerAuthentication) (user : List ℕ) (auth : Option (Result (List ℕ)))
      → IsAnswer P authentication user auth
      → IsAnswer Q authentication user auth
  unfolding IsAnswer
  IsAnswer-more authentication user none h = tt
  IsAnswer-more authentication user (some (err e)) h = tt
  IsAnswer-more authentication user (some (ok u)) h =
      IsAdmitted-more authentication user (chosen_user user u) h

  All-more :
      (authentication : ServerAuthentication) (user : List ℕ) (accepted : List Accepted)
      → All (λ a. IsAdmitted P authentication user (user_of a)) accepted
      → All (λ a. IsAdmitted Q authentication user (user_of a)) accepted
  All-more authentication user [] h = tt
  All-more authentication user (a ∷ rest) h =
      (IsAdmitted-more authentication user (user_of a) h.0, All-more authentication user rest h.1)

  pub IsSafe-more :
      (authentication : ServerAuthentication) (user : List ℕ) (s : Shared)
      → IsSafe P authentication user s
      → IsSafe Q authentication user s
  IsSafe-more authentication user s safe = record {
    answer = IsAnswer-more authentication user s.auth safe.answer;
    admitted = All-more authentication user s.accepted safe.admitted;
    gated = safe.gated;
  }

-- The shared state at the start of `serve_connection`.
abbrev pub fresh_shared : Shared
fresh_shared = record { auth = none; accepted = []; accepting = true; closed_with = none }
