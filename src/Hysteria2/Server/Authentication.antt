-- ===== src/Hysteria2/Server/Authentication.antt =====
-- Whom src/hysteria2/server.rs serves, and under which congestion control.
use sing_quic_rs.Prelude.{
  ℕ, ◌<◌, ◌≡◌, ◌∙◌, ◌⊎◌, inl, inr, refl, ap, Bool, true, false, ◌&&◌, Option, none, some, List,
  arith, Bool-cases,
}
use sing_quic_rs.Prelude.Bytes.{bytes_eq→eq}
use sing_quic_rs.Prelude.Map.{Map, bytes_key, get}
use sing_quic_rs.Error.{congestion_control}
use sing_quic_rs.Hysteria2.Protocol.Rate.{CongestionReceive, auto, rate, parse_congestion_receive}
use sing_quic_rs.Hysteria2.Negotiation.{ServerBandwidth, server_negotiated_send_rate}
use sing_quic_rs.Congestion.{
  Controllers, CongestionKind, brutal, Connection, States, configure_brutal,
  connection_congestion_kind,
}
use sing_quic_rs.Congestion.Switching.{IsSwitchable, Switched, configure_brutal_lem}
use sing_quic_rs.Hysteria2.Server.{
  post, url_authority, url_path, Request, matches, and_then, only_if, Phase, masquerading, failed,
  serving, lacks_rate, authenticated_user, advertised, with_kind, serve_as, configured, negotiate,
  admit, first_request,
}

-- A request that authenticates `user`: the method, the URI, and a password of that user.
pub record IsAuthenticated (to_str : List ℕ → Option (List ℕ)) (users : Map (List ℕ) (List ℕ))
    (request : Request) (user : List ℕ) : Type 0 where
  pub posted : request.method ≡ post
  pub addressed : request.authority ≡ some url_authority
  pub located : request.path ≡ url_path
  pub value : List ℕ
  pub password : List ℕ
  pub presented : request.auth ≡ some value
  pub readable : to_str value ≡ some password
  pub known : get password users ≡ some user

and_then-some :
    {A B : Type 0} (o : Option A) (f : A → Option B) (b : B)
    → and_then o f ≡ some b
    → (a : A) × (o ≡ some a) × (f a ≡ some b)
and_then-some none f b e = cc
and_then-some (some a) f b e = (a, refl, e)

only_if-some :
    {A : Type 0} (t : Bool) (o : Option A) (a : A)
    → only_if t o ≡ some a
    → (t ≡ true) × (o ≡ some a)
only_if-some true o a e = (refl, e)
only_if-some false o a e = cc

and-true : (a b c : Bool) → a && b && c ≡ true → (a ≡ true) × (b ≡ true) × (c ≡ true)
and-true a b c e = ground arith

matches-true : (text : List ℕ) (o : Option (List ℕ)) → matches text o ≡ true → o ≡ some text
matches-true text none e = cc
matches-true text (some value) e = ap some (bytes_eq→eq value text e)

-- A user is authenticated only by a POST to the authentication URL with a readable password that
-- the server knows as this user's.
pub authenticated_user-some :
    (to_str : List ℕ → Option (List ℕ)) (users : Map (List ℕ) (List ℕ)) (request : Request)
    (user : List ℕ)
    → authenticated_user to_str users request ≡ some user
    → IsAuthenticated to_str users request user
unfolding authenticated_user
authenticated_user-some to_str users request user e =
    let (tests, chain) = only_if-some _ _ user e in
    let (m, a, p) = and-true _ _ _ tests in
    let (password, read, known) = and_then-some _ (λ password. get password users) user chain in
    let (value, presented, readable) = and_then-some request.auth to_str password read in
    record {
      posted = bytes_eq→eq _ _ m;
      addressed = matches-true _ _ a;
      located = bytes_eq→eq _ _ p;
      value = value;
      password = password;
      presented = presented;
      readable = readable;
      known = known;
    }

same_pair : {A B : Type 0} (p : A × B) (a : A) (b : B) → p.0 ≡ a → p.1 ≡ b → p ≡ (a, b)
same_pair p a b e f = rw (← e, ← f) refl

module _ (to_str : List ℕ → Option (List ℕ)) (q : Controllers) (now : ℕ) (peer : Connection q)
    (bandwidth : ServerBandwidth) where
  -- The congestion control and the announced rate of a served connection: without a negotiated rate
  -- the one that the connection has, which no call has touched, and with one Brutal at this rate,
  -- which the connection then reports.
  pub IsNegotiated : States q → Option ℕ → CongestionKind → CongestionReceive → States q → Type 0
  IsNegotiated states send_rate kind announced states' =
      ((send_rate ≡ none)
        × (announced ≡ auto)
        × (connection_congestion_kind q peer states ≡ some kind)
        × (states' ≡ states))
      ⊎ ((r : ℕ) × (send_rate ≡ some r)
          × (0 < r)
          × (kind ≡ brutal r)
          × (connection_congestion_kind q peer states' ≡ some (brutal r))
          × (announced ≡ rate bandwidth.receive_bps))

  -- Why a connection could not be configured: it reports no kind, or it has no live switchable
  -- controller to switch to the negotiated rate, or that rate is zero.
  pub IsUnconfigurable : States q → Option ℕ → Type 0
  IsUnconfigurable states none = connection_congestion_kind q peer states ≡ none
  IsUnconfigurable states (some r) = (r ≡ 0) ⊎ (¬ IsSwitchable q peer states)

  -- What each phase promises: a masqueraded connection gave no user or lacks a rate, a failed one
  -- could not be configured, and a served one belongs to `user` and is negotiated. Only a served
  -- connection can have other states than before.
  pub IsPhase : States q → Option (List ℕ) → CongestionReceive → Phase × States q → Type 0
  IsPhase states user client_receive (masquerading, states') =
      ((user ≡ none) ⊎ (lacks_rate bandwidth client_receive ≡ true)) × (states' ≡ states)
  IsPhase states user client_receive (failed e, states') =
      (e ≡ congestion_control)
      × (states' ≡ states)
      × IsUnconfigurable states (server_negotiated_send_rate bandwidth client_receive)
  IsPhase states user client_receive (serving name kind announced, states') =
      (user ≡ some name)
      × (lacks_rate bandwidth client_receive ≡ false)
      × IsNegotiated states (server_negotiated_send_rate bandwidth client_receive) kind announced
          states'

  module _ (name : List ℕ) (client_receive : CongestionReceive)
      (rated : lacks_rate bandwidth client_receive ≡ false) (states : States q) where
    unlimited :
        (found : Option CongestionKind)
        → connection_congestion_kind q peer states ≡ found
        → server_negotiated_send_rate bandwidth client_receive ≡ none
        → IsPhase states
            (some name)
            client_receive
            (with_kind to_str q now peer bandwidth name none found states)
    unfolding with_kind IsPhase IsNegotiated IsUnconfigurable advertised
    unlimited none here e = (refl, refl, rw e here)
    unlimited (some kind) here e = (refl, rated, inl (e, refl, here, refl))

    limited :
        (found : Option CongestionKind) (r : ℕ) (states' : States q)
        → server_negotiated_send_rate bandwidth client_receive ≡ some r
        → 0 < r
        → connection_congestion_kind q peer states' ≡ found
        → found ≡ some (brutal r)
        → IsPhase states
            (some name)
            client_receive
            (with_kind to_str q now peer bandwidth name (some r) found states')
    unfolding with_kind IsPhase IsNegotiated advertised
    limited none r states' e positive here h = absurd cc
    limited (some kind) r states' e positive here h =
        (refl, rated, inr (r, e, positive, (let k : kind ≡ brutal r = cc in k), here ∙ h, refl))

    configured-IsPhase :
        (r : ℕ) (result : Bool × States q)
        → server_negotiated_send_rate bandwidth client_receive ≡ some r
        → ((result ≡ (false, states)) × IsUnconfigurable states (some r))
          ⊎ ((result.0 ≡ true)
              × (0 < r)
              × (connection_congestion_kind q peer result.1 ≡ some (brutal r)))
        → IsPhase states
            (some name)
            client_receive
            (configured to_str q now peer bandwidth name r result)
    unfolding configured serve_as IsPhase
    configured-IsPhase r (false, states') e (inl (h, why)) = (refl, ap (λ p. p.1) h, rw e why)
    configured-IsPhase r (false, states') e (inr (done, positive, h)) = absurd cc
    configured-IsPhase r (true, states') e (inl (h, why)) = absurd (let b = ap (λ p. p.0) h in cc)
    configured-IsPhase r (true, states') e (inr (done, positive, h)) =
        limited _ r states' e positive refl h

    switched :
        (r : ℕ)
        → ((configure_brutal q now peer r bandwidth.disable_loss_compensation states
              ≡ (false, states))
            × IsUnconfigurable states (some r))
          ⊎ (((configure_brutal q now peer r bandwidth.disable_loss_compensation states).0 ≡ true)
              × (0 < r)
              × (connection_congestion_kind q peer
                    (configure_brutal q now peer r bandwidth.disable_loss_compensation states).1
                  ≡ some (brutal r)))
    unfolding Switched IsUnconfigurable
    switched r =
        elim (configure_brutal_lem q now r peer bandwidth.disable_loss_compensation states) [
          | inl (zero_, e) ↦ inl (e, inl zero_)
          | inr (positive, inl (s, done, h)) ↦ inr (done, positive, h)
          | inr (positive, inr (absent, done, h)) ↦ inl (same_pair _ _ _ done h, inr absent)
        ]

    negotiate-IsPhase :
        (send_rate : Option ℕ)
        → server_negotiated_send_rate bandwidth client_receive ≡ send_rate
        → IsPhase states
            (some name)
            client_receive
            (negotiate to_str q now peer bandwidth name send_rate states)
    unfolding negotiate serve_as
    negotiate-IsPhase none e = unlimited _ refl e
    negotiate-IsPhase (some r) e = configured-IsPhase r _ e (switched r)

  admit-IsPhase :
      (user : Option (List ℕ)) (client_receive : CongestionReceive) (states : States q)
      → IsPhase states user client_receive
          (admit to_str q now peer bandwidth user client_receive states)
  unfolding admit IsPhase
  admit-IsPhase none client_receive states = (inl refl, refl)
  admit-IsPhase (some name) client_receive states =
      elim (Bool-cases (lacks_rate bandwidth client_receive)) [
        | inl lacking ↦ rw (lacking, admit) (inr lacking, refl)
        | inr rated ↦ rw (rated, admit) (negotiate-IsPhase name client_receive rated states _ refl)
      ]

  -- What becomes of a connection by its first request, in every case: requests are masqueraded only
  -- if the request authenticates no user, or names no receive rate where the server wants one; the
  -- connection fails only with a congestion-control error, and only if it reports no kind, or cannot
  -- be switched to the negotiated rate; and it is served only for the user that the request
  -- authenticates. Without a negotiated rate it is served under the congestion control that it had,
  -- announced as `auto`; with one it is served, and reports to be, under Brutal at that rate, with
  -- the server's receive rate announced. In every other case no controller has changed.
  pub first_request-IsPhase :
      (users : Map (List ℕ) (List ℕ)) (request : Request) (states : States q)
      → IsPhase states
          (authenticated_user to_str users request)
          (parse_congestion_receive to_str request.cc_rx)
          (first_request to_str q now peer bandwidth users request states)
  unfolding first_request
  first_request-IsPhase users request states = admit-IsPhase _ _ states
