-- ===== src/Congestion/Switching.antt =====
-- What switching does to the controller of src/congestion.rs, and what its shared state keeps.
use sing_quic_rs.Prelude.{
  ℕ, ◌<◌, ◌≡◌, refl, sym, zero, suc, ==_iff, List, [], ◌∷◌, Bool, true, false, not, none, some, ◌⊎◌,
  inl, inr, ◌==◌, arith, Option-cases,
}
use sing_quic_rs.Prelude.Map.{nat_key, get, insert, get-insert}
use sing_quic_rs.Congestion.{
  Controllers, Sent, EndAcks, CongestionEvent, CongestionKind, bbr, brutal, SwitchState, set_bbr,
  set_brutal, on_sent, on_ack, on_end_acks, on_congestion_event, on_mtu_update, build, Boxed,
  switchable, foreign, States, Connection, update, configure_brutal, configure_bbr, kind_of,
  connection_congestion_kind, clone_box,
}

module _ (q : Controllers) where
  open q use {
    Controller, RttEstimator, build_bbr, build_brutal, sent_by, ack_by, end_acks_by,
    congestion_event_by, mtu_update_by,
  }

  -- The controllers that a kind can have come to: built as this kind for some MTU, and told of
  -- packets, losses and MTU changes since. A controller of the other kind is none of them.
  pub data Grown : CongestionKind → Controller → Type 0 where
    new_bbr : (now mtu : ℕ) → Grown bbr (build_bbr now mtu)
    new_brutal :
        (rate now mtu rtt : ℕ) (loss : Bool)
        → Grown (brutal rate) (
            build_brutal (record { bytes_per_second = rate; loss_compensation = loss }) now mtu rtt)
    sent : {k : CongestionKind} {c : Controller} (e : Sent) → Grown k c → Grown k (sent_by e c)
    acked :
        {k : CongestionKind} {c : Controller} (now at bytes : ℕ) (limited : Bool)
        (rtt : RttEstimator)
        → Grown k c
        → Grown k (ack_by now at bytes limited rtt c)
    ended :
        {k : CongestionKind} {c : Controller} (e : EndAcks) → Grown k c → Grown k (end_acks_by e c)
    lost :
        {k : CongestionKind} {c : Controller} (e : CongestionEvent)
        → Grown k c
        → Grown k (congestion_event_by e c)
    resized :
        {k : CongestionKind} {c : Controller} (mtu : ℕ) → Grown k c → Grown k (mtu_update_by mtu c)

  -- One call on the shared state, by the connection or by a switch.
  pub data Call : Type 0 where
    sends : Sent → Call
    acks : ℕ → ℕ → ℕ → Bool → RttEstimator → Call
    ends : EndAcks → Call
    loses : CongestionEvent → Call
    resizes : ℕ → Call
    to_bbr : ℕ → Call
    to_brutal : ℕ → ℕ → ℕ → Bool → Call

  pub step : SwitchState q → Call → SwitchState q
  unfolding set_bbr set_brutal on_sent on_ack on_end_acks on_congestion_event on_mtu_update
  step s (sends e) = on_sent q e s
  step s (acks now at bytes limited rtt) = on_ack q now at bytes limited rtt s
  step s (ends e) = on_end_acks q e s
  step s (loses e) = on_congestion_event q e s
  step s (resizes mtu) = on_mtu_update q mtu s
  step s (to_bbr now) = set_bbr q now s
  step s (to_brutal now rate rtt disable) = set_brutal q now rate rtt disable s

  pub run : SwitchState q → List Call → SwitchState q
  run s [] = s
  run s (c ∷ cs) = run (step s c) cs

  step-Grown :
      (s : SwitchState q) (c : Call)
      → Grown s.kind s.controller
      → Grown (step s c).kind (step s c).controller
  unfolding step
  step-Grown s (sends e) g = sent e g
  step-Grown s (acks now at bytes limited rtt) g = acked now at bytes limited rtt g
  step-Grown s (ends e) g = ended e g
  step-Grown s (loses e) g = lost e g
  step-Grown s (resizes mtu) g = resized mtu g
  step-Grown s (to_bbr now) g = new_bbr now s.current_mtu
  step-Grown s (to_brutal now rate rtt disable) g =
      new_brutal rate now s.current_mtu rtt (not disable)

  run-Grown :
      (s : SwitchState q) (cs : List Call)
      → Grown s.kind s.controller
      → Grown (run s cs).kind (run s cs).controller
  unfolding run
  run-Grown s [] g = g
  run-Grown s (c ∷ cs) g = run-Grown (step s c) cs (step-Grown s c g)

  -- After any calls on a state from the factory, the kind that the connection reports is that of
  -- the controller in use, with its rate.
  pub run-build-Grown :
      (now mtu : ℕ) (cs : List Call)
      → Grown (run (build q now mtu) cs).kind (run (build q now mtu) cs).controller
  unfolding build
  run-build-Grown now mtu cs = run-Grown (build q now mtu) cs (new_bbr now mtu)

  -- A connection whose controller is a live switchable one.
  pub record IsSwitchable (connection : Connection q) (states : States q) : Type 0 where
    pub handle : ℕ
    pub state : SwitchState q
    pub boxed : connection.controller ≡ switchable handle
    pub held : get handle states ≡ some state

  -- What switching through a connection answers: it worked, on a live switchable controller, and
  -- the connection then reports the kind; or there is no such controller, and nothing has changed.
  unfoldable pub Switched : Connection q → States q → CongestionKind → Bool × States q → Type 0
  Switched connection states kind (done, states') =
      (IsSwitchable connection states
        × (done ≡ true)
        × (connection_congestion_kind q connection states' ≡ some kind))
      ⊎ ((¬ IsSwitchable connection states) × (done ≡ false) × (states' ≡ states))

  reported :
      (boxed : Boxed q) (a : ℕ) (s : SwitchState q) (states : States q)
      → boxed ≡ switchable a
      → kind_of q boxed (insert a s states) ≡ some s.kind
  unfolding kind_of
  reported foreign a s states h = cc
  reported (switchable b) a s states h =
      let same : b ≡ a = cc in rw (same, kind_of, get-insert a a s states, (==_iff a a).1 refl) refl

  accepted :
      (connection : Connection q) (a : ℕ) (s s' : SwitchState q) (states : States q)
      → connection.controller ≡ switchable a
      → get a states ≡ some s
      → Switched connection states s'.kind (true, insert a s' states)
  unfolding Switched connection_congestion_kind clone_box
  accepted connection a s s' states here e = inl (
    record { handle = a; state = s; boxed = here; held = e },
    refl,
    reported connection.controller a s' states here,
  )

  not_held :
      (connection : Connection q) (a : ℕ) (states : States q)
      → connection.controller ≡ switchable a
      → get a states ≡ none
      → ¬ IsSwitchable connection states
  not_held connection a states here e s =
      let b = s.boxed in
      let h = s.held in
      let same : s.handle ≡ a = cc in
      let found : get a states ≡ some s.state = rw (sym same) h in cc

  update-Switched :
      (connection : Connection q) (boxed : Boxed q) (f : SwitchState q → SwitchState q)
      (states : States q) (kind : CongestionKind)
      → connection.controller ≡ boxed
      → ((s : SwitchState q) → (f s).kind ≡ kind)
      → Switched connection states kind (update q boxed f states)
  unfolding update Switched get
  update-Switched connection foreign f states kind here kinds =
      inr ((λ s. let e = s.boxed in cc), refl, refl)
  update-Switched connection (switchable a) f states kind here kinds =
      elim (Option-cases (get a states)) [
        | inl e ↦ rw (e, update) (inr (not_held connection a states here e, refl, refl))
        | inr (s, e) ↦ rw (e, update, sym (kinds s)) (accepted connection a s (f s) states here e)
      ]

  -- Switching to BBR works exactly on a connection with a live switchable controller, and the
  -- connection then reports BBR; otherwise it answers `false` and nothing has changed.
  pub configure_bbr_lem :
      (now : ℕ) (connection : Connection q) (states : States q)
      → Switched connection states bbr (configure_bbr q now connection states)
  unfolding configure_bbr set_bbr clone_box
  configure_bbr_lem now connection states =
      update-Switched connection connection.controller (set_bbr q now) states bbr refl (λ s. refl)

  -- A switch to Brutal at rate zero is refused and changes nothing. At a positive rate it works
  -- exactly on a connection with a live switchable controller, and the connection then reports
  -- Brutal at that rate; otherwise it answers `false` and nothing has changed.
  pub configure_brutal_lem :
      (now rate : ℕ) (connection : Connection q) (disable : Bool) (states : States q)
      → ((rate ≡ 0) × (configure_brutal q now connection rate disable states ≡ (false, states)))
        ⊎ ((0 < rate)
            × Switched connection states
                (brutal rate)
                (configure_brutal q now connection rate disable states))
  unfolding configure_brutal set_brutal clone_box
  configure_brutal_lem now zero connection disable states = inl (refl, refl)
  configure_brutal_lem now (suc r) connection disable states =
      let nonzero : (suc r == 0) ≡ false = ground arith in
      let switched =
        update-Switched connection connection.controller
          (set_brutal q now (suc r) connection.rtt disable) states (brutal (suc r)) refl
          (λ s. refl) in
      inr (omega arith, rw (nonzero, configure_brutal) switched)
