-- ===== src/Congestion.antt =====
-- src/congestion.rs: the controller of a QUIC connection, which can be switched at run time.
-- `Controllers` stands for the BBR and Brutal controllers of Quinn and its `Controller` trait. The
-- mutex around the shared state makes every call below one step.
pub mod Switching
use sing_quic_rs.Prelude.{
  ℕ, ◌≡◌, Bool, true, false, not, Option, none, some, List, [], ◌∷◌, ◌==◌, if◌then◌else◌,
}
use sing_quic_rs.Prelude.Map.{Map, Key, nat_key, get, insert}

-- The arguments of the calls that report on packets, as the trait has them.
pub record Sent : Type 0 where
  pub now : ℕ
  pub bytes : ℕ
  pub last_packet_number : ℕ

pub record EndAcks : Type 0 where
  pub now : ℕ
  pub in_flight : ℕ
  pub app_limited : Bool
  pub largest_packet_num_acked : Option ℕ

pub record CongestionEvent : Type 0 where
  pub now : ℕ
  pub sent : ℕ
  pub is_persistent_congestion : Bool
  pub is_ecn : Bool
  pub lost_bytes : ℕ
  pub lost_packets : ℕ

pub record BrutalOptions : Type 0 where
  pub bytes_per_second : ℕ
  pub loss_compensation : Bool

-- `Box<dyn Controller>` and what builds one.
pub record Controllers : Type 1 where
  pub Controller : Type 0
  pub RttEstimator : Type 0
  pub Pacing : Type 0
  pub Metrics : Type 0
  pub build_bbr : ℕ → ℕ → Controller
  pub build_brutal : BrutalOptions → ℕ → ℕ → ℕ → Controller
  pub sent_by : Sent → Controller → Controller
  pub ack_by : ℕ → ℕ → ℕ → Bool → RttEstimator → Controller → Controller
  pub end_acks_by : EndAcks → Controller → Controller
  pub congestion_event_by : CongestionEvent → Controller → Controller
  pub mtu_update_by : ℕ → Controller → Controller
  pub window_of : Controller → ℕ
  pub pacing_of : ℕ → Controller → Option Pacing
  pub metrics_of : Controller → Metrics
  pub initial_window_of : Controller → ℕ

pub data CongestionKind : Type 0 where
  bbr : CongestionKind
  brutal : ℕ → CongestionKind

module _ (q : Controllers) where
  open q use {
    Controller, RttEstimator, Pacing, Metrics, build_bbr, build_brutal, sent_by, ack_by,
    end_acks_by, congestion_event_by, mtu_update_by, window_of, pacing_of, metrics_of,
    initial_window_of,
  }

  pub record SwitchState : Type 0 where
    pub controller : Controller
    pub kind : CongestionKind
    pub current_mtu : ℕ

  -- SwitchableController::set_bbr
  unfoldable pub set_bbr : ℕ → SwitchState → SwitchState
  set_bbr now s = record s { controller = build_bbr now s.current_mtu; kind = bbr }

  -- SwitchableController::set_brutal
  unfoldable pub set_brutal : ℕ → ℕ → ℕ → Bool → SwitchState → SwitchState
  set_brutal now bytes_per_second initial_rtt disable_loss_compensation s = record s {
    controller =
        build_brutal
          (record {
            bytes_per_second = bytes_per_second;
            loss_compensation = not disable_loss_compensation;
          })
          now s.current_mtu initial_rtt;
    kind = brutal bytes_per_second;
  }

  -- impl Controller for SwitchableController
  unfoldable pub on_sent : Sent → SwitchState → SwitchState
  on_sent e s = record s { controller = sent_by e s.controller }

  unfoldable pub on_ack : ℕ → ℕ → ℕ → Bool → RttEstimator → SwitchState → SwitchState
  on_ack now sent bytes app_limited rtt s = record s {
    controller = ack_by now sent bytes app_limited rtt s.controller;
  }

  unfoldable pub on_end_acks : EndAcks → SwitchState → SwitchState
  on_end_acks e s = record s { controller = end_acks_by e s.controller }

  unfoldable pub on_congestion_event : CongestionEvent → SwitchState → SwitchState
  on_congestion_event e s = record s { controller = congestion_event_by e s.controller }

  unfoldable pub on_mtu_update : ℕ → SwitchState → SwitchState
  on_mtu_update new_mtu s = record s {
    current_mtu = new_mtu;
    controller = mtu_update_by new_mtu s.controller;
  }

  unfoldable pub window : SwitchState → ℕ
  window s = window_of s.controller

  unfoldable pub pacing : ℕ → SwitchState → Option Pacing
  pacing current_mtu s = pacing_of current_mtu s.controller

  unfoldable pub metrics : SwitchState → Metrics
  metrics s = metrics_of s.controller

  unfoldable pub initial_window : SwitchState → ℕ
  initial_window s = initial_window_of s.controller

  -- SwitchableCongestionFactory::build
  unfoldable pub build : ℕ → ℕ → SwitchState
  build now current_mtu = record {
    controller = build_bbr now current_mtu;
    kind = bbr;
    current_mtu = current_mtu;
  }

  -- A boxed controller: a handle on a shared state, or a controller of another type.
  pub data Boxed : Type 0 where
    switchable : ℕ → Boxed
    foreign : Boxed

  -- `Arc::clone` of the state: the clone is the same handle.
  unfoldable pub clone_box : Boxed → Boxed
  clone_box b = b

  -- The states that handles point to.
  abbrev pub States : Type 0
  States = Map ℕ SwitchState

  pub record Connection : Type 0 where
    pub controller : Boxed
    pub rtt : ℕ

  -- `f` on the state of `connection.congestion_state().into_any().downcast()`; `false` if the
  -- downcast fails.
  unfoldable pub update : Boxed → (SwitchState → SwitchState) → States → Bool × States
  unfolding clone_box
  update foreign f states = (false, states)
  update (switchable a) f states = elim (get a states) [
    | none ↦ (false, states)
    | some s ↦ (true, insert a (f s) states)
  ]

  -- configure_connection_brutal_with_options
  unfoldable pub configure_brutal : ℕ → Connection → ℕ → Bool → States → Bool × States
  unfolding update set_brutal
  configure_brutal now connection bytes_per_second disable_loss_compensation states =
      if bytes_per_second == 0
      then (false, states)
      else update (clone_box connection.controller)
          (set_brutal now bytes_per_second connection.rtt disable_loss_compensation) states

  -- configure_connection_bbr
  unfoldable pub configure_bbr : ℕ → Connection → States → Bool × States
  unfolding update set_bbr
  configure_bbr now connection states =
      update (clone_box connection.controller) (set_bbr now) states

  -- connection_congestion_kind
  unfoldable pub kind_of : Boxed → States → Option CongestionKind
  kind_of foreign states = none
  kind_of (switchable a) states = elim (get a states) [ none ↦ none | some s ↦ some s.kind ]

  unfoldable pub connection_congestion_kind : Connection → States → Option CongestionKind
  unfolding kind_of clone_box
  connection_congestion_kind connection states = kind_of (clone_box connection.controller) states
