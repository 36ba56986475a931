-- ===== src/Transport.antt =====
-- src/transport.rs: the flow-control windows that follow the bandwidth and the round-trip time. The
-- statistics of Quinn's connection are a record, and the two windows that it is given are the
-- result. `var_int_max` is the `VarInt::MAX` of Quinn.
pub mod Limits
pub mod Settings
pub mod Endpoint
pub mod Binding
use sing_quic_rs.Prelude.{
  ℕ, ◌*◌, ◌/◌, ◌-◌, ◌^◌, min, max, Bool, Option, none, some, List, [], ◌∷◌, if◌then◌else◌,
}
use sing_quic_rs.Decimal.{u64_max}

abbrev pub window_headroom : ℕ
window_headroom = 2

abbrev pub initial_window_packets : ℕ
initial_window_packets = 10

-- u128::MAX
abbrev pub u128_max : ℕ
u128_max = 2 ^ 128 - 1

-- u128::saturating_mul and u64::saturating_mul
unfoldable pub u128_mul : ℕ → ℕ → ℕ
u128_mul a b = min (a * b) u128_max

unfoldable pub u64_mul : ℕ → ℕ → ℕ
u64_mul a b = min (a * b) u64_max

-- The round-trip time is in nanoseconds.
unfoldable pub adaptive_window : ℕ → ℕ → ℕ → ℕ
unfolding u128_mul
adaptive_window bytes_per_second rtt minimum =
    let bdp = u128_mul bytes_per_second rtt / 1000000000 in
    let target = min (u128_mul bdp window_headroom) u64_max in max target minimum

-- The parts of `connection.stats()` that the code reads.
pub record PathStats : Type 0 where
  pub rtt : ℕ
  pub current_mtu : ℕ
  pub cwnd : ℕ

pub record Windows : Type 0 where
  pub send_window : ℕ
  pub receive_window : ℕ

unfoldable pub update_connection_windows : ℕ → PathStats → ℕ → ℕ → ℕ → ℕ → Windows
unfolding adaptive_window u64_mul
update_connection_windows var_int_max path send_bytes_per_second receive_bytes_per_second
      minimum_send_window minimum_receive_window =
    let mtu_window = u64_mul path.current_mtu initial_window_packets in
    let send_window =
      max
        (max (adaptive_window send_bytes_per_second path.rtt minimum_send_window)
          (u64_mul path.cwnd window_headroom))
        mtu_window in
    let receive_window =
      max (adaptive_window receive_bytes_per_second path.rtt minimum_receive_window) mtu_window in
    record { send_window = send_window; receive_window = min receive_window var_int_max }

-- AdaptiveWindowTask: the windows are set when the task starts, and at each tick, with the statistics
-- of then, up to the first at which the connection is closed.
module _
    (var_int_max send_bytes_per_second receive_bytes_per_second minimum_send_window
      minimum_receive_window : ℕ) where
  unfoldable pub tick_windows : List (PathStats × Bool) → List Windows
  unfolding update_connection_windows
  tick_windows [] = []
  tick_windows ((path, is_closed) ∷ ticks) =
      let more = tick_windows ticks in
      if is_closed
      then []
      else update_connection_windows var_int_max path send_bytes_per_second receive_bytes_per_second
          minimum_send_window minimum_receive_window
        ∷ more

  unfoldable pub spawn : PathStats → List (PathStats × Bool) → List Windows
  unfolding update_connection_windows tick_windows
  spawn path ticks =
      update_connection_windows var_int_max path send_bytes_per_second receive_bytes_per_second
        minimum_send_window minimum_receive_window
      ∷ tick_windows ticks
