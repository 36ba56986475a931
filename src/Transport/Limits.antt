-- ===== src/Transport/Limits.antt =====
-- The windows of src/transport.rs: what they are, and the limits they keep.
use sing_quic_rs.Prelude.{ℕ, ◌*◌, ◌/◌, ◌≤◌, ◌≡◌, min, max, arith}
use sing_quic_rs.Decimal.{u64_max}
use sing_quic_rs.Transport.{
  adaptive_window, u128_mul, u64_mul, PathStats, update_connection_windows,
}
use native.Mathlib.Nat.{mul-le-mul}

-- The numbers of the source's `u64` fit its `u128` arithmetic: no product saturates.
u128_mul-u64 : (a b : ℕ) → a ≤ u64_max → b ≤ u64_max → u128_mul a b ≡ a * b
unfolding u128_mul
u128_mul-u64 a b ha hb = omega (arith, mul-le-mul ha hb)

doubled :
    (n minimum : ℕ)
    → n ≤ u64_max * u64_max
    → max (min (u128_mul (n / 1000000000) 2) u64_max) minimum
      ≡ max (min (2 * (n / 1000000000)) u64_max) minimum
unfolding u128_mul
doubled n minimum h = omega arith

-- For a bandwidth and a round-trip time in nanoseconds that fit `u64`, no intermediate product
-- saturates: the window is twice the bandwidth-delay product, at most the largest `u64` and at
-- least the minimum.
pub adaptive_window_lem :
    (bytes_per_second rtt minimum : ℕ)
    → bytes_per_second ≤ u64_max
    → rtt ≤ u64_max
    → adaptive_window bytes_per_second rtt minimum
      ≡ max (min (2 * (bytes_per_second * rtt / 1000000000)) u64_max) minimum
unfolding adaptive_window
adaptive_window_lem bytes_per_second rtt minimum hb hr =
    let product : bytes_per_second * rtt ≤ u64_max * u64_max = mul-le-mul hb hr in
    rw (u128_mul-u64 bytes_per_second rtt hb hr) (doubled (bytes_per_second * rtt) minimum product)

-- The windows that a connection is given keep their limits whatever its statistics are: with
-- minima that fit `u64` the send window fits `u64`, is at least its minimum, twice the congestion
-- window and ten packets (each product at most the largest `u64`); the receive window fits a
-- QUIC integer and is at least its minimum and ten packets, as far as they fit.
pub update_connection_windows-bounds :
    (var_int_max : ℕ) (path : PathStats) (send receive minimum_send minimum_receive : ℕ)
    → minimum_send ≤ u64_max
    → let w =
        update_connection_windows var_int_max path send receive minimum_send minimum_receive in
      (w.send_window ≤ u64_max)
      × (minimum_send ≤ w.send_window)
      × (min (path.cwnd * 2) u64_max ≤ w.send_window)
      × (min (path.current_mtu * 10) u64_max ≤ w.send_window)
      × (w.receive_window ≤ var_int_max)
      × (min minimum_receive var_int_max ≤ w.receive_window)
      × (min (min (path.current_mtu * 10) u64_max) var_int_max ≤ w.receive_window)
unfolding update_connection_windows adaptive_window u64_mul
update_connection_windows-bounds v path send receive ms mr h = ground arith
