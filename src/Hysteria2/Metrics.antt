-- ===== src/Hysteria2/Metrics.antt =====
-- src/hysteria2/metrics.rs: the report that is logged every two seconds while a connection is debugged. The
-- values that the code computes with floating point are left out: the milliseconds, the rates and the
-- percentage of loss; `loss` is the fraction that the percentage is computed from.
use sing_quic_rs.Prelude.{ℕ, ◌-◌, ◌*◌, Bool, Option, none, some, List, [], ◌∷◌, ◌==◌, if◌then◌else◌}

-- The parts of `connection.stats()` that the task reads.
pub record Stats : Type 0 where
  pub sent_udp_bytes : ℕ
  pub received_udp_bytes : ℕ
  pub sent_packets : ℕ
  pub lost_packets : ℕ
  pub lost_bytes : ℕ
  pub congestion_events : ℕ

pub record Report : Type 0 where
  pub sent_bytes : ℕ
  pub received_bytes : ℕ
  pub sent_packets : ℕ
  pub lost_packets : ℕ
  pub lost_bytes : ℕ
  pub congestion_events : ℕ
  pub loss : Option (ℕ × ℕ)

-- `saturating_sub` of each counter; subtraction on ℕ stops at 0.
unfoldable pub report : Stats → Stats → Report
report previous current =
    let sent_packets = current.sent_packets - previous.sent_packets in
    let lost_packets = current.lost_packets - previous.lost_packets in
    record {
      sent_bytes = current.sent_udp_bytes - previous.sent_udp_bytes;
      received_bytes = current.received_udp_bytes - previous.received_udp_bytes;
      sent_packets = sent_packets;
      lost_packets = lost_packets;
      lost_bytes = current.lost_bytes - previous.lost_bytes;
      congestion_events = current.congestion_events - previous.congestion_events;
      loss = if sent_packets == 0 then none else some (lost_packets * 100, sent_packets);
    }

-- The loop over the ticks, each with the statistics and whether the connection is closed by then: the
-- report of a tick is logged first, and a closed connection ends the task.
unfoldable pub reports : Stats → List (Stats × Bool) → List Report
unfolding report
reports previous [] = []
reports previous ((current, is_closed) ∷ ticks) =
    let more = reports current ticks in report previous current ∷ (if is_closed then [] else more)
