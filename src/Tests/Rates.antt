-- ===== src/Tests/Rates.antt =====
-- Runs of the theorems on rates, windows and congestion control.
use sing_quic_rs.Prelude.{
  ℕ, ◌*◌, ◌/◌, ◌≤◌, ◌<◌, ◌≡◌, ◌⊎◌, refl, ◌||◌, ◌==◌, min, max, false, none, some, [], ◌∷◌, arith,
  if◌then◌else◌,
}
use sing_quic_rs.Decimal.{u64_max}
use sing_quic_rs.Congestion.{
  bbr, brutal, Connection, switchable, States, configure_brutal, configure_bbr, build,
}
use sing_quic_rs.Congestion.Switching.{
  Grown, run, to_brutal, resizes, run-build-Grown, Switched, configure_brutal_lem,
  configure_bbr_lem,
}
use sing_quic_rs.Transport.{adaptive_window, PathStats, update_connection_windows}
use sing_quic_rs.Transport.Limits.{adaptive_window_lem, update_connection_windows-bounds}
use sing_quic_rs.Hysteria2.Negotiation.{
  ServerBandwidth, client_negotiated_send_rate, server_negotiated_send_rate,
}
use sing_quic_rs.Hysteria2.Negotiation.Rates.{client_rate, server_rate, lower_limit, ignores}
use sing_quic_rs.Hysteria2.Protocol.Rate.Reading.{IsRead, parse_congestion_receive-IsRead}
use sing_quic_rs.Hysteria2.Protocol.Rate.{
  rate, congestion_receive_value, parse_congestion_receive, parse-congestion_receive_value,
}
use sing_quic_rs.Tests.Samples.{counters}

abbrev peer : Connection counters
peer = record { controller = switchable 0; rtt = 20 }

abbrev states : States counters
states = (0, record { controller = 1; kind = bbr; current_mtu = 1200 }) ∷ []

run-build-Grown_example :
    Grown counters
      (run counters (build counters 5 1200) (to_brutal 6 900 20 false ∷ resizes 1400 ∷ [])).kind
      (run counters
        (build counters 5 1200)
        (to_brutal 6 900 20 false ∷ resizes 1400 ∷ [])).controller
run-build-Grown_example =
    run-build-Grown counters 5 1200 (to_brutal 6 900 20 false ∷ resizes 1400 ∷ [])

configure_bbr_example : Switched counters peer states bbr (configure_bbr counters 5 peer states)
configure_bbr_example = configure_bbr_lem counters 5 peer states

abbrev rate_900 : ℕ
rate_900 = 900

configure_brutal_example :
    ((rate_900 ≡ 0) × (configure_brutal counters 5 peer rate_900 false states ≡ (false, states)))
    ⊎ ((0 < rate_900)
        × Switched counters peer states
            (brutal rate_900)
            (configure_brutal counters 5 peer rate_900 false states))
configure_brutal_example = configure_brutal_lem counters 5 rate_900 peer false states

-- 125 MB/s at 100 ms
adaptive_window_example :
    adaptive_window 125000000 100000000 1
    ≡ max (min (2 * (125000000 * 100000000 / 1000000000)) u64_max) 1
adaptive_window_example = adaptive_window_lem 125000000 100000000 1 (omega arith) (omega arith)

abbrev path : PathStats
path = record { rtt = 100000000; current_mtu = 1200; cwnd = 30000 }

update_connection_windows_example :
    let w = update_connection_windows 4611686018427387903 path 125000000 0 20971520 20971520 in
    (w.send_window ≤ u64_max)
    × (20971520 ≤ w.send_window)
    × (min (30000 * 2) u64_max ≤ w.send_window)
    × (min (1200 * 10) u64_max ≤ w.send_window)
    × (w.receive_window ≤ 4611686018427387903)
    × (min 20971520 4611686018427387903 ≤ w.receive_window)
    × (min (min (1200 * 10) u64_max) 4611686018427387903 ≤ w.receive_window)
update_connection_windows_example =
    update_connection_windows-bounds 4611686018427387903 path 125000000 0 20971520 20971520
      (omega arith)

abbrev rate_100 : ℕ
rate_100 = 100

client_rate_example :
    ((rate_100 ≡ 0) × (client_negotiated_send_rate rate_100 (rate 80) ≡ none))
    ⊎ ((0 < rate_100)
        × (client_negotiated_send_rate rate_100 (rate 80) ≡ some (lower_limit 80 rate_100)))
client_rate_example = client_rate rate_100 80

abbrev bandwidth : ServerBandwidth
bandwidth = record {
  send_bps = 50;
  receive_bps = 0;
  ignore_client_bandwidth = false;
  disable_loss_compensation = false;
  brutal_debug = false;
}

server_rate_example :
    server_negotiated_send_rate bandwidth (rate 80)
    ≡ (if ignores bandwidth || (80 == 0) then none else some (lower_limit bandwidth.send_bps 80))
server_rate_example = server_rate bandwidth 80

parse-congestion_receive_value_example :
    parse_congestion_receive some (some (congestion_receive_value (rate 80))) ≡ rate 80
parse-congestion_receive_value_example =
    parse-congestion_receive_value some (rate 80) (omega arith) refl

parse_congestion_receive-IsRead_example :
    IsRead some (some (b'7' ∷ [])) (parse_congestion_receive some (some (b'7' ∷ [])))
parse_congestion_receive-IsRead_example = parse_congestion_receive-IsRead some (some (b'7' ∷ []))
