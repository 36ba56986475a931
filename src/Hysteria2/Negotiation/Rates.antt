-- ===== src/Hysteria2/Negotiation/Rates.antt =====
-- What the negotiated send rates of src/hysteria2/client.rs and src/hysteria2/server.rs are.
use sing_quic_rs.Prelude.{
  ℕ, zero, suc, ◌<◌, ◌≡◌, ◌⊎◌, min, refl, Bool, true, false, ◌&&◌, ◌||◌, none, some, arith, ◌==◌,
  if◌then◌else◌,
}
use sing_quic_rs.Hysteria2.Negotiation.{
  ServerBandwidth, client_negotiated_send_rate, server_negotiated_send_rate,
}
use sing_quic_rs.Hysteria2.Protocol.Rate.{rate}

-- The smaller of two limits, where zero sets none.
pub lower_limit : ℕ → ℕ → ℕ
lower_limit zero b = b
lower_limit (suc a) zero = suc a
lower_limit (suc a) (suc b) = min (suc a) (suc b)

-- The client sends at the smaller of its configured rate and the server's limit, where a limit of
-- zero sets none; without a configured rate it has none.
pub client_rate :
    (configured remote : ℕ)
    → ((configured ≡ 0) × (client_negotiated_send_rate configured (rate remote) ≡ none))
      ⊎ ((0 < configured)
          × (client_negotiated_send_rate configured (rate remote)
              ≡ some (lower_limit remote configured)))
unfolding client_negotiated_send_rate lower_limit
client_rate zero zero = ground arith
client_rate zero (suc remote) = ground arith
client_rate (suc configured) zero = ground arith
client_rate (suc configured) (suc remote) = ground arith

-- The server ignores the client's rate: it is set to, and limits its own receiving nowhere.
abbrev pub ignores : ServerBandwidth → Bool
ignores bandwidth = (bandwidth.receive_bps == 0) && bandwidth.ignore_client_bandwidth

by_ignores :
    (bandwidth : ServerBandwidth) (client_receive : ℕ) (b : Bool)
    → ignores bandwidth ≡ b
    → server_negotiated_send_rate bandwidth (rate client_receive) ≡ (
        if b || (client_receive == 0)
        then none
        else some (lower_limit bandwidth.send_bps client_receive))
unfolding server_negotiated_send_rate lower_limit
by_ignores bandwidth client_receive true e = rw e refl
by_ignores bandwidth zero false e = rw e (ground arith)
by_ignores bandwidth (suc n) false e = rw e (ground arith)

-- For a client that names its receive rate, the server has no send rate exactly when it ignores
-- the client's or that is zero; otherwise it is the smaller of the client's limit and its own,
-- where zero of its own sets none.
pub server_rate :
    (bandwidth : ServerBandwidth) (client_receive : ℕ)
    → server_negotiated_send_rate bandwidth (rate client_receive) ≡ (
        if ignores bandwidth || (client_receive == 0)
        then none
        else some (lower_limit bandwidth.send_bps client_receive))
server_rate bandwidth client_receive = by_ignores bandwidth client_receive (ignores bandwidth) refl
