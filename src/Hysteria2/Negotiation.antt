-- ===== src/Hysteria2/Negotiation.antt =====
-- The send rate that the two ends of a Hysteria2 connection agree on: negotiated_send_rate of
-- src/hysteria2/client.rs and of src/hysteria2/server.rs, and the bandwidth settings of
-- src/hysteria2/mod.rs.
pub mod Rates
use sing_quic_rs.Prelude.{ℕ, Bool, ◌&&◌, ◌||◌, Option, none, some, ◌==◌, ltb, if◌then◌else◌}
use sing_quic_rs.Hysteria2.Protocol.Rate.{CongestionReceive, auto, rate}

pub record ClientBandwidth : Type 0 where
  pub send_bps : ℕ
  pub receive_bps : ℕ
  pub disable_loss_compensation : Bool
  pub brutal_debug : Bool

pub record ServerBandwidth : Type 0 where
  pub send_bps : ℕ
  pub receive_bps : ℕ
  pub ignore_client_bandwidth : Bool
  pub disable_loss_compensation : Bool
  pub brutal_debug : Bool

-- client.rs
unfoldable pub client_negotiated_send_rate : ℕ → CongestionReceive → Option ℕ
client_negotiated_send_rate configured_send_bps auto = none
client_negotiated_send_rate configured_send_bps (rate remote_receive_bps) =
    let actual =
      if (remote_receive_bps == 0) || ltb configured_send_bps remote_receive_bps
      then configured_send_bps
      else remote_receive_bps in
    if ltb 0 actual then some actual else none

-- server.rs
unfoldable pub server_negotiated_send_rate : ServerBandwidth → CongestionReceive → Option ℕ
server_negotiated_send_rate bandwidth client_receive =
    if (bandwidth.receive_bps == 0) && bandwidth.ignore_client_bandwidth
    then none
    else elim client_receive [
      | auto ↦ none
      | rate client_receive_bps ↦
          if client_receive_bps == 0
          then none
          else some (
              if ltb 0 bandwidth.send_bps && ltb bandwidth.send_bps client_receive_bps
              then bandwidth.send_bps
              else client_receive_bps)
    ]
