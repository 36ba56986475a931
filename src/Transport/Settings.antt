-- ===== src/Transport/Settings.antt =====
-- The transport settings of src/hysteria2/transport.rs and of src/shadowquic/mod.rs. `defaults` stands
-- for `quinn::TransportConfig::default()`, of which these fields are set. Times are nanoseconds.
use sing_quic_rs.Prelude.{ℕ, ◌*◌, Bool, true, false, Option, some, ltb, if◌then◌else◌}

pub record QuicTransportOptions : Type 0 where
  pub initial_packet_size : ℕ
  pub disable_path_mtu_discovery : Bool

pub record TransportConfig : Type 0 where
  pub switchable : Bool
  pub stream_receive_window : ℕ
  pub receive_window : ℕ
  pub send_window : ℕ
  pub datagram_receive_buffer_size : Option ℕ
  pub datagram_send_buffer_size : ℕ
  pub max_idle_timeout : Option ℕ
  pub keep_alive_interval : Option ℕ
  pub initial_mtu : ℕ
  pub min_mtu : ℕ
  pub mtu_discovery : Bool
  pub max_concurrent_bidi_streams : ℕ
  pub max_concurrent_uni_streams : ℕ

abbrev pub datagram_buffer_size : ℕ
datagram_buffer_size = 2_500_000

unfoldable pub base_transport_config : TransportConfig → QuicTransportOptions → TransportConfig
base_transport_config defaults options = record defaults {
  switchable = true;
  stream_receive_window = 8 * 1024 * 1024;
  receive_window = 20 * 1024 * 1024;
  send_window = 20 * 1024 * 1024;
  datagram_receive_buffer_size = some datagram_buffer_size;
  datagram_send_buffer_size = datagram_buffer_size;
  max_idle_timeout = some 30_000_000_000;
  keep_alive_interval = some 10_000_000_000;
  initial_mtu =
      if ltb 0 options.initial_packet_size
      then options.initial_packet_size
      else defaults.initial_mtu;
  mtu_discovery = if options.disable_path_mtu_discovery then false else defaults.mtu_discovery;
}

unfoldable pub shadowquic_transport_config : TransportConfig → TransportConfig
unfolding base_transport_config
shadowquic_transport_config defaults =
    record (base_transport_config defaults
      (record { initial_packet_size = 0; disable_path_mtu_discovery = false })) {
        max_concurrent_bidi_streams = 1_000;
        max_concurrent_uni_streams = 1_000;
        datagram_receive_buffer_size = some datagram_buffer_size;
        datagram_send_buffer_size = datagram_buffer_size;
        min_mtu = 1_290;
        initial_mtu = 1_300;
      }
