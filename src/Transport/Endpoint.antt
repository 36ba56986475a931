-- ===== src/Transport/Endpoint.antt =====
-- The endpoints of src/hysteria2/transport.rs. `Os` stands for the calls of socket2 and Quinn on a socket:
-- whether they succeed, and the buffer size that a socket ends up with.
use sing_quic_rs.Prelude.{
  ℕ, ◌*◌, Bool, true, false, ◌&&◌, Option, none, [], ◌∷◌, replicate, if◌then◌else◌,
}
use sing_quic_rs.Error.{io, Result, ok, err, ◌>>=◌}
use sing_quic_rs.Address.{IpAddr, v4, v6}
use sing_quic_rs.Tls.{ServerTls}
use sing_quic_rs.Transport.Settings.{TransportConfig}

-- std::net::SocketAddr
abbrev pub SocketAddr : Type 0
SocketAddr = IpAddr × ℕ

abbrev pub is_ipv6 : SocketAddr → Bool
is_ipv6 (v4 octets, port) = false
is_ipv6 (v6 octets, port) = true

-- `dual_stack` is what `set_only_v6(false)` sets; a buffer is `none` while it has the system's size.
pub record UdpSocket : Type 0 where
  pub address : SocketAddr
  pub dual_stack : Bool
  pub send_buffer : Option ℕ
  pub receive_buffer : Option ℕ

-- quinn::ServerConfig
pub record ServerConfig : Type 0 where
  pub crypto : ServerTls
  pub transport : TransportConfig
  pub path_manager_disabled : Bool

-- quinn::Endpoint
pub record Endpoint : Type 0 where
  pub socket : UdpSocket
  pub server_config : Option ServerConfig

pub record Os : Type 0 where
  pub creates : SocketAddr → Bool
  pub clears_only_v6 : Bool
  pub binds : SocketAddr → Bool
  pub tunes : Bool
  pub send_buffer_of : ℕ → Option ℕ
  pub receive_buffer_of : ℕ → Option ℕ
  pub runs : UdpSocket → Bool

abbrev pub udp_socket_buffer_size : ℕ
udp_socket_buffer_size = 16 * 1024 * 1024

module _ (os : Os) where
  unfoldable pub bind_udp_socket : SocketAddr → Result UdpSocket
  bind_udp_socket address =
      if os.creates address
      then if os.binds address
        then ok (record {
          address = address;
          dual_stack = is_ipv6 address && os.clears_only_v6;
          send_buffer = none;
          receive_buffer = none;
        })
        else err io
      else err io

  unfoldable pub tune_udp_socket : UdpSocket → UdpSocket
  tune_udp_socket socket =
      if os.tunes
      then record socket {
        send_buffer = os.send_buffer_of udp_socket_buffer_size;
        receive_buffer = os.receive_buffer_of udp_socket_buffer_size;
      }
      else socket

  abbrev pub run_on : Option ServerConfig → UdpSocket → Result Endpoint
  run_on server_config socket =
      if os.runs socket
      then ok (record { socket = socket; server_config = server_config })
      else err io

  unfoldable pub bind_endpoint : SocketAddr → Option ServerConfig → Result Endpoint
  unfolding bind_udp_socket tune_udp_socket
  bind_endpoint address server_config = do
    socket ← bind_udp_socket address
    run_on server_config (tune_udp_socket socket)

-- The address that a client binds: unspecified, of the server's family, and any port.
unfoldable pub client_address : IpAddr → SocketAddr
client_address (v4 octets) = (v4 (0 ∷ 0 ∷ 0 ∷ 0 ∷ []), 0)
client_address (v6 octets) = (v6 (replicate 16 0), 0)

-- Endpoint::set_server_config
abbrev pub set_server_config : Option ServerConfig → Endpoint → Endpoint
set_server_config server_config endpoint = record endpoint { server_config = server_config }
