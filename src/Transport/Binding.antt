-- ===== src/Transport/Binding.antt =====
-- What an endpoint of src/hysteria2/transport.rs listens on.
use sing_quic_rs.Prelude.{◌≡◌, ◌∙◌, refl, sym, ap, Bool, true, false, Option, if◌then◌else◌}
use sing_quic_rs.Error.{io, ok, ok-injective, bind-ok, if-ok}
use sing_quic_rs.Transport.Endpoint.{
  SocketAddr, UdpSocket, ServerConfig, Endpoint, Os, bind_udp_socket, tune_udp_socket, run_on,
  bind_endpoint, udp_socket_buffer_size,
}

module _ (os : Os) where
  address-tune_udp_socket : (s : UdpSocket) → (tune_udp_socket os s).address ≡ s.address
  unfolding tune_udp_socket
  address-tune_udp_socket s = by_flag os.tunes
    where
      by_flag :
          (b : Bool)
          → (if b
              then record s {
                send_buffer = os.send_buffer_of udp_socket_buffer_size;
                receive_buffer = os.receive_buffer_of udp_socket_buffer_size;
              }
              else s).address
            ≡ s.address
      by_flag true = refl
      by_flag false = refl

  address-bind_udp_socket :
      (address : SocketAddr) (s : UdpSocket)
      → bind_udp_socket os address ≡ ok s
      → s.address ≡ address
  unfolding bind_udp_socket
  address-bind_udp_socket address s h =
      let made = if-ok _ _ io s (if-ok _ _ io s h) in
      ap (λ (socket : UdpSocket). socket.address) (sym (ok-injective _ s made))

  -- An endpoint that is bound listens on the address, with the configuration.
  pub bind_endpoint-ok :
      (address : SocketAddr) (config : Option ServerConfig) (e : Endpoint)
      → bind_endpoint os address config ≡ ok e
      → (e.socket.address ≡ address) × (e.server_config ≡ config)
  unfolding bind_endpoint
  bind_endpoint-ok address config e h =
      let (socket, made, running) =
        bind-ok (bind_udp_socket os address)
          (λ socket. run_on os config (tune_udp_socket os socket)) e h in
      let same : record { socket = tune_udp_socket os socket; server_config = config } ≡ e =
        ok-injective _ e (if-ok (os.runs (tune_udp_socket os socket)) _ io e running) in
      (
        ap (λ (x : Endpoint). x.socket.address) (sym same)
            ∙ (address-tune_udp_socket socket ∙ address-bind_udp_socket address socket made),
        ap (λ (x : Endpoint). x.server_config) (sym same),
      )
