-- ===== src/Tests/Samples.antt =====
-- The sample values that the runs use.
use sing_quic_rs.Tls.{Rustls}
use sing_quic_rs.Transport.Settings.{TransportConfig}
use sing_quic_rs.Transport.Endpoint.{SocketAddr, Os, UdpSocket}
use sing_quic_rs.Prelude.{ℕ, ◌≡◌, refl, ap, suc, true, false, none, List, [], ◌∷◌, arith, inl}
use sing_quic_rs.Address.{v4, Address, NetText, IsValid}
use sing_quic_rs.Address.RoundTrip.{IsCanonical}
use sing_quic_rs.Congestion.{Controllers}
use sing_quic_rs.Hysteria2.Protocol.{Rng}
use sing_quic_rs.Hysteria2.Protocol.Frames.{IsRng}
use sing_quic_rs.ShadowQuic.Wire.Codec.{IsNetText}

-- A reader of names only.
abbrev pub names : NetText
names = record { parse_socket = λ text. none; parse_ip = λ text. none; ip_text = λ ip. b'0' ∷ [] }

pub names-IsNetText : IsNetText names
names-IsNetText = record { counted = λ host ip e. cc; printed = λ ip e. cc }

-- "ab:80"
abbrev pub site : Address
site = record { host = b'a' ∷ b'b' ∷ []; port = 80 }

pub site-IsValid : IsValid site
site-IsValid = record { named = λ e. cc; port_fits = omega arith }

abbrev first : List ℕ → ℕ
first [] = 0
first (b ∷ rest) = b

pub site-IsCanonical : IsCanonical names site
site-IsCanonical = record {
  valid = site-IsValid;
  plain = λ inner e. let bytes : b'a' ≡ b'[' = ap first e in omega arith;
  known = inl refl;
}

abbrev pub lowest : Rng
lowest = record { gen_range = λ low high. low; alphanumeric = λ i. b'x' }

pub lowest-IsRng : IsRng lowest
lowest-IsRng = record { in_range = λ low high h. (omega arith, h) }

-- Controllers that count their calls.
abbrev pub counters : Controllers
counters = record {
  Controller = ℕ;
  RttEstimator = ℕ;
  Pacing = ℕ;
  Metrics = ℕ;
  build_bbr = λ now mtu. 0;
  build_brutal = λ options now mtu rtt. 100;
  sent_by = λ e c. suc c;
  ack_by = λ now at bytes limited rtt c. suc c;
  end_acks_by = λ e c. suc c;
  congestion_event_by = λ e c. suc c;
  mtu_update_by = λ mtu c. suc c;
  window_of = λ c. c;
  pacing_of = λ mtu c. none;
  metrics_of = λ c. c;
  initial_window_of = λ c. c;
}

-- Crates and a system that take everything.
abbrev pub rustls : Rustls
rustls = record {
  any_supported_type = λ key. true;
  with_single_cert = λ certificates key. true;
  server_crypto = λ settings. true;
  client_crypto = λ settings. true;
  takes_root = λ certificate. true;
  webpki_roots = [];
  self_signed = none;
}

abbrev pub os : Os
os = record {
  creates = λ address. true;
  clears_only_v6 = true;
  binds = λ address. true;
  tunes = false;
  send_buffer_of = λ size. none;
  receive_buffer_of = λ size. none;
  runs = λ socket. true;
}

abbrev pub defaults : TransportConfig
defaults = record {
  switchable = false;
  stream_receive_window = 1;
  receive_window = 1;
  send_window = 1;
  datagram_receive_buffer_size = none;
  datagram_send_buffer_size = 1;
  max_idle_timeout = none;
  keep_alive_interval = none;
  initial_mtu = 1_200;
  min_mtu = 1_200;
  mtu_discovery = true;
  max_concurrent_bidi_streams = 100;
  max_concurrent_uni_streams = 100;
}

abbrev pub address : SocketAddr
address = (v4 (127 ∷ 0 ∷ 0 ∷ 1 ∷ []), 443)

abbrev pub socket : SocketAddr → UdpSocket
socket bound = record {
  address = bound;
  dual_stack = false;
  send_buffer = none;
  receive_buffer = none;
}
