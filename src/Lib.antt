-- ===== src/Lib.antt =====
-- A model of sing-quic-rs: Hysteria2, ShadowQuic and SunnyQUIC clients and servers over QUIC.
--
-- The program's parts and the files that model them:
-- - Error: the error type and `Result` of src/error.rs.
-- - VarInt: the QUIC integers of src/varint.rs (`encode`, `read`), and `decode_varint` of
--   src/hysteria2/packet.rs. Bounds holds ranges and lengths, RoundTrip the codec.
-- - Decimal and Text: `parse` and `to_string` on integers, UTF-8 and the string methods that the
--   parsers call; they model no code of the repository.
-- - Address: src/address.rs (`new`, `from_str`, `Display`).
-- - Reader and Writer: the two halves of a stream, with a read past the end and a failing write.
-- - Hysteria2/Protocol: src/hysteria2/protocol.rs; Send writes the frames, Receive reads them, Rate
--   is the rate header.
-- - Hysteria2/Packet, Hysteria2/Defragger and Hysteria2/PacketConnection: the datagrams of
--   src/hysteria2/packet.rs, the reassembly of fragments, and the session that sends and takes them;
--   Fragments, Sending and Arrivals are what goes out for a packet and how it comes in, Inactivity is
--   `wait_inactive`.
-- - Hysteria2/Sessions: the loop of `serve_connection` of src/hysteria2/server.rs over datagrams, with the
--   table of UDP sessions; Exchange joins it with the session at the other end.
-- - Hysteria2/Configuration and Hysteria2/Opening: how the client and server are set up, and the
--   opening of a connection at both ends; Hysteria2/Login joins them. Hysteria2/Metrics:
--   src/hysteria2/metrics.rs.
-- - Hysteria2/Negotiation: the send rates that src/hysteria2/client.rs and src/hysteria2/server.rs
--   choose.
-- - Hysteria2/Server: the first request of `serve_connection` of src/hysteria2/server.rs, and
--   Hysteria2/Masquerade what any other request gets; Hysteria2/Stream is `handle_stream`.
-- - Hysteria2/Client: `authenticate` of src/hysteria2/client.rs; Connections is the connection that it
--   keeps and `connect`, Streams a stream from end to end.
-- - Tls: the TLS settings and private keys of src/shadowquic/mod.rs and src/hysteria2.
-- - Congestion: the switchable controller of src/congestion.rs. The server switches it by the rate
--   that Hysteria2/Negotiation gives.
-- - Transport: the flow-control windows of src/transport.rs, and Transport/Settings and
--   Transport/Endpoint the settings and sockets of src/hysteria2/transport.rs.
-- - ShadowQuic/Wire, ShadowQuic/Udp, ShadowQuic/PacketConnection, ShadowQuic/Server,
--   ShadowQuic/Client and ShadowQuic/Extension: the addresses, the UDP associations, the streams, the
--   client's requests and the statistics of src/shadowquic/mod.rs. ShadowQuic/Udp/Registry is the
--   abstract view of the routes, ShadowQuic/Udp/Loops the loops over whole streams,
--   ShadowQuic/Connection `serve_connection`, and ShadowQuic/Configuration the settings, with their
--   updates in Updates and History.
-- - SunnyQuic: src/sunnyquic/mod.rs.
-- - Tests: concrete inputs.
--
-- How the model stands to the code. Bytes and machine integers are native numbers; a wrap-around or
-- a saturation is written out. Mutable state is a record that an operation takes and returns, and a
-- lock makes an operation one step. A call that would panic returns its own result. Of a task that
-- waits, each round is a step, so that every order of rounds is a list of steps. Time is a number of
-- nanoseconds that a call is given.
--
-- Bounds. `chunks` runs on the length of its input, and each round takes at least one byte of it. So
-- do the loops of ShadowQuic/Udp/Loops, with one round more for the end of the stream.
-- The printer of decimals runs on the number itself. Every other recursion is structural.
--
-- Parameters stand for other code: `NetText` for the texts of `std::net` addresses, `Rng` for the
-- rand crate, `Controllers` for Quinn's congestion controllers, `Link` and `QuicConnection` for a
-- Quinn connection as packets are sent on it, `Rustls` and `Os` for the TLS crates and the socket
-- calls, `sha256` for ring's digest, and `to_str` for `http::HeaderValue::to_str`.
--
-- Not modelled: the handshakes of QUIC and TLS, timers and timeouts (a time is given to each call,
-- and a tick or deadline is a step), the closing of endpoints, logging and floating point, and the
-- crates under vendor, which are other projects' code.
pub mod Prelude
pub mod Error
pub mod Reader
pub mod VarInt
pub mod Decimal
pub mod Text
pub mod Address
pub mod Writer
pub mod Hysteria2
pub mod Congestion
pub mod Tls
pub mod Transport
pub mod SunnyQuic
pub mod ShadowQuic
pub mod Tests
