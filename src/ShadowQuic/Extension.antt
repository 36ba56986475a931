-- ===== src/ShadowQuic/Extension.antt =====
-- The statistics request of src/shadowquic/mod.rs. `rtt_bytes` are the eight bytes of the round-trip
-- time as a floating-point number of milliseconds, which the model does not compute.
use sing_quic_rs.Prelude.{
  ℕ, ◌/◌, ◌%◌, ◌^◌, Bool, true, false, ◌&&◌, List, [], ◌∷◌, ◌++◌, if◌then◌else◌,
}
use sing_quic_rs.Prelude.Bytes.{be_u16, be_u32, bytes_eq}
use sing_quic_rs.Error.{read, write, protocol, finish_failed, Result, ok, err}
use sing_quic_rs.Reader.{take_exact}
use sing_quic_rs.Writer.{Sink, write_all}

abbrev pub sq_extension_connection : List ℕ
sq_extension_connection = 0 ∷ 0 ∷ 0 ∷ 0 ∷ 0 ∷ 0 ∷ 0 ∷ 1 ∷ []

abbrev pub sq_extension_get_stats : List ℕ
sq_extension_get_stats = 0 ∷ []

-- `connection.stats().path`, as far as the response has it.
pub record PathStats : Type 0 where
  pub lost_packets : ℕ
  pub sent_packets : ℕ
  pub rtt_bytes : List ℕ
  pub current_mtu : ℕ

-- u64::to_be_bytes
unfoldable pub be_u64 : ℕ → List ℕ
unfolding be_u32
be_u64 n = be_u32 (n / 2 ^ 32) ++ be_u32 (n % 2 ^ 32)

unfoldable pub stats_response : PathStats → List ℕ
unfolding be_u16 be_u32 be_u64
stats_response stats =
    0
    ∷ (be_u32 26
        ++ (be_u64 stats.lost_packets
            ++ (be_u64 stats.sent_packets ++ (stats.rtt_bytes ++ be_u16 stats.current_mtu))))

-- How the handler ends: the stream is reset, or the response was written.
pub data Extended : Type 0 where
  refused : Extended
  ended : Result (Unit {0}) → Sink → Extended

abbrev after_write : Bool → Result (Unit {0}) × Sink → Extended
after_write finishes (err e, s) = ended (err e) s
after_write true (ok u, s) = ended (ok tt) s
after_write false (ok u, s) = ended (err (protocol finish_failed)) s

unfoldable pub answer_request : PathStats → Bool → Sink → List ℕ → List ℕ → Extended
unfolding stats_response bytes_eq
answer_request stats finishes s extension opcode =
    if bytes_eq extension sq_extension_connection && bytes_eq opcode sq_extension_get_stats
    then after_write finishes (write_all write (stats_response stats) s)
    else refused

abbrev read_opcode : PathStats → Bool → Sink → List ℕ → Result (List ℕ × List ℕ) → Extended
read_opcode stats finishes s extension (err e) = ended (err e) s
read_opcode stats finishes s extension (ok (opcode, rest)) =
    answer_request stats finishes s extension opcode

abbrev read_extension : PathStats → Bool → Sink → Result (List ℕ × List ℕ) → Extended
read_extension stats finishes s (err e) = ended (err e) s
read_extension stats finishes s (ok (extension, rest)) =
    read_opcode stats finishes s extension (take_exact read 1 rest)

-- handle_extension
unfoldable pub handle_extension : PathStats → Bool → Sink → List ℕ → Extended
unfolding answer_request
handle_extension stats finishes s unread =
    read_extension stats finishes s (take_exact read 8 unread)
