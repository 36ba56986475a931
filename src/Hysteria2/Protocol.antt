-- ===== src/Hysteria2/Protocol.antt =====
-- src/hysteria2/protocol.rs: the frames that open a TCP stream, their padding, and the rate header.
-- `Rng` stands for the `rand` crate.
pub mod Send
pub mod Receive
pub mod Rate
pub mod Frames
pub mod Responses
use sing_quic_rs.Prelude.{ℕ, zero, suc, ◌+◌, ◌≤◌, ◌<◌, List, [], ◌∷◌}

abbrev pub frame_type_tcp_request : ℕ
frame_type_tcp_request = 0x401

abbrev pub max_address_length : ℕ
max_address_length = 2048

abbrev pub max_message_length : ℕ
max_message_length = 2048

abbrev pub max_padding_length : ℕ
max_padding_length = 4096

-- One use of `thread_rng`: what `gen_range(min..max)` draws, and the letters and digits that
-- `sample_iter(Alphanumeric)` goes on with.
pub record Rng : Type 0 where
  pub gen_range : ℕ → ℕ → ℕ
  pub alphanumeric : ℕ → ℕ

-- `.take(length)` on the samples from the `i`-th on
unfoldable pub samples : (ℕ → ℕ) → ℕ → ℕ → List ℕ
samples draw i zero = []
samples draw i (suc n) = draw i ∷ samples draw (i + 1) n

unfoldable pub padding : Rng → ℕ → ℕ → List ℕ
unfolding samples
padding rng min max = samples rng.alphanumeric 0 (rng.gen_range min max)
