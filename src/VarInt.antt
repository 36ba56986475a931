-- ===== src/VarInt.antt =====
-- src/varint.rs: QUIC variable-length integers of 1, 2, 4 or 8 bytes, whose top two bits give the
-- length; and `decode_varint` of src/hysteria2/packet.rs, the same decoder over a slice.
pub mod Bounds
pub mod RoundTrip
use Prim.Native.Nat.{bit_and, bit_or}
use sing_quic_rs.Prelude.{
  ℕ, zero, suc, ◌+◌, ◌-◌, ◌*◌, ◌/◌, ◌%◌, ◌^◌, Bool, List, [], ◌∷◌, ltb, leb, length, take,
  if◌then◌else◌,
}
use sing_quic_rs.Error.{
  Error, invalid_var_int, io, protocol, missing_address_length, truncated_address_length, Result,
  ok, err,
}
use sing_quic_rs.Reader.{Reader, pure, take_byte, ◌>>=◌}

-- `const MAX`
abbrev pub max_value : ℕ
max_value = 2 ^ 62 - 1

-- `for byte in output.iter_mut().rev()`: the last byte is written first.
unfoldable pub fill : ℕ → ℕ → List ℕ → List ℕ
fill zero remaining output = output
fill (suc n) remaining output = fill n (remaining / 256) ((remaining % 256) ∷ output)

unfoldable pub encoded_length : ℕ → ℕ
encoded_length value =
    if leb value 63
    then 1
    else if leb value 16_383
    then 2
    else if leb value 1_073_741_823
    then 4
    else 8

-- `match length { 1 => 0x00, 2 => 0x40, 4 => 0x80, 8 => 0xc0 }`
unfoldable pub length_tag : ℕ → ℕ
length_tag n = if leb n 1 then 0x00 else if leb n 2 then 0x40 else if leb n 4 then 0x80 else 0xc0

-- `output[0] |= tag`; the output is never empty.
unfoldable pub tag_first : ℕ → List ℕ → List ℕ
tag_first tag [] = []
tag_first tag (b ∷ rest) = bit_or b tag ∷ rest

unfoldable pub encode : ℕ → Result (List ℕ)
unfolding fill encoded_length length_tag tag_first
encode value =
    if ltb max_value value
    then err invalid_var_int
    else ok (tag_first (length_tag (encoded_length value)) (fill (encoded_length value) value []))

-- `value = (value << 8) | byte` on u64
unfoldable pub push_byte : ℕ → ℕ → ℕ
push_byte value byte = bit_or (value * 256 % 2 ^ 64) byte

-- `1usize << (first >> 6)`
unfoldable pub prefix_length : ℕ → ℕ
prefix_length first = 2 ^ (first / 64)

-- The loop `for _ in 1..length`, with the rounds left.
unfoldable pub read_rest : ℕ → ℕ → Reader ℕ
read_rest zero value = pure value
read_rest (suc n) value = do byte ← take_byte io; read_rest n (push_byte value byte)

unfoldable pub read : Reader ℕ
unfolding read_rest prefix_length take_byte
read = do first ← take_byte io; read_rest (prefix_length first - 1) (bit_and first 0x3f)

-- The loop over `&data[1..length]`
unfoldable pub push_bytes : ℕ → List ℕ → ℕ
push_bytes value [] = value
push_bytes value (byte ∷ rest) = push_bytes (push_byte value byte) rest

-- The value, and the number of bytes that it took.
unfoldable pub decode_varint : List ℕ → Result (ℕ × ℕ)
unfolding push_bytes prefix_length
decode_varint [] = err (protocol missing_address_length)
decode_varint (first ∷ rest) =
    let n = prefix_length first in
    if ltb (suc (length rest)) n
    then err (protocol truncated_address_length)
    else ok (push_bytes (bit_and first 0x3f) (take (n - 1) rest), n)
