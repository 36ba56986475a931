-- ===== src/VarInt/RoundTrip.antt =====
-- Writing and reading back (`encode` and `read` of src/varint.rs), and the agreement of the stream
-- decoder with the slice decoder `decode_varint` of src/hysteria2/packet.rs.
use Prim.Native.Nat.{bit_and}
use native.Mathlib.Nat.{pow-suc}
use sing_quic_rs.Prelude.{
  ℕ, zero, suc, ◌+◌, ◌-◌, ◌*◌, ◌/◌, ◌%◌, ◌^◌, ◌≤◌, ◌<◌, ◌≡◌, ◌∙◌, ap, refl, List, [], ◌∷◌, ◌++◌,
  length, take, drop, arith, ltb, if◌then◌else◌,
}
use sing_quic_rs.Prelude.Bits.{untag}
use sing_quic_rs.Error.{io, Result, ok, err}
use sing_quic_rs.Reader.{take_byte}
use sing_quic_rs.VarInt.{
  max_value, fill, length_tag, tag_first, encode, push_byte, prefix_length, read_rest, read,
  push_bytes, decode_varint,
}
use sing_quic_rs.VarInt.Bounds.{
  grow, push_byte_lem, encoding, encode-encoding, encoded_length_cases, one, two, four, eight,
}

read_rest_step :
    (m value byte : ℕ) (rest : List ℕ)
    → value < 2 ^ 56
    → byte < 256
    → read_rest (suc m) value (byte ∷ rest) ≡ read_rest m (value * 256 + byte) rest
unfolding read_rest take_byte
read_rest_step m value byte rest hv hb = rw (push_byte_lem value byte hv hb)

-- The reading loop undoes the writing loop on the low `n` bytes, `w`, of the number.
read_rest-fill :
    (n m k acc h w v : ℕ) (out : List ℕ)
    → k ≡ n + m
    → v ≡ h * 256 ^ n + w
    → w < 256 ^ n
    → acc * 256 ^ n + w < 2 ^ 62
    → read_rest k acc (fill n v out) ≡ read_rest m (acc * 256 ^ n + w) out
unfolding fill
read_rest-fill zero m k acc h w v out hk hv hw fits =
    let ek : k ≡ m = omega arith in let ev : acc * 256 ^ 0 + w ≡ acc = omega arith in rw (ek, ev)
read_rest-fill (suc n) m k acc h w v out hk hv hw fits =
    let q : v / 256 ≡ h * 256 ^ n + w / 256 = omega (arith, grow h n) in
    let r : (acc * 256 ^ n + w / 256) * 256 + v % 256 ≡ acc * 256 ^ suc n + w =
      omega (arith, grow acc n, grow h n) in
    read_rest-fill n (suc m) k acc h (w / 256) (v / 256) ((v % 256) ∷ out) (omega arith) q
      (omega (arith, pow-suc 256 n)) (omega (arith, grow acc n))
    ∙ read_rest_step m (acc * 256 ^ n + w / 256) (v % 256) out (omega (arith, grow acc n))
        (omega arith)
    ∙ ap (λ t. read_rest m t out) r

-- The first byte decides the rounds of the loop and the value to start from.
read_tagged :
    (b n start : ℕ) (rest : List ℕ)
    → b / 64 ≡ n
    → bit_and b 0x3f ≡ start
    → read (b ∷ rest) ≡ read_rest (2 ^ n - 1) start rest
unfolding read
read_tagged b n start rest hn hs = rw (hn, hs)

module _ (v : ℕ) (rest : List ℕ) where
  read-one : v ≤ 63 → read (tag_first 0x00 (fill 1 v rest)) ≡ ok (v, rest)
  unfolding read_rest fill tag_first
  read-one h =
      let t = (untag (v % 256) (omega arith)).0 in
      let e : v % 256 ≡ v = omega arith in read_tagged _ 0 (v % 256) rest t.0 t.1 ∙ rw e

  read-two : v ≤ 16_383 → read (tag_first 0x40 (fill 2 v rest)) ≡ ok (v, rest)
  unfolding fill tag_first
  read-two h =
      let t = (untag (v / 256 % 256) (omega arith)).1 in
      let e : v / 256 % 256 * 256 ^ 1 + v % 256 ≡ v = omega arith in
      read_tagged _ 1 (v / 256 % 256) _ t.0 t.1
      ∙ read_rest-fill 1 0 1 (v / 256 % 256) (v / 256) (v % 256) v rest refl (omega arith)
          (omega arith) (omega arith)
      ∙ rw e (unfold read_rest in refl)

  read-four : v ≤ 1_073_741_823 → read (tag_first 0x80 (fill 4 v rest)) ≡ ok (v, rest)
  unfolding fill tag_first
  read-four h =
      let top : ℕ = v / 256 / 256 / 256 % 256 in
      let t = (untag top (omega arith)).2 in
      let e : top * 256 ^ 3 + v % 256 ^ 3 ≡ v = omega arith in
      read_tagged _ 2 top _ t.0 t.1
      ∙ read_rest-fill 3 0 3 top (v / 256 ^ 3) (v % 256 ^ 3) v rest refl (omega arith) (omega arith)
          (omega arith)
      ∙ rw e (unfold read_rest in refl)

  read-eight : v ≤ max_value → read (tag_first 0xc0 (fill 8 v rest)) ≡ ok (v, rest)
  unfolding fill tag_first
  read-eight h =
      let top : ℕ = v / 256 / 256 / 256 / 256 / 256 / 256 / 256 % 256 in
      let t = (untag top (omega arith)).3 in
      let e : top * 256 ^ 7 + v % 256 ^ 7 ≡ v = omega arith in
      read_tagged _ 3 top _ t.0 t.1
      ∙ read_rest-fill 7 0 7 top (v / 256 ^ 7) (v % 256 ^ 7) v rest refl (omega arith) (omega arith)
          (omega arith)
      ∙ rw e (unfold read_rest in refl)

pub read-encoding :
    (v : ℕ) (rest : List ℕ) → v ≤ max_value → read (encoding v ++ rest) ≡ ok (v, rest)
unfolding length_tag fill tag_first
read-encoding v rest h = elim (encoded_length_cases v) [
  | one p e ↦ rw e (read-one v rest p)
  | two _ p e ↦ rw e (read-two v rest p)
  | four _ p e ↦ rw e (read-four v rest p)
  | eight _ e ↦ rw e (read-eight v rest h)
]

-- Every value up to `MAX` is encoded, and `read` takes the value back from the front of any stream
-- that starts with its encoding, and leaves the bytes behind it.
pub read-encode :
    (v : ℕ) (rest : List ℕ)
    → v ≤ max_value
    → (bytes : List ℕ) × (encode v ≡ ok bytes) × (read (bytes ++ rest) ≡ ok (v, rest))
read-encode v rest h = (encoding v, encode-encoding v h, read-encoding v rest h)

two_pow_pos : (k : ℕ) → 1 ≤ 2 ^ k
two_pow_pos zero = omega arith
two_pow_pos (suc k) = omega (arith, pow-suc 2 k, two_pow_pos k)

read_rest-push_bytes :
    (n v : ℕ) (s : List ℕ)
    → read_rest n v s
      ≡ (if ltb (length s) n then err io else ok (push_bytes v (take n s), drop n s))
unfolding read_rest take_byte push_bytes
read_rest-push_bytes zero v s = ground arith
read_rest-push_bytes (suc n) v [] = ground arith
read_rest-push_bytes (suc n) v (b ∷ s) = ground (arith, read_rest-push_bytes n (push_byte v b) s)

-- What a reader sees of a slice decoder's answer: the value and the bytes behind it, or the end of
-- the stream.
abbrev pub as_stream : List ℕ → Result (ℕ × ℕ) → Result (ℕ × List ℕ)
as_stream s (ok (v, n)) = ok (v, drop n s)
as_stream s (err e) = err io

-- On every input the stream decoder and the slice decoder agree: they return the same value, `read`
-- leaves the bytes behind the number that `decode_varint` counted, and they fail together.
pub read-decode_varint : (s : List ℕ) → read s ≡ as_stream s (decode_varint s)
unfolding read decode_varint take_byte
read-decode_varint [] = refl
read-decode_varint (b ∷ s) =
    let pos : prefix_length b ≡ suc (prefix_length b - 1) = omega (arith, two_pow_pos (b / 64)) in
    ground (arith, pos, read_rest-push_bytes (prefix_length b - 1) (bit_and b 0x3f) s)
