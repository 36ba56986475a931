-- ===== src/VarInt/Bounds.antt =====
-- What src/varint.rs accepts, and the shape of what it writes.
use sing_quic_rs.Prelude.{
  ℕ, ◌+◌, ◌-◌, ◌^◌, ◌≤◌, ◌<◌, ◌≡◌, ap, List, [], ◌∷◌, length, All, arith, suc, zero, ◌↔◌, ◌*◌, ◌/◌,
  ◌%◌, refl,
}
use native.Mathlib.Decide.{dec_le}
use native.Mathlib.Nat.{pow-suc, mul-le-mul_right}
use sing_quic_rs.Prelude.Bits.{low_six, or_byte}
use sing_quic_rs.Prelude.Bytes.{IsByte}
use sing_quic_rs.Error.{invalid_var_int, ok, err}
use sing_quic_rs.Reader.{take_byte}
use sing_quic_rs.VarInt.{
  max_value, fill, encoded_length, length_tag, tag_first, encode, push_byte, read_rest, read,
}

pub push_byte_lem : (v b : ℕ) → v < 2 ^ 56 → b < 256 → push_byte v b ≡ v * 256 + b
unfolding push_byte
push_byte_lem v b hv hb = ground (arith, or_byte v b hb)

pub length-fill : (n v : ℕ) (out : List ℕ) → length (fill n v out) ≡ n + length out
unfolding fill
length-fill zero v out = omega arith
length-fill (suc n) v out = omega (arith, length-fill n (v / 256) ((v % 256) ∷ out))

pub fill-IsByte : (n v : ℕ) (out : List ℕ) → All IsByte out → All IsByte (fill n v out)
unfolding fill
fill-IsByte zero v out h = h
fill-IsByte (suc n) v out h = fill-IsByte n (v / 256) ((v % 256) ∷ out) (omega arith, h)

-- What `encode` writes.
abbrev pub encoding : ℕ → List ℕ
encoding v = tag_first (length_tag (encoded_length v)) (fill (encoded_length v) v [])

pub encode-encoding : (v : ℕ) → v ≤ max_value → encode v ≡ ok (encoding v)
unfolding encode
encode-encoding v h = ground arith

-- The four arms of `match value`.
pub data LengthCase (v : ℕ) : Type 0 where
  one : v ≤ 63 → encoded_length v ≡ 1 → LengthCase v
  two : 63 < v → v ≤ 16_383 → encoded_length v ≡ 2 → LengthCase v
  four : 16_383 < v → v ≤ 1_073_741_823 → encoded_length v ≡ 4 → LengthCase v
  eight : 1_073_741_823 < v → encoded_length v ≡ 8 → LengthCase v

pub encoded_length_cases : (v : ℕ) → LengthCase v
encoded_length_cases v = elim (dec_le v 63) [
  | yes a ↦ one a (unfold encoded_length in ground arith)
  | no a ↦ elim (dec_le v 16_383) [
    | yes b ↦ two (omega arith) b (unfold encoded_length in ground arith)
    | no b ↦ elim (dec_le v 1_073_741_823) [
      | yes c ↦ four (omega arith) c (unfold encoded_length in ground arith)
      | no c ↦ eight (omega arith) (unfold encoded_length in ground arith)
    ]
  ]
]

encoded_length_le :
    (v : ℕ)
    → (encoded_length v ≤ 8)
      × (v ≤ 1_073_741_823 → encoded_length v ≤ 4)
      × (v ≤ 16_383 → encoded_length v ≤ 2)
      × (v ≤ 63 → encoded_length v ≤ 1)
unfolding encoded_length
encoded_length_le v = (ground arith, λ h. ground arith, λ h. ground arith, λ h. ground arith)

length-tag_first : (tag : ℕ) (out : List ℕ) → length (tag_first tag out) ≡ length out
unfolding tag_first
length-tag_first tag [] = refl
length-tag_first tag (b ∷ rest) = refl

pub length-encoding : (v : ℕ) → length (encoding v) ≡ encoded_length v
length-encoding v = omega (
  arith,
  length-tag_first (length_tag (encoded_length v)) (fill (encoded_length v) v []),
  length-fill (encoded_length v) v [],
)

-- `encode` fails exactly on the values above `MAX`, always with `InvalidVarInt`.
encode-err_iff : (v : ℕ) → (encode v ≡ err invalid_var_int) ↔ (max_value < v)
unfolding encode
encode-err_iff v = (λ e. ground arith, λ h. ground arith)

pub grow : (acc n : ℕ) → acc * 256 ^ suc n ≡ 256 * (acc * 256 ^ n)
grow acc n = omega (arith, ap (λ (t : ℕ). acc * t) (pow-suc 256 n))

le-mul-pow : (acc n : ℕ) → acc ≤ acc * 256 ^ n
le-mul-pow acc zero = omega arith
le-mul-pow acc (suc n) = omega (arith, grow acc n, le-mul-pow acc n)

scale : (a b p : ℕ) → a < b → a * p + p ≤ b * p
scale a b p h = omega (arith, mul-le-mul_right p h)

-- The loop takes `n` bytes, and the value stays in the range that they span.
read_rest-takes :
    (n acc v : ℕ) (s rest : List ℕ)
    → All IsByte s
    → acc * 256 ^ n + 256 ^ n ≤ 2 ^ 62
    → read_rest n acc s ≡ ok (v, rest)
    → (v < acc * 256 ^ n + 256 ^ n) × (length s ≡ n + length rest)
unfolding read_rest take_byte
read_rest-takes zero acc v s rest hs fits e = ground arith
read_rest-takes (suc n) acc v [] rest hs fits e = cc
read_rest-takes (suc n) acc v (b ∷ s) rest hs fits e =
    let small : acc < 2 ^ 55 = omega (arith, grow acc n, le-mul-pow acc n) in
    let next = push_byte_lem acc b (omega arith) hs.0 in
    let below = scale b 256 (256 ^ n) hs.0 in
    let ih =
      read_rest-takes n (acc * 256 + b) v s rest hs.1 (omega (arith, grow acc n, pow-suc 256 n))
        (rw (← next) e) in
    omega (arith, ih, grow acc n, pow-suc 256 n)

read-takes :
    (k b v : ℕ) (s rest : List ℕ)
    → b < 256
    → b / 64 ≡ k
    → All IsByte s
    → read (b ∷ s) ≡ ok (v, rest)
    → (64 * 256 ^ (2 ^ k - 1) ≤ 2 ^ 62)
    → (v < 64 * 256 ^ (2 ^ k - 1)) × (length s ≡ 2 ^ k - 1 + length rest)
unfolding read
read-takes k b v s rest hb hk hs e fits =
    let m : ℕ = 2 ^ k - 1 in
    let low : (b % 64) * 256 ^ m + 256 ^ m ≤ 64 * 256 ^ m =
      scale (b % 64) 64 (256 ^ m) (omega arith) in
    let e' : read_rest m (b % 64) s ≡ ok (v, rest) = rw (← hk, ← low_six b hb) e in
    omega (arith, read_rest-takes m (b % 64) v s rest hs (omega arith) e', low)

-- Whatever the bytes, a successful `read` returns a QUIC integer (at most `MAX`), and takes at least
-- as many bytes as `encode` writes for it: `encode` writes the shortest form.
pub read_shortest :
    (s rest : List ℕ) (v : ℕ)
    → All IsByte s
    → read s ≡ ok (v, rest)
    → (v ≤ max_value) × (length (encoding v) + length rest ≤ length s)
read_shortest [] rest v hs e = unfold read take_byte in cc
read_shortest (b ∷ s) rest v hs e = rw length-encoding (by_prefix (b / 64) refl)
  where
    by_prefix :
        (k : ℕ) → b / 64 ≡ k → (v ≤ max_value) × (encoded_length v + length rest ≤ suc (length s))
    by_prefix zero hk =
        ground (arith, read-takes 0 b v s rest hs.0 hk hs.1 e (omega arith), encoded_length_le v)
    by_prefix (suc zero) hk =
        ground (arith, read-takes 1 b v s rest hs.0 hk hs.1 e (omega arith), encoded_length_le v)
    by_prefix (suc (suc zero)) hk =
        ground (arith, read-takes 2 b v s rest hs.0 hk hs.1 e (omega arith), encoded_length_le v)
    by_prefix (suc (suc (suc zero))) hk =
        ground (arith, read-takes 3 b v s rest hs.0 hk hs.1 e (omega arith), encoded_length_le v)
    by_prefix (suc (suc (suc (suc k)))) hk = absurd (omega arith)
