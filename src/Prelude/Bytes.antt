-- ===== src/Prelude/Bytes.antt =====
-- Bytes and the big-endian integers of the wire formats (`to_be_bytes`, `from_be_bytes`).
use sing_quic_rs.Prelude.Tests.{◌==◌}
use Prim.Native.Nat.{ℕ, ◌+◌, ◌*◌, ◌/◌, ◌%◌, ◌<◌}
use mathlib.Core.Path.{◌≡◌, refl}
use mathlib.Core.List.{List, [], ◌∷◌}
use mathlib.Core.Bool.{Bool, true, false, ◌&&◌}
use native.Mathlib.Omega.{arith}

abbrev pub IsByte : ℕ → Type 0
IsByte b = b < 256

-- u16::to_be_bytes and u16::from_be_bytes
unfoldable pub be_u16 : ℕ → List ℕ
be_u16 n = (n / 256 % 256) ∷ (n % 256) ∷ []

unfoldable pub from_be_u16 : ℕ → ℕ → ℕ
from_be_u16 a b = a * 256 + b

-- u32::to_be_bytes and u32::from_be_bytes
unfoldable pub be_u32 : ℕ → List ℕ
be_u32 n = (n / 0x1000000 % 256) ∷ (n / 0x10000 % 256) ∷ (n / 256 % 256) ∷ (n % 256) ∷ []

unfoldable pub from_be_u32 : ℕ → ℕ → ℕ → ℕ → ℕ
from_be_u32 a b c d = a * 0x1000000 + b * 0x10000 + c * 256 + d

pub from_be_u16-bytes : (n : ℕ) → n < 0x10000 → from_be_u16 (n / 256 % 256) (n % 256) ≡ n
unfolding from_be_u16
from_be_u16-bytes n h = omega arith

pub from_be_u32-bytes :
    (n : ℕ)
    → n < 0x100000000
    → from_be_u32 (n / 0x1000000 % 256) (n / 0x10000 % 256) (n / 256 % 256) (n % 256) ≡ n
unfolding from_be_u32
from_be_u32-bytes n h = omega arith

-- Equality of byte strings, as `==` on Rust's `str` and slices.
unfoldable pub bytes_eq : List ℕ → List ℕ → Bool
bytes_eq [] [] = true
bytes_eq [] (y ∷ ys) = false
bytes_eq (x ∷ xs) [] = false
bytes_eq (x ∷ xs) (y ∷ ys) = (x == y) && bytes_eq xs ys

pub bytes_eq_refl : (xs : List ℕ) → bytes_eq xs xs ≡ true
unfolding bytes_eq
bytes_eq_refl [] = refl
bytes_eq_refl (x ∷ xs) = ground (arith, bytes_eq_refl xs)

pub bytes_eq→eq : (xs ys : List ℕ) → bytes_eq xs ys ≡ true → xs ≡ ys
unfolding bytes_eq
bytes_eq→eq [] [] h = refl
bytes_eq→eq [] (y ∷ ys) h = cc
bytes_eq→eq (x ∷ xs) [] h = cc
bytes_eq→eq (x ∷ xs) (y ∷ ys) h = ground (arith, bytes_eq→eq xs ys)
