-- ===== src/Prelude/Bits.antt =====
-- The masks and shifts that the wire formats use, read as arithmetic: tables over a byte, and the
-- law that joins a shifted number with a byte.
use Prim.Native.Nat.{
  ℕ, zero, suc, ◌+◌, ◌*◌, ◌/◌, ◌%◌, ◌≤◌, ◌<◌, ◌^◌, max, bit_and, bit_or, digits, bit_or-bitwise,
}
use mathlib.Core.Path.{◌≡◌, refl, ap, ◌∙◌}
use mathlib.Core.Bool.{Bool, true, ◌&&◌}
use native.Mathlib.Omega.{arith}
use native.Mathlib.Nat.{pow-suc}
use sing_quic_rs.Prelude.Tests.{◌==◌, ==_iff}

every_below : ℕ → (ℕ → Bool) → Bool
every_below zero p = true
every_below (suc n) p = p n && every_below n p

every_below_sound : (n : ℕ) (p : ℕ → Bool) (x : ℕ) → every_below n p ≡ true → x < n → p x ≡ true
unfolding every_below
every_below_sound zero p x h lt = absurd (omega arith)
every_below_sound (suc n) p x h lt = ground (arith, every_below_sound n p x)

-- `b & 0x3f`
low_six_table : every_below 256 (λ b. bit_and b 0x3f == b % 64) ≡ true
unfolding every_below
low_six_table = refl

pub low_six : (b : ℕ) → b < 256 → bit_and b 0x3f ≡ b % 64
low_six b h = (==_iff _ _).0 (every_below_sound 256 _ b low_six_table h)

-- `b | tag` where the tag's two bits are free.
tag_table :
    every_below 64 (λ b.
      (bit_or b 0x00 == b)
      && (bit_or b 0x40 == b + 64)
      && (bit_or b 0x80 == b + 128)
      && (bit_or b 0xc0 == b + 192))
    ≡ true
unfolding every_below
tag_table = refl

pub set_tag :
    (b : ℕ)
    → b < 64
    → (bit_or b 0x00 ≡ b)
      × (bit_or b 0x40 ≡ b + 64)
      × (bit_or b 0x80 ≡ b + 128)
      × (bit_or b 0xc0 ≡ b + 192)
set_tag b h = let both = every_below_sound 64 _ b tag_table h in ground (arith, both)

abbrev or_digits : ℕ → ℕ → ℕ → ℕ
or_digits n a b = digits (λ b. b) max n a b

or_digits-zero : (n a : ℕ) → a ≤ n → or_digits n a 0 ≡ a
or_digits-zero zero zero h = refl
or_digits-zero zero (suc a) h = absurd (omega arith)
or_digits-zero (suc n) zero h = refl
or_digits-zero (suc n) (suc a) h = omega (arith, or_digits-zero n (suc a / 2) (omega arith))

-- The low `k` digits of `a` are free, and `b` has no others.
or_digits-add : (k n x a b : ℕ) → a ≡ x * 2 ^ k → b < 2 ^ k → a ≤ n → or_digits n a b ≡ a + b
or_digits-add zero n x a b e h le =
    let b0 : b ≡ 0 = omega arith in rw b0 (or_digits-zero n a le ∙ omega arith)
or_digits-add (suc k) zero x zero b e h le = omega arith
or_digits-add (suc k) zero x (suc a) b e h le = absurd (omega arith)
or_digits-add (suc k) (suc n) x zero b e h le = omega arith
or_digits-add (suc k) (suc n) x (suc a) b e h le =
    let double : x * 2 ^ suc k ≡ 2 * (x * 2 ^ k) =
      omega (arith, ap (λ (t : ℕ). x * t) (pow-suc 2 k)) in
    omega (
      arith,
      pow-suc 2 k,
      or_digits-add k n x (suc a / 2) (b / 2) (omega arith) (omega (arith, pow-suc 2 k))
          (omega arith),
    )

-- `(x << 8) | b`
pub or_byte : (x b : ℕ) → b < 256 → bit_or (x * 256) b ≡ x * 256 + b
or_byte x b h =
    bit_or-bitwise (x * 256) b ∙ or_digits-add 8 (x * 256) x (x * 256) b refl h (omega arith)

-- A tagged byte gives its tag back in the top two bits, and its value in the low six.
abbrev untags : ℕ → ℕ → Bool
untags k b = (bit_or b (k * 64) / 64 == k) && (bit_and (bit_or b (k * 64)) 0x3f == b)

untag_table : every_below 64 (λ b. untags 0 b && untags 1 b && untags 2 b && untags 3 b) ≡ true
unfolding every_below
untag_table = refl

pub untag :
    (b : ℕ)
    → b < 64
    → ((bit_or b 0x00 / 64 ≡ 0) × (bit_and (bit_or b 0x00) 0x3f ≡ b))
      × ((bit_or b 0x40 / 64 ≡ 1) × (bit_and (bit_or b 0x40) 0x3f ≡ b))
      × ((bit_or b 0x80 / 64 ≡ 2) × (bit_and (bit_or b 0x80) 0x3f ≡ b))
      × ((bit_or b 0xc0 / 64 ≡ 3) × (bit_and (bit_or b 0xc0) 0x3f ≡ b))
untag b h = let both = every_below_sound 64 _ b untag_table h in ground (arith, both)
