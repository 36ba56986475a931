-- ===== src/Decimal/RoundTrip.antt =====
-- Printing a number and parsing the text, for `u16` and `u64`.
use native.Mathlib.Nat.{pow-suc}
use sing_quic_rs.Prelude.{
  ℕ, zero, suc, ◌+◌, ◌-◌, ◌*◌, ◌/◌, ◌%◌, ◌^◌, ◌≤◌, ◌<◌, ◌≡◌, ◌∙◌, refl, some, List, [], ◌∷◌, length,
  All, arith,
}
use sing_quic_rs.Decimal.{IsDigit, parse_digits, parse_uint, push_digits, to_decimal, u64_max}

parse_digits-push_digits :
    (limit fuel n : ℕ) (out : List ℕ)
    → n < 10 ^ fuel
    → n ≤ limit
    → parse_digits limit 0 (push_digits fuel n out) ≡ parse_digits limit n out
unfolding push_digits parse_digits
parse_digits-push_digits limit zero n out hf hl = let e : n ≡ 0 = omega arith in rw e
parse_digits-push_digits limit (suc fuel) n out hf hl =
    ground
      (arith, pow-suc 10 fuel, parse_digits-push_digits limit fuel (n / 10) ((n % 10 + 48) ∷ out))

push_digits-IsDigit :
    (fuel n : ℕ) (out : List ℕ) → All IsDigit out → All IsDigit (push_digits fuel n out)
unfolding push_digits
push_digits-IsDigit zero n out h = h
push_digits-IsDigit (suc fuel) n out h =
    ground (arith, push_digits-IsDigit fuel (n / 10) ((n % 10 + 48) ∷ out))

length-push_digits : (fuel n : ℕ) (out : List ℕ) → length out ≤ length (push_digits fuel n out)
unfolding push_digits
length-push_digits zero n out = omega arith
length-push_digits (suc fuel) n out =
    ground (arith, length-push_digits fuel (n / 10) ((n % 10 + 48) ∷ out))

pub to_decimal-IsDigit : (n : ℕ) → All IsDigit (to_decimal n)
unfolding to_decimal
to_decimal-IsDigit n = push_digits-IsDigit 20 n [] tt

-- On a text of digits the sign is no concern.
pub parse_uint_digits :
    (limit : ℕ) (s : List ℕ)
    → All IsDigit s
    → 1 ≤ length s
    → parse_uint limit s ≡ parse_digits limit 0 s
unfolding parse_uint
parse_uint_digits limit [] h len = absurd (omega arith)
parse_uint_digits limit (c ∷ []) h len = refl
parse_uint_digits limit (c ∷ d ∷ rest) h len = ground arith

one-le-length : (n : ℕ) → 1 ≤ length (to_decimal n)
unfolding push_digits to_decimal
one-le-length n = ground (arith, length-push_digits 19 (n / 10) ((n % 10 + 48) ∷ []))

-- A number within the limit of its type, a `u64` at most, is read back from its text.
pub parse_uint-to_decimal :
    (limit n : ℕ) → n ≤ limit → limit ≤ u64_max → parse_uint limit (to_decimal n) ≡ some n
parse_uint-to_decimal limit n hn hl =
    parse_uint_digits limit (to_decimal n) (to_decimal-IsDigit n) (one-le-length n)
    ∙ unfold to_decimal in
      parse_digits-push_digits limit 20 n [] (omega arith) hn ∙ unfold parse_digits in refl

parse_digits-le :
    (limit acc n : ℕ) (s : List ℕ) → acc ≤ limit → parse_digits limit acc s ≡ some n → n ≤ limit
unfolding parse_digits
parse_digits-le limit acc n [] ha e = ground arith
parse_digits-le limit acc n (c ∷ s) ha e =
    ground (arith, parse_digits-le limit (acc * 10 + (c - 48)) n s)

-- A parsed number is within the limit of its type.
pub parse_uint-le : (limit n : ℕ) (s : List ℕ) → parse_uint limit s ≡ some n → n ≤ limit
unfolding parse_uint
parse_uint-le limit n [] e = cc
parse_uint-le limit n (c ∷ []) e = parse_digits-le limit 0 n (c ∷ []) (omega arith) e
parse_uint-le limit n (c ∷ d ∷ rest) e =
    ground (arith, parse_digits-le limit 0 n (d ∷ rest), parse_digits-le limit 0 n (c ∷ d ∷ rest))
