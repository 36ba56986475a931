-- ===== src/Decimal/Numerals.antt =====
-- Which texts the standard library reads as an unsigned integer, and as which one.
use sing_quic_rs.Prelude.{
  ℕ, ◌+◌, ◌-◌, ◌*◌, ◌≤◌, ◌≡◌, ◌∙◌, ◌⊎◌, inl, inr, refl, ap, some, List, [], ◌∷◌, length, All, arith,
  Bool-cases, ◌==◌, ==_iff,
}
use sing_quic_rs.Decimal.{IsDigit, parse_digits, parse_uint}
use sing_quic_rs.Decimal.RoundTrip.{parse_uint_digits}

-- The number behind `acc` that the digits go on with.
abbrev pub value : ℕ → List ℕ → ℕ
value acc [] = acc
value acc (c ∷ rest) = value (acc * 10 + (c - 48)) rest

-- Decimal digits, at least one, of the number `n`; a plus may stand in front.
pub record IsNumeral (text : List ℕ) (n : ℕ) : Type 0 where
  pub digits : List ℕ
  pub signed : (text ≡ digits) ⊎ (text ≡ b'+' ∷ digits)
  pub some_digit : 1 ≤ length digits
  pub all_digits : All IsDigit digits
  pub same_value : value 0 digits ≡ n

value-ge : (acc : ℕ) (s : List ℕ) → acc ≤ value acc s
value-ge acc [] = omega arith
value-ge acc (c ∷ s) = let more = value-ge (acc * 10 + (c - 48)) s in omega (arith, more)

parse_digits-some :
    (limit acc n : ℕ) (s : List ℕ)
    → parse_digits limit acc s ≡ some n
    → All IsDigit s × (value acc s ≡ n)
unfolding parse_digits
parse_digits-some limit acc n [] e = (tt, cc)
parse_digits-some limit acc n (c ∷ s) e =
    let first : IsDigit c = (ground (arith, e), ground (arith, e)) in
    let rest : parse_digits limit (acc * 10 + (c - 48)) s ≡ some n = ground (arith, e) in
    let (digits, same) = parse_digits-some limit (acc * 10 + (c - 48)) n s rest in
    ((first, digits), same)

parse_digits-value :
    (limit acc : ℕ) (s : List ℕ)
    → All IsDigit s
    → value acc s ≤ limit
    → parse_digits limit acc s ≡ some (value acc s)
unfolding parse_digits
parse_digits-value limit acc [] h le = refl
parse_digits-value limit acc (c ∷ s) h le =
    let next = value-ge (acc * 10 + (c - 48)) s in
    let rest = parse_digits-value limit (acc * 10 + (c - 48)) s h.1 le in
    ground (arith, next, rest, h.0.0, h.0.1)

-- What is read is a numeral.
pub parse_uint-IsNumeral :
    (limit n : ℕ) (text : List ℕ) → parse_uint limit text ≡ some n → IsNumeral text n
unfolding parse_uint
parse_uint-IsNumeral limit n [] e = absurd cc
parse_uint-IsNumeral limit n (c ∷ []) e =
    let (digits, same) = parse_digits-some limit 0 n (c ∷ []) e in
    record {
      digits = c ∷ [];
      signed = inl refl;
      some_digit = omega arith;
      all_digits = digits;
      same_value = same;
    }
parse_uint-IsNumeral limit n (c ∷ d ∷ rest) e = elim (Bool-cases (c == b'+')) [
  | inl plus ↦
      let front : c ≡ b'+' = (==_iff c b'+').0 plus in
      let read : parse_digits limit 0 (d ∷ rest) ≡ some n = ground (arith, e, plus) in
      let (digits, same) = parse_digits-some limit 0 n (d ∷ rest) read in
      record {
        digits = d ∷ rest;
        signed = inr (ap (λ x. x ∷ d ∷ rest) front);
        some_digit = omega arith;
        all_digits = digits;
        same_value = same;
      }
  | inr other ↦
      let read : parse_digits limit 0 (c ∷ d ∷ rest) ≡ some n = ground (arith, e, other) in
      let (digits, same) = parse_digits-some limit 0 n (c ∷ d ∷ rest) read in
      record {
        digits = c ∷ d ∷ rest;
        signed = inl refl;
        some_digit = omega arith;
        all_digits = digits;
        same_value = same;
      }
]

parse_uint-plus :
    (limit : ℕ) (digits : List ℕ)
    → 1 ≤ length digits
    → parse_uint limit (b'+' ∷ digits) ≡ parse_digits limit 0 digits
unfolding parse_uint
parse_uint-plus limit [] h = absurd (omega arith)
parse_uint-plus limit (d ∷ rest) h = refl

-- Every numeral within the limit is read.
pub IsNumeral-parse_uint :
    (limit n : ℕ) (text : List ℕ) → IsNumeral text n → n ≤ limit → parse_uint limit text ≡ some n
IsNumeral-parse_uint limit n text d le =
    let small : value 0 d.digits ≤ limit = rw d.same_value le in
    let read : parse_digits limit 0 d.digits ≡ some n =
      parse_digits-value limit 0 d.digits d.all_digits small ∙ ap some d.same_value in
    elim d.signed [
      | inl plain ↦ rw plain (parse_uint_digits limit d.digits d.all_digits d.some_digit ∙ read)
      | inr plus ↦ rw plus (parse_uint-plus limit d.digits d.some_digit ∙ read)
    ]
