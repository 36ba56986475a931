-- ===== src/Decimal.antt =====
-- The decimal text of an unsigned integer as the standard library reads and writes it
-- (`u16::from_str`, `u64::from_str`, `to_string`), which src/address.rs and the rate headers of
-- src/hysteria2/protocol.rs use. A text is its list of bytes.
pub mod RoundTrip
pub mod Numerals
use sing_quic_rs.Prelude.{
  ℕ, zero, suc, ◌+◌, ◌-◌, ◌*◌, ◌/◌, ◌%◌, ◌≤◌, ◌<◌, ◌≡◌, Bool, true, false, ◌&&◌, Option, none, some,
  List, [], ◌∷◌, ltb, leb, ◌==◌, if◌then◌else◌,
}

abbrev pub IsDigit : ℕ → Type 0
IsDigit c = (48 ≤ c) × (c ≤ 57)

abbrev pub is_digit : ℕ → Bool
is_digit c = leb 48 c && leb c 57

-- Checked `acc * 10 + digit`: `none` on a byte that is no digit, or past `limit`.
unfoldable pub parse_digits : ℕ → ℕ → List ℕ → Option ℕ
parse_digits limit acc [] = some acc
parse_digits limit acc (c ∷ rest) =
    let next = acc * 10 + (c - 48) in
    let result = parse_digits limit next rest in
    if is_digit c && leb next limit then result else none

-- A leading `+` is skipped if something follows it, and the empty text is refused.
unfoldable pub parse_uint : ℕ → List ℕ → Option ℕ
unfolding parse_digits
parse_uint limit [] = none
parse_uint limit (c ∷ []) = parse_digits limit 0 (c ∷ [])
parse_uint limit (c ∷ d ∷ rest) =
    if c == b'+' then parse_digits limit 0 (d ∷ rest) else parse_digits limit 0 (c ∷ d ∷ rest)

abbrev pub u16_max : ℕ
u16_max = 65_535

abbrev pub u64_max : ℕ
u64_max = 18_446_744_073_709_551_615

unfoldable pub push_digits : ℕ → ℕ → List ℕ → List ℕ
push_digits zero n out = out
push_digits (suc fuel) n out =
    let more = push_digits fuel (n / 10) ((n % 10 + 48) ∷ out) in
    if ltb n 10 then (n % 10 + 48) ∷ out else more

-- Twenty digits are enough for a u64.
unfoldable pub to_decimal : ℕ → List ℕ
unfolding push_digits
to_decimal n = push_digits 20 n []
