-- ===== src/Hysteria2/Protocol/Rate.antt =====
-- The `Hysteria-CC-RX` header of src/hysteria2/protocol.rs. `to_str` is
-- `http::HeaderValue::to_str`, which accepts visible ASCII.
pub mod Reading
use sing_quic_rs.Prelude.{
  ℕ, ◌≤◌, ◌≡◌, false, Option, none, some, List, [], ◌∷◌, All, arith, if◌then◌else◌, Bool-cases,
  Option-cases, inl, inr,
}
use sing_quic_rs.Prelude.Bytes.{bytes_eq, bytes_eq→eq}
use sing_quic_rs.Decimal.{IsDigit, parse_uint, to_decimal, u64_max}
use sing_quic_rs.Decimal.RoundTrip.{parse_uint-to_decimal, parse_uint-le, to_decimal-IsDigit}

pub data CongestionReceive : Type 0 where
  auto : CongestionReceive
  rate : ℕ → CongestionReceive

-- "auto"
abbrev pub auto_text : List ℕ
auto_text = b'a' ∷ b'u' ∷ b't' ∷ b'o' ∷ []

abbrev pub rate_or_zero : Option ℕ → CongestionReceive
rate_or_zero none = rate 0
rate_or_zero (some n) = rate n

unfoldable pub parse_congestion_text : List ℕ → CongestionReceive
parse_congestion_text text =
    if bytes_eq text auto_text then auto else rate_or_zero (parse_uint u64_max text)

module _ (to_str : List ℕ → Option (List ℕ)) where
  unfoldable pub parse_congestion_receive : Option (List ℕ) → CongestionReceive
  unfolding parse_congestion_text
  parse_congestion_receive none = rate 0
  parse_congestion_receive (some value) = elim (to_str value) [
    | none ↦ rate 0
    | some text ↦ parse_congestion_text text
  ]

unfoldable pub congestion_receive_value : CongestionReceive → List ℕ
congestion_receive_value auto = auto_text
congestion_receive_value (rate n) = to_decimal n

-- A rate that fits the `u64` of the source.
abbrev pub IsRate : CongestionReceive → Type 0
IsRate auto = Unit {0}
IsRate (rate n) = n ≤ u64_max

not-IsDigit : ¬ (All IsDigit auto_text)
not-IsDigit h = omega arith

number_ne_auto : (n : ℕ) → bytes_eq (to_decimal n) auto_text ≡ false
number_ne_auto n = elim (Bool-cases (bytes_eq (to_decimal n) auto_text)) [
  | inr e ↦ e
  | inl e ↦ absurd (not-IsDigit (rw (bytes_eq→eq _ _ e) at (to_decimal-IsDigit n)))
]

-- The value of the header reads back as the announcement that it was written from, if `to_str`
-- accepts the header's text.
pub parse-congestion_receive_value :
    (to_str : List ℕ → Option (List ℕ)) (value : CongestionReceive)
    → IsRate value
    → to_str (congestion_receive_value value) ≡ some (congestion_receive_value value)
    → parse_congestion_receive to_str (some (congestion_receive_value value)) ≡ value
unfolding congestion_receive_value
parse-congestion_receive_value to_str auto h e =
    unfold parse_congestion_receive bytes_eq in rw (e, parse_congestion_receive)
parse-congestion_receive_value to_str (rate n) h e =
    unfold parse_congestion_receive in
    rw (
      e,
      parse_congestion_receive,
      number_ne_auto n,
      parse_uint-to_decimal u64_max n h (omega arith),
    )
