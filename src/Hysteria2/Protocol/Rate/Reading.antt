-- ===== src/Hysteria2/Protocol/Rate/Reading.antt =====
-- What src/hysteria2/protocol.rs reads from a rate header, whatever it holds.
use sing_quic_rs.Prelude.{
  ℕ, ◌≤◌, ◌<◌, ◌≡◌, ◌≢◌, ◌∙◌, ◌⊎◌, inl, inr, refl, sym, true, false, Option, none, some, List,
  arith, Bool-cases,
}
use sing_quic_rs.Prelude.Bytes.{bytes_eq, bytes_eq→eq, bytes_eq_refl}
use sing_quic_rs.Decimal.{parse_uint, u64_max}
use sing_quic_rs.Decimal.RoundTrip.{parse_uint-le}
use sing_quic_rs.Decimal.Numerals.{IsNumeral, parse_uint-IsNumeral, IsNumeral-parse_uint}
use sing_quic_rs.Hysteria2.Protocol.Rate.{
  CongestionReceive, auto, rate, auto_text, rate_or_zero, parse_congestion_text,
  parse_congestion_receive,
}

-- What a text says: `auto`, the number of a numeral that fits a `u64`, or nothing, which is rate 0.
abbrev pub Says : List ℕ → CongestionReceive → Type 0
Says text auto = text ≡ auto_text
Says text (rate n) =
    (IsNumeral text n × (n ≤ u64_max))
    ⊎ ((n ≡ 0) × (text ≢ auto_text) × ((k : ℕ) → IsNumeral text k → u64_max < k))

numeral-Says :
    (text : List ℕ) (o : Option ℕ)
    → text ≢ auto_text
    → parse_uint u64_max text ≡ o
    → Says text (rate_or_zero o)
numeral-Says text (some n) other e =
    inl (parse_uint-IsNumeral u64_max n text e, parse_uint-le u64_max n text e)
numeral-Says text none other e = inr (
  refl,
  other,
  λ k d. elim (leb-cases k u64_max) [
    | inl small ↦ absurd (let read = sym e ∙ IsNumeral-parse_uint u64_max k text d small in cc)
    | inr large ↦ large
  ],
)
  where
    leb-cases : (a b : ℕ) → (a ≤ b) ⊎ (b < a)
    leb-cases a b = ground arith

parse_congestion_text-Says : (text : List ℕ) → Says text (parse_congestion_text text)
unfolding parse_congestion_text
parse_congestion_text-Says text = elim (Bool-cases (bytes_eq text auto_text)) [
  | inl e ↦ rw e (bytes_eq→eq text auto_text e)
  | inr e ↦
      let other : text ≢ auto_text = λ same. absurd (
        let yes : bytes_eq text auto_text ≡ true = rw same (bytes_eq_refl auto_text) in
        let bad : true ≡ false = sym yes ∙ e in cc) in
      rw e (numeral-Says text (parse_uint u64_max text) other refl)
]

module _ (to_str : List ℕ → Option (List ℕ)) where
  -- What a header says: what its text does, or nothing if there is no readable text.
  abbrev pub IsRead : Option (List ℕ) → CongestionReceive → Type 0
  IsRead header result =
      ((value : List ℕ) × (text : List ℕ) × (header ≡ some value)
        × (to_str value ≡ some text)
        × Says text result)
      ⊎ (((value : List ℕ) → header ≡ some value → to_str value ≡ none) × (result ≡ rate 0))

  -- Whatever the header, it is read for what its text says: as `auto` only if that is the text, as a
  -- positive rate only from a decimal numeral of exactly that number, which fits a `u64`; and as
  -- rate 0 from a numeral of 0, or if the text is neither `auto` nor a numeral that fits, or if there
  -- is no header or its text is not readable.
  pub parse_congestion_receive-IsRead :
      (header : Option (List ℕ)) → IsRead header (parse_congestion_receive to_str header)
  unfolding parse_congestion_receive
  parse_congestion_receive-IsRead none = inr ((λ value e. absurd cc), refl)
  parse_congestion_receive-IsRead (some value) = by_text (to_str value) refl
    where
      by_text :
          (o : Option (List ℕ))
          → to_str value ≡ o
          → IsRead (some value) (elim o [ none ↦ rate 0 | some text ↦ parse_congestion_text text ])
      by_text none e = inr ((λ v same. let h : value ≡ v = cc in rw (← h) e), refl)
      by_text (some text) e = inl (value, text, refl, e, parse_congestion_text-Says text)
