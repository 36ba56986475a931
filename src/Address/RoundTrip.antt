-- ===== src/Address/RoundTrip.antt =====
-- Printing an address and parsing the text, and what the parser of src/address.rs accepts.
use sing_quic_rs.Prelude.{
  ℕ, ◌≤◌, ◌≡◌, ◌≢◌, ◌∙◌, ◌⊎◌, inl, inr, refl, false, none, some, List, [], ◌∷◌, ◌++◌, All, arith,
  append_assoc, Bool-cases, Option-cases,
}
use sing_quic_rs.Error.{invalid_address, Result, ok, err}
use sing_quic_rs.Decimal.{parse_uint, to_decimal, u16_max, IsDigit}
use sing_quic_rs.Decimal.RoundTrip.{parse_uint-to_decimal, to_decimal-IsDigit, parse_uint-le}
use sing_quic_rs.Text.{
  contains, rsplit_once, strip_prefix, strip_suffix, rsplit_once-append, strip_suffix-append,
  strip_suffix→append,
}
use sing_quic_rs.Address.{
  IpAddr, NetText, Address, new, strip_brackets, from_authority, from_str, display, IsValid,
}

no_colon : (s : List ℕ) → All IsDigit s → contains b':' s ≡ false
unfolding contains
no_colon [] h = refl
no_colon (c ∷ s) h = ground (arith, no_colon s h.1)

-- The authority `text:port` splits at its last colon.
from_authority_lem :
    (text : List ℕ) (port : ℕ)
    → port ≤ u16_max
    → from_authority (text ++ (b':' ∷ to_decimal port)) ≡ new (strip_brackets text) port
unfolding from_authority
from_authority_lem text port h = rw (
  rsplit_once-append b':' text (to_decimal port) (no_colon _ (to_decimal-IsDigit port)),
  parse_uint-to_decimal u16_max port h (omega arith),
)

strip_brackets_bracketed : (host : List ℕ) → strip_brackets (b'[' ∷ (host ++ (b']' ∷ []))) ≡ host
unfolding strip_brackets strip_prefix
strip_brackets_bracketed host = rw (strip_suffix-append b']' host, strip_brackets)

strip_brackets_plain :
    (host : List ℕ)
    → ((inner : List ℕ) → host ≢ b'[' ∷ (inner ++ (b']' ∷ [])))
    → strip_brackets host ≡ host
unfolding strip_brackets strip_prefix
strip_brackets_plain [] h = refl
strip_brackets_plain (c ∷ host) h = elim (Option-cases (strip_suffix b']' host)) [
  | inl e ↦ ground (arith, e)
  | inr (inner, e) ↦ ground (arith, e, strip_suffix→append b']' host inner e, h inner)
]

new_lem :
    (host : List ℕ) (port : ℕ)
    → host ≢ []
    → new host port ≡ ok (record { host = host; port = port })
unfolding new
new_lem [] port h = absurd (h refl)
new_lem (b ∷ host) port h = refl

-- The addresses whose text reads back: valid, the host in no brackets of its own, and the text
-- either no socket address (a domain name) or the socket address that prints as this host.
pub record IsCanonical (net : NetText) (a : Address) : Type 0 where
  pub valid : IsValid a
  pub plain : (inner : List ℕ) → a.host ≢ b'[' ∷ (inner ++ (b']' ∷ []))
  pub known :
      (net.parse_socket (display a) ≡ none)
      ⊎ ((ip : IpAddr) × (net.parse_socket (display a) ≡ some (ip, a.port))
          × (net.ip_text ip ≡ a.host))

authority-display :
    (a : Address)
    → IsValid a
    → ((inner : List ℕ) → a.host ≢ b'[' ∷ (inner ++ (b']' ∷ [])))
    → from_authority (display a) ≡ ok a
unfolding display
authority-display a v plain = elim (Bool-cases (contains b':' a.host)) [
  | inl colon ↦
      rw (colon, ← append_assoc a.host (b']' ∷ []) (b':' ∷ to_decimal a.port))
        (from_authority_lem (b'[' ∷ (a.host ++ (b']' ∷ []))) a.port v.port_fits
          ∙ rw strip_brackets_bracketed (new_lem a.host a.port v.named))
  | inr none_ ↦ rw none_ (
      from_authority_lem a.host a.port v.port_fits
      ∙ rw (strip_brackets_plain a.host plain) (new_lem a.host a.port v.named))
]

-- The text of a canonical address parses back to the address.
pub from_str-display :
    (net : NetText) (a : Address) → IsCanonical net a → from_str net (display a) ≡ ok a
unfolding from_str
from_str-display net a c = elim c.known [
  | inl e ↦ rw (e, from_str) (authority-display a c.valid c.plain)
  | inr (ip, e, text) ↦ rw (e, from_str, text)
]

-- A parsed address is valid, and a refusal is an `InvalidAddress`.
abbrev pub IsParsed : Result Address → Type 0
IsParsed (ok a) = IsValid a
IsParsed (err e) = e ≡ invalid_address

new-IsParsed : (host : List ℕ) (port : ℕ) → port ≤ u16_max → IsParsed (new host port)
unfolding new
new-IsParsed [] port h = refl
new-IsParsed (b ∷ host) port h = record { named = λ e. cc; port_fits = h }

from_authority-IsParsed : (value : List ℕ) → IsParsed (from_authority value)
unfolding from_authority
from_authority-IsParsed value = elim (Option-cases (rsplit_once b':' value)) [
  | inl e ↦ rw (e, from_authority) refl
  | inr ((host, port), e) ↦ elim (Option-cases (parse_uint u16_max port)) [
    | inl bad ↦ rw (e, bad, from_authority) refl
    | inr (number, good) ↦
        rw (e, good, from_authority)
          (new-IsParsed (strip_brackets host) number (parse_uint-le u16_max number port good))
  ]
]

-- Whatever the text, a parsed address has a host and a `u16` port, and a refused text gives an
-- `InvalidAddress`, if `NetText` prints no empty address and parses no port above 65535.
pub from_str-IsParsed :
    (net : NetText) (value : List ℕ)
    → ((ip : IpAddr) → net.ip_text ip ≢ [])
    → ((ip : IpAddr) (port : ℕ) → net.parse_socket value ≡ some (ip, port) → port ≤ u16_max)
    → IsParsed (from_str net value)
unfolding from_str
from_str-IsParsed net value printed fits = elim (Option-cases (net.parse_socket value)) [
  | inl e ↦ rw (e, from_str) (from_authority-IsParsed value)
  | inr ((ip, port), e) ↦
      rw (e, from_str) (record { named = printed ip; port_fits = fits ip port e })
]
