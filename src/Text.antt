-- ===== src/Text.antt =====
-- Texts as lists of bytes: the standard library's checks and searches that src/address.rs,
-- src/hysteria2 and src/shadowquic/mod.rs make on them.
use sing_quic_rs.Prelude.{
  ℕ, ◌≡◌, refl, Bool, true, false, ◌&&◌, ◌||◌, Option, none, some, List, [], ◌∷◌, ◌++◌, ltb, leb,
  ◌==◌, if◌then◌else◌, arith, Option-cases, inl, inr,
}

-- std::str::from_utf8. The state is what the next byte must be: the start of a character, or one of
-- the continuations, whose first has a narrower range after the lead bytes e0, ed, f0 and f4.
pub data Utf8 : Type 0 where
  start one_more two_more three_more after_e0 after_ed after_f0 after_f4 : Utf8

abbrev in_range : ℕ → ℕ → ℕ → Bool
in_range lo hi b = leb lo b && leb b hi

-- `none` if the byte cannot stand here.
utf8_lead : ℕ → Option Utf8
utf8_lead b =
    if ltb b 0x80
    then some start
    else if in_range 0xc2 0xdf b
    then some one_more
    else if b == 0xe0
    then some after_e0
    else if b == 0xed
    then some after_ed
    else if in_range 0xe1 0xef b
    then some two_more
    else if b == 0xf0
    then some after_f0
    else if in_range 0xf1 0xf3 b
    then some three_more
    else if b == 0xf4
    then some after_f4
    else none

abbrev expect : ℕ → ℕ → Utf8 → ℕ → Option Utf8
expect lo hi next b = if in_range lo hi b then some next else none

unfoldable pub utf8_step : Utf8 → ℕ → Option Utf8
unfolding utf8_lead
utf8_step start b = utf8_lead b
utf8_step one_more b = expect 0x80 0xbf start b
utf8_step two_more b = expect 0x80 0xbf one_more b
utf8_step three_more b = expect 0x80 0xbf two_more b
utf8_step after_e0 b = expect 0xa0 0xbf one_more b
utf8_step after_ed b = expect 0x80 0x9f one_more b
utf8_step after_f0 b = expect 0x90 0xbf two_more b
utf8_step after_f4 b = expect 0x80 0x8f two_more b

abbrev is_start : Utf8 → Bool
is_start start = true
is_start _ = false

unfoldable pub utf8_run : List ℕ → Utf8 → Bool
utf8_run [] s = is_start s
utf8_run (b ∷ rest) s = elim (utf8_step s b) [ none ↦ false | some next ↦ utf8_run rest next ]

unfoldable pub is_utf8 : List ℕ → Bool
unfolding utf8_run utf8_step
is_utf8 text = utf8_run text start

-- str::is_ascii
unfoldable pub is_ascii : List ℕ → Bool
is_ascii [] = true
is_ascii (b ∷ rest) = ltb b 0x80 && is_ascii rest

-- str::contains and str::rsplit_once, for a character of one byte.
unfoldable pub contains : ℕ → List ℕ → Bool
contains c [] = false
contains c (b ∷ rest) = b == c || contains c rest

unfoldable pub rsplit_once : ℕ → List ℕ → Option (List ℕ × List ℕ)
rsplit_once c [] = none
rsplit_once c (b ∷ rest) = elim (rsplit_once c rest) [
  | none ↦ if b == c then some ([], rest) else none
  | some (front, back) ↦ some (b ∷ front, back)
]

-- str::strip_prefix and str::strip_suffix, for a character of one byte.
unfoldable pub strip_prefix : ℕ → List ℕ → Option (List ℕ)
strip_prefix c [] = none
strip_prefix c (b ∷ rest) = if b == c then some rest else none

unfoldable pub strip_suffix : ℕ → List ℕ → Option (List ℕ)
strip_suffix c [] = none
strip_suffix c (b ∷ []) = if b == c then some [] else none
strip_suffix c (b ∷ d ∷ rest) = elim (strip_suffix c (d ∷ rest)) [
  | none ↦ none
  | some front ↦ some (b ∷ front)
]

pub utf8_run-append :
    (xs ys : List ℕ) (s : Utf8)
    → utf8_run xs s ≡ true
    → utf8_run ys start ≡ true
    → utf8_run (xs ++ ys) s ≡ true
unfolding utf8_run
utf8_run-append [] ys start h k = k
utf8_run-append [] ys _ h k = cc
utf8_run-append (b ∷ xs) ys s h k = elim (Option-cases (utf8_step s b)) [
  | inl e ↦ cc (rw (e, utf8_run) at h)
  | inr (next, e) ↦ rw (e, utf8_run) (utf8_run-append xs ys next (rw (e, utf8_run) at h) k)
]

pub is_utf8-append :
    (xs ys : List ℕ) → is_utf8 xs ≡ true → is_utf8 ys ≡ true → is_utf8 (xs ++ ys) ≡ true
unfolding is_utf8
is_utf8-append xs ys h k = utf8_run-append xs ys start h k

pub is_utf8_of_ascii : (xs : List ℕ) → is_ascii xs ≡ true → is_utf8 xs ≡ true
unfolding is_utf8 is_ascii
is_utf8_of_ascii [] h = refl
is_utf8_of_ascii (b ∷ xs) h = ground (arith, is_utf8_of_ascii xs)

rsplit_once_absent : (c : ℕ) (ys : List ℕ) → contains c ys ≡ false → rsplit_once c ys ≡ none
unfolding rsplit_once contains
rsplit_once_absent c [] h = refl
rsplit_once_absent c (y ∷ ys) h = ground (arith, rsplit_once_absent c ys)

pub rsplit_once-append :
    (c : ℕ) (xs ys : List ℕ)
    → contains c ys ≡ false
    → rsplit_once c (xs ++ (c ∷ ys)) ≡ some (xs, ys)
unfolding rsplit_once
rsplit_once-append c [] ys h = ground (arith, rsplit_once_absent c ys)
rsplit_once-append c (x ∷ xs) ys h = rw (rsplit_once-append c xs ys h)

pub strip_suffix-append : (c : ℕ) (xs : List ℕ) → strip_suffix c (xs ++ (c ∷ [])) ≡ some xs
unfolding strip_suffix
strip_suffix-append c [] = ground arith
strip_suffix-append c (x ∷ []) = ground arith
strip_suffix-append c (x ∷ y ∷ xs) = rw (strip_suffix-append c (y ∷ xs))

pub strip_suffix→append :
    (c : ℕ) (xs front : List ℕ) → strip_suffix c xs ≡ some front → xs ≡ front ++ (c ∷ [])
unfolding strip_suffix
strip_suffix→append c [] front e = cc
strip_suffix→append c (x ∷ []) front e = ground arith
strip_suffix→append c (x ∷ y ∷ xs) front e = elim (Option-cases (strip_suffix c (y ∷ xs))) [
  | inl miss ↦ cc (rw (miss, strip_suffix) at e)
  | inr (f, hit) ↦ cc (rw (hit, strip_suffix) at e, strip_suffix→append c (y ∷ xs) f hit)
]
