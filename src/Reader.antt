-- ===== src/Reader.antt =====
-- The reading half of a stream: the bytes that the peer sent and that are not yet read. A read
-- past their end fails with the error of the reading method: `io` for tokio's `AsyncReadExt`
-- (`UnexpectedEof`), `read` for `quinn::RecvStream::read_exact`.
pub mod Shrinking
use sing_quic_rs.Prelude.{
  ℕ, ◌≡◌, refl, sym, ap, inl, inr, Bool, Bool-cases, true, false, List, [], ◌∷◌, ◌++◌, length, take,
  drop, ltb, if◌then◌else◌, arith, take-append_eq, drop-append_eq, take-append-drop, length-append,
  length-take,
}
use sing_quic_rs.Error.{Error, Result, ok, err, ok-injective}

abbrev pub Reader : Type 0 → Type 0
Reader A = List ℕ → Result (A × List ℕ)

abbrev pub pure : {A : Type 0} → A → Reader A
pure a s = ok (a, s)

abbrev pub fail : {A : Type 0} → Error → Reader A
fail e s = err e

abbrev pub lift : {A : Type 0} → Result A → Reader A
lift (ok a) s = ok (a, s)
lift (err e) s = err e

abbrev pub continue : {A B : Type 0} → Result (A × List ℕ) → (A → Reader B) → Result (B × List ℕ)
continue (ok (a, s)) f = f a s
continue (err e) f = err e

infixl 5 ◌>>=◌ ◌>>◌
abbrev pub ◌>>=◌ : {A B : Type 0} → Reader A → (A → Reader B) → Reader B
◌>>=◌ m f s = continue (m s) f

abbrev pub ◌>>◌ : {A B : Type 0} → Reader A → Reader B → Reader B
m >> k = m >>= λ _. k

-- `if test { return Err(e) }`
abbrev pub check : {A : Type 0} → Bool → Error → Reader A → Reader A
check refused e m s = if refused then err e else m s

-- One byte, or the error `e` at the end of the stream.
unfoldable pub take_byte : Error → Reader ℕ
take_byte e [] = err e
take_byte e (b ∷ s) = ok (b, s)

-- Exactly `n` bytes.
unfoldable pub take_exact : Error → ℕ → Reader (List ℕ)
take_exact e n s = if ltb (length s) n then err e else ok (take n s, drop n s)

pub take_exact-append :
    (e : Error) (n : ℕ) (front rest : List ℕ)
    → length front ≡ n
    → take_exact e n (front ++ rest) ≡ ok (front, rest)
unfolding take_exact
take_exact-append e n front rest h =
    ground (
      arith,
      length-append front rest,
      take-append_eq n front rest h,
      drop-append_eq n front rest h,
    )

-- What `take_exact` takes is the front of what was there, and has the length that was asked for.
pub take_exact-ok :
    (e : Error) (n : ℕ) (s front rest : List ℕ)
    → take_exact e n s ≡ ok (front, rest)
    → (s ≡ front ++ rest) × (length front ≡ n)
unfolding take_exact
take_exact-ok e n s front rest h = by_length (ltb (length s) n) refl h
  where
    by_length :
        (b : Bool)
        → ltb (length s) n ≡ b
        → if◌then◌else◌ {A = Result (List ℕ × List ℕ)} b (err e) (ok (take n s, drop n s))
          ≡ ok (front, rest)
        → (s ≡ front ++ rest) × (length front ≡ n)
    by_length true short h = absurd cc
    by_length false long h =
        let same = ok-injective (take n s, drop n s) (front, rest) h in
        let front_ : take n s ≡ front = ap (λ (p : List ℕ × List ℕ). p.0) same in
        let rest_ : drop n s ≡ rest = ap (λ (p : List ℕ × List ℕ). p.1) same in
        let size : length (take n s) ≡ n = ground (arith, length-take n s, long) in
        (rw (← front_, ← rest_) (sym (take-append-drop n s)), rw (← front_) size)
