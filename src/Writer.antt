-- ===== src/Writer.antt =====
-- The writing half of a stream: what was written, and how many bytes the stream still takes before
-- a write fails (a reset or a lost connection). A write that fails has passed on a part.
use sing_quic_rs.Prelude.{
  ℕ, ◌-◌, ◌≤◌, ◌≡◌, ◌∙◌, ap, List, [], ◌++◌, length, take, ltb, if◌then◌else◌, arith, length-append,
  append-nil, append_assoc,
}
use sing_quic_rs.Error.{Error, Result, ok, err}

pub record Sink : Type 0 where
  pub written : List ℕ
  pub budget : ℕ

abbrev pub Writer : Type 0 → Type 0
Writer A = Sink → Result A × Sink

abbrev pub pure : {A : Type 0} → A → Writer A
pure a s = (ok a, s)

abbrev pub fail : {A : Type 0} → Error → Writer A
fail e s = (err e, s)

abbrev pub continue : {A B : Type 0} → Result A × Sink → (A → Writer B) → Result B × Sink
continue (ok a, s) f = f a s
continue (err e, s) f = (err e, s)

infixl 5 ◌>>=◌ ◌>>◌
abbrev pub ◌>>=◌ : {A B : Type 0} → Writer A → (A → Writer B) → Writer B
◌>>=◌ m f s = continue (m s) f

abbrev pub ◌>>◌ : {A B : Type 0} → Writer A → Writer B → Writer B
m >> k = m >>= λ _. k

-- `e?` on a result that writes nothing.
abbrev pub lift : {A : Type 0} → Result A → Writer A
lift (ok a) s = (ok a, s)
lift (err e) s = (err e, s)

-- The sink after all of `bytes`.
abbrev pub push : Sink → List ℕ → Sink
push s bytes = record { written = s.written ++ bytes; budget = s.budget - length bytes }

-- `write_all`, with the error of the writing method.
unfoldable pub write_all : Error → List ℕ → Writer (Unit {0})
write_all e bytes s =
    if ltb s.budget (length bytes)
    then (err e, push s (take s.budget bytes))
    else (ok tt, push s bytes)

-- `m` writes exactly `bytes` and returns `a`, on every stream that takes that many.
pub record Writes {A : Type 0} (m : Writer A) (a : A) (bytes : List ℕ) : Type 0 where
  pub at : (s : Sink) → length bytes ≤ s.budget → m s ≡ (ok a, push s bytes)

pub Writes-write_all : (e : Error) (bytes : List ℕ) → Writes (write_all e bytes) tt bytes
unfolding write_all
Writes-write_all e bytes = record { at = λ s h. ground arith }

pub Writes-pure : {A : Type 0} (a : A) → Writes (pure a) a []
Writes-pure a = record {
  at = λ s h.
      rw append-nil (ap (λ n. (ok a, record { written = s.written; budget = n })) (omega arith));
}

pub push-push : (s : Sink) (xs ys : List ℕ) → push (push s xs) ys ≡ push s (xs ++ ys)
push-push s xs ys = λ i. record { written = append_assoc s.written xs ys i; budget = fewer i }
  where
    fewer : s.budget - length xs - length ys ≡ s.budget - length (xs ++ ys)
    fewer = omega (arith, length-append xs ys)

pub Writes-bind :
    {A B : Type 0} (m : Writer A) (f : A → Writer B) (a : A) (b : B) (xs ys : List ℕ)
    → Writes m a xs
    → Writes (f a) b ys
    → Writes (m >>= f) b (xs ++ ys)
Writes-bind m f a b xs ys wm wf = record {
  at = λ s h. rw (wm.at s (omega (arith, length-append xs ys))) (
      wf.at (push s xs) (omega (arith, length-append xs ys))
      ∙ ap (λ t. (ok b, t)) (push-push s xs ys));
}
