-- ===== src/Reader/Shrinking.antt =====
-- Readers leave no more of a stream than they are given.
use sing_quic_rs.Prelude.{
  ℕ, ◌+◌, ◌≤◌, ◌≡◌, refl, Bool, true, false, List, [], ◌∷◌, length, ltb, take, drop, arith,
  length-drop, if◌then◌else◌,
}
use sing_quic_rs.Error.{Error, Result, ok, err}
use sing_quic_rs.Reader.{Reader, pure, fail, lift, continue, take_byte, take_exact, ◌>>=◌}

-- What is left behind `m` is at least `n` bytes shorter.
pub record Takes (n : ℕ) {A : Type 0} (m : Reader A) : Type 0 where
  pub shorter :
      (s : List ℕ) (a : A) (rest : List ℕ) → m s ≡ ok (a, rest) → n + length rest ≤ length s

continue-ok :
    {A B : Type 0} (r : Result (A × List ℕ)) (f : A → Reader B) (b : B) (rest : List ℕ)
    → continue r f ≡ ok (b, rest)
    → (a : A) × (s : List ℕ) × (r ≡ ok (a, s)) × (f a s ≡ ok (b, rest))
continue-ok (ok (a, s)) f b rest e = (a, s, refl, e)
continue-ok (err x) f b rest e = absurd cc

pub Takes-bind :
    {A B : Type 0} (n i j : ℕ) (m : Reader A) (f : A → Reader B)
    → n ≤ i + j
    → Takes i m
    → ((a : A) → Takes j (f a))
    → Takes n (m >>= f)
Takes-bind n i j m f h t u = record {
  shorter = λ s b rest e.
      let (a, s', first, second) = continue-ok (m s) f b rest e in
      omega (arith, t.shorter s a s' first, (u a).shorter s' b rest second);
}

pub Takes-take_byte : (e : Error) → Takes 1 (take_byte e)
unfolding take_byte
Takes-take_byte e = record { shorter = by_bytes }
  where
    by_bytes :
        (s : List ℕ) (b : ℕ) (rest : List ℕ)
        → take_byte e s ≡ ok (b, rest)
        → 1 + length rest ≤ length s
    by_bytes [] b rest h = absurd cc
    by_bytes (c ∷ s) b rest h = let same : s ≡ rest = cc in rw same (omega arith)

exact_rest :
    (short : Bool) (e : Error) (front back a rest : List ℕ)
    → if◌then◌else◌ {A = Result (List ℕ × List ℕ)} short (err e) (ok (front, back)) ≡ ok (a, rest)
    → rest ≡ back
exact_rest true e front back a rest h = absurd cc
exact_rest false e front back a rest h = cc

pub Takes-take_exact : (e : Error) (n : ℕ) → Takes 0 (take_exact e n)
unfolding take_exact
Takes-take_exact e n = record {
  shorter = λ s a rest h.
      let same = exact_rest (ltb (length s) n) e (take n s) (drop n s) a rest h in
      rw same (omega (arith, length-drop n s));
}

pub Takes-lift : {A : Type 0} (r : Result A) → Takes 0 (lift r)
Takes-lift (ok a) = record {
  shorter = λ s b rest e. let same : s ≡ rest = cc in rw same (omega arith);
}
Takes-lift (err x) = record { shorter = λ s b rest e. absurd cc }

pub Takes-pure : {A : Type 0} (a : A) → Takes 0 (pure a)
Takes-pure a = record { shorter = λ s b rest e. let same : s ≡ rest = cc in rw same (omega arith) }

pub Takes-fail : {A : Type 0} (x : Error) → Takes 0 (fail {A = A} x)
Takes-fail x = record { shorter = λ s b rest e. absurd cc }

pub Takes-if :
    {A : Type 0} (n : ℕ) (test : Bool) (m k : Reader A)
    → Takes n m
    → Takes n k
    → Takes n (if test then m else k)
Takes-if n true m k t u = t
Takes-if n false m k t u = u
