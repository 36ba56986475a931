-- ===== src/Prelude/Reordering.antt =====
-- Lists with the same elements in another order, as a relation that proofs go along.
use Prim.Native.Nat.{suc}
use mathlib.Core.Path.{◌≡◌, refl, ap, ◌∙◌}
use mathlib.Core.List.{List, [], ◌∷◌, map}
use sing_quic_rs.Prelude.Lists.{All, length}

pub data Reordering {A : Type 0} : List A → List A → Type 0 where
  empty : Reordering [] []
  keep : {x : A} {xs ys : List A} → Reordering xs ys → Reordering (x ∷ xs) (x ∷ ys)
  swap : {x y : A} {xs : List A} → Reordering (x ∷ y ∷ xs) (y ∷ x ∷ xs)
  chain : {xs ys zs : List A} → Reordering xs ys → Reordering ys zs → Reordering xs zs

pub All-Reordering :
    {A : Type 0} (P : A → Type 0) {xs ys : List A} → Reordering xs ys → All P ys → All P xs
All-Reordering P empty h = tt
All-Reordering P (keep p) h = (h.0, All-Reordering P p h.1)
All-Reordering P swap h = (h.1.0, (h.0, h.1.1))
All-Reordering P (chain p q) h = All-Reordering P p (All-Reordering P q h)

pub length-Reordering : {A : Type 0} {xs ys : List A} → Reordering xs ys → length xs ≡ length ys
length-Reordering empty = refl
length-Reordering (keep p) = ap suc (length-Reordering p)
length-Reordering swap = refl
length-Reordering (chain p q) = length-Reordering p ∙ length-Reordering q

module _ {A B : Type 0} (f : A → B) where
  -- A reordering of images is the list of images of a reordering.
  pub Reordering-map :
      {xs ys : List B} (us : List A)
      → Reordering xs ys
      → ys ≡ map f us
      → (vs : List A) × Reordering vs us × (xs ≡ map f vs)
  Reordering-map [] empty e = ([], empty, refl)
  Reordering-map (u ∷ us) empty e = absurd cc
  Reordering-map [] (keep p) e = absurd cc
  Reordering-map (u ∷ us) (keep p) e =
      let (vs, q, h) = Reordering-map us p cc in (u ∷ vs, keep q, cc)
  Reordering-map [] swap e = absurd cc
  Reordering-map (u ∷ []) swap e = absurd cc
  Reordering-map (u ∷ v ∷ us) swap e = (v ∷ u ∷ us, swap, cc)
  Reordering-map us (chain p q) e =
      let (vs, r, h) = Reordering-map us q e in
      let (ws, t, k) = Reordering-map vs p h in (ws, chain t r, k)
