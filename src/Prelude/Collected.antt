-- ===== src/Prelude/Collected.antt =====
-- What a map holds that is collected from a list: the value of the last element of a key.
use Prim.Native.Nat.{ℕ, zero, suc}
use mathlib.Core.Path.{◌≡◌, refl, sym, subst, ◌∙◌}
use mathlib.Core.Logic.{◌≢◌, ◌⊎◌, inl, inr}
use mathlib.Core.Bool.{true, false}
use mathlib.Core.Option.{Option, none, some}
use mathlib.Core.List.{List, [], ◌∷◌}
use sing_quic_rs.Prelude.Tests.{Bool-cases}
use sing_quic_rs.Prelude.Lists.{All, drop, get_elem?}
use sing_quic_rs.Prelude.Map.{Map, Key, get, insert, get-insert_same, get-insert_ne}

module _ {A K V : Type 0} ⦃e : Key K⦄ (key_of : A → K) (value_of : A → V) where
  -- `into_iter().map(..).collect::<HashMap<_, _>>()`, into a map that holds entries already.
  abbrev pub insert_all : List A → Map K V → Map K V
  insert_all [] m = m
  insert_all (a ∷ rest) m = insert_all rest (insert (key_of a) (value_of a) m)

  module _ (k : K) where
    abbrev IsOther : A → Type 0
    IsOther a = key_of a ≢ k

    -- An element of the list has the key and the value, and no later one has the key.
    pub record IsLast (xs : List A) (v : V) : Type 0 where
      pub place : ℕ
      pub element : A
      pub at : get_elem? xs place ≡ some element
      pub keyed : key_of element ≡ k
      pub valued : value_of element ≡ v
      pub later : All IsOther (drop (suc place) xs)

    -- The value of the last element that has the key, or none has it.
    abbrev pub IsCollected : List A → Option V → Type 0
    IsCollected xs (some v) = IsLast xs v
    IsCollected xs none = All IsOther xs

    -- The same for a map that held entries before.
    abbrev IsHeld : List A → Map K V → Option V → Type 0
    IsHeld xs m o = ((v : V) × (o ≡ some v) × IsLast xs v) ⊎ (All IsOther xs × (get k m ≡ o))

    IsHeld-cons :
        (a : A) (rest : List A) (m : Map K V) (o : Option V)
        → IsHeld rest (insert (key_of a) (value_of a) m) o
        → IsHeld (a ∷ rest) m o
    IsHeld-cons a rest m o (inl (v, same, l)) = inl (
      v,
      same,
      record {
        place = suc l.place;
        element = l.element;
        at = l.at;
        keyed = l.keyed;
        valued = l.valued;
        later = l.later;
      },
    )
    IsHeld-cons a rest m o (inr (others, held)) = elim (Bool-cases (e.same (key_of a) k)) [
      | inl same ↦
          let keyed : key_of a ≡ k = (e.same_iff (key_of a) k).0 same in
          let entered = get-insert_same k (value_of a) m in
          inl (
            value_of a,
            (let moved : get k (insert (key_of a) (value_of a) m)
                    ≡ get k (insert k (value_of a) m) =
                  rw keyed refl in
                sym held ∙ (moved ∙ entered)),
            record {
              place = zero;
              element = a;
              at = refl;
              keyed = keyed;
              valued = refl;
              later = others;
            },
          )
      | inr other ↦
          let differs : IsOther a = λ h.
            absurd (let f : true ≡ false = sym ((e.same_iff (key_of a) k).1 h) ∙ other in cc) in
          inr ((differs, others), sym (get-insert_ne (key_of a) k (value_of a) m differs) ∙ held)
    ]

    insert_all-IsHeld : (xs : List A) (m : Map K V) → IsHeld xs m (get k (insert_all xs m))
    insert_all-IsHeld [] m = inr (tt, refl)
    insert_all-IsHeld (a ∷ rest) m =
        IsHeld-cons a rest m _ (insert_all-IsHeld rest (insert (key_of a) (value_of a) m))

    pub insert_all-IsCollected : (xs : List A) → IsCollected xs (get k (insert_all xs []))
    unfolding get
    insert_all-IsCollected xs = settle (get k (insert_all xs [])) (insert_all-IsHeld xs [])
      where
        settle : (o : Option V) → IsHeld xs [] o → IsCollected xs o
        settle (some v) (inl (w, same, l)) = let h : w ≡ v = cc in subst (IsLast xs) h l
        settle (some v) (inr (others, held)) = absurd cc
        settle none (inl (w, same, l)) = absurd cc
        settle none (inr (others, held)) = others
