-- ===== src/Hysteria2/Defragger/Parts.antt =====
-- Sets of parts against the chunks of one packet, in the `Defragger` of src/hysteria2/packet.rs.
use mathlib.Core.List.{flatten}
use sing_quic_rs.Prelude.{
  ℕ, zero, suc, ◌≤◌, ◌≡◌, ◌∙◌, ap, sym, refl, Option, none, some, List, [], ◌∷◌, ◌++◌, length, set,
  get_elem?, replicate, length-append, arith, append_assoc, append-nil,
}
use sing_quic_rs.Prelude.Map.{nat_key}
use sing_quic_rs.Error.{ok}
use sing_quic_rs.Hysteria2.Defragger.{
  FragmentSet, Defragger, returned, total_length, join_parts, finish, max_udp_size,
}
use sing_quic_rs.Hysteria2.Defragger.Invariant.{present}

-- Every part that is there is the chunk of its place.
abbrev pub Agrees : List (List ℕ) → List (Option (List ℕ)) → Type 0
Agrees [] [] = Unit {0}
Agrees [] (p ∷ ps) = ⊥
Agrees (c ∷ cs) [] = ⊥
Agrees (c ∷ cs) (none ∷ ps) = Agrees cs ps
Agrees (c ∷ cs) (some p ∷ ps) = (p ≡ c) × Agrees cs ps

pub Agrees-replicate : (cs : List (List ℕ)) → Agrees cs (replicate (length cs) none)
Agrees-replicate [] = tt
Agrees-replicate (c ∷ cs) = Agrees-replicate cs

pub length-Agrees :
    (cs : List (List ℕ)) (ps : List (Option (List ℕ))) → Agrees cs ps → length ps ≡ length cs
length-Agrees [] [] a = refl
length-Agrees [] (p ∷ ps) a = absurd a
length-Agrees (c ∷ cs) [] a = absurd a
length-Agrees (c ∷ cs) (none ∷ ps) a = ap suc (length-Agrees cs ps a)
length-Agrees (c ∷ cs) (some p ∷ ps) a = ap suc (length-Agrees cs ps a.1)

pub Agrees-set :
    (cs : List (List ℕ)) (ps : List (Option (List ℕ))) (i : ℕ) (part : List ℕ)
    → Agrees cs ps
    → get_elem? cs i ≡ some part
    → Agrees cs (set ps i (some part))
Agrees-set [] ps i part a e = cc
Agrees-set (c ∷ cs) [] i part a e = absurd a
Agrees-set (c ∷ cs) (none ∷ ps) zero part a e = (cc, a)
Agrees-set (c ∷ cs) (some p ∷ ps) zero part a e = (cc, a.1)
Agrees-set (c ∷ cs) (none ∷ ps) (suc i) part a e = Agrees-set cs ps i part a e
Agrees-set (c ∷ cs) (some p ∷ ps) (suc i) part a e = (a.0, Agrees-set cs ps i part a.1 e)

pub present-le : (ps : List (Option (List ℕ))) → present ps ≤ length ps
present-le [] = omega arith
present-le (none ∷ ps) = omega (arith, present-le ps)
present-le (some p ∷ ps) = omega (arith, present-le ps)

-- A complete set joins to the chunks in order.
join_parts-Agrees :
    (cs : List (List ℕ)) (ps : List (Option (List ℕ))) (joined : List ℕ)
    → Agrees cs ps
    → present ps ≡ length ps
    → join_parts joined ps ≡ some (joined ++ flatten cs)
unfolding join_parts flatten
join_parts-Agrees [] [] joined a e = ap some (sym (append-nil joined))
join_parts-Agrees [] (p ∷ ps) joined a e = absurd a
join_parts-Agrees (c ∷ cs) [] joined a e = absurd a
join_parts-Agrees (c ∷ cs) (none ∷ ps) joined a e = absurd (omega (arith, present-le ps))
join_parts-Agrees (c ∷ cs) (some p ∷ ps) joined a e = rw (← a.0) (
    join_parts-Agrees cs ps (joined ++ p) a.1 (omega arith)
    ∙ ap some (append_assoc joined p (flatten cs)))

total_length-Agrees :
    (cs : List (List ℕ)) (ps : List (Option (List ℕ)))
    → Agrees cs ps
    → present ps ≡ length ps
    → total_length ps ≡ some (length (flatten cs))
unfolding total_length flatten
total_length-Agrees [] [] a e = refl
total_length-Agrees [] (p ∷ ps) a e = absurd a
total_length-Agrees (c ∷ cs) [] a e = absurd a
total_length-Agrees (c ∷ cs) (none ∷ ps) a e = absurd (omega (arith, present-le ps))
total_length-Agrees (c ∷ cs) (some p ∷ ps) a e =
    rw (total_length-Agrees cs ps a.1 (omega arith), ← a.0, length-append p (flatten cs))

pub finish-Agrees :
    (cs : List (List ℕ)) (f : FragmentSet) (d : Defragger)
    → Agrees cs f.parts
    → present f.parts ≡ length f.parts
    → length (flatten cs) ≤ max_udp_size
    → finish f d
      ≡ returned (ok (some (record { payload = flatten cs; destination = f.destination }))) d
unfolding finish
finish-Agrees cs f d a e small =
    ground (arith, total_length-Agrees cs f.parts a e, join_parts-Agrees cs f.parts [] a e)
