-- ===== src/Hysteria2/Defragger/Invariant.antt =====
-- What every set of fragments in the `Defragger` of src/hysteria2/packet.rs satisfies.
use sing_quic_rs.Prelude.{
  ℕ, zero, suc, ◌+◌, ◌≤◌, ◌<◌, ◌≡◌, ◌∙◌, inl, inr, refl, Bool, false, Option, none, some, List, [],
  ◌∷◌, ◌++◌, length, set, get_elem?, replicate, length-set, length-replicate, leb, ◌==◌, arith,
  Bool-cases,
}
use sing_quic_rs.Prelude.Map.{nat_key, get, insert, remove, retain}
use sing_quic_rs.Hysteria2.Packet.{UdpMessage}
use sing_quic_rs.Hysteria2.Defragger.{
  FragmentSet, Defragger, Fed, returned, panicked, fresh_set, open_set, store_part, total_length,
  join_parts, finish, close_set, is_live, feed,
}

-- How many parts have arrived.
abbrev pub present : List (Option (List ℕ)) → ℕ
present [] = 0
present (none ∷ rest) = present rest
present (some part ∷ rest) = suc (present rest)

-- A set that `received` counts, and that lacks a part: a complete one leaves the map at once.
pub record IsPending (f : FragmentSet) : Type 0 where
  pub counted : present f.parts ≡ f.received
  pub lacking : f.received < length f.parts
  pub several : 2 ≤ length f.parts

abbrev pub IsSound : Defragger → Type 0
IsSound [] = Unit {0}
IsSound ((k, f) ∷ d) = IsPending f × IsSound d

present-le : (ps : List (Option (List ℕ))) → present ps ≤ length ps
present-le [] = omega arith
present-le (none ∷ ps) = omega (arith, present-le ps)
present-le (some p ∷ ps) = omega (arith, present-le ps)

pub present-replicate : (n : ℕ) → present (replicate n none) ≡ 0
present-replicate zero = refl
present-replicate (suc n) = present-replicate n

pub present-set :
    (ps : List (Option (List ℕ))) (i : ℕ) (part : List ℕ)
    → get_elem? ps i ≡ some none
    → present (set ps i (some part)) ≡ present ps + 1
present-set [] i part e = cc
present-set (none ∷ ps) zero part e = omega arith
present-set (some p ∷ ps) zero part e = absurd (cc)
present-set (none ∷ ps) (suc i) part e = present-set ps i part e
present-set (some p ∷ ps) (suc i) part e = omega (arith, present-set ps i part e)

pub get-IsPending :
    (k : ℕ) (d : Defragger) (f : FragmentSet) → IsSound d → get k d ≡ some f → IsPending f
unfolding get
get-IsPending k [] f s e = cc
get-IsPending k ((j, g) ∷ d) f s e = ground (arith, get-IsPending k d f s.1)

retain-IsSound : (keep : FragmentSet → Bool) (d : Defragger) → IsSound d → IsSound (retain keep d)
unfolding retain
retain-IsSound keep [] s = tt
retain-IsSound keep ((j, g) ∷ d) s = ground (arith, retain-IsSound keep d s.1)

remove-IsSound : (k : ℕ) (d : Defragger) → IsSound d → IsSound (remove k d)
unfolding remove
remove-IsSound k [] s = tt
remove-IsSound k ((j, g) ∷ d) s = ground (arith, remove-IsSound k d s.1)

get_elem?-lt : {A : Type 0} (xs : List A) (i : ℕ) → get_elem? xs i ≡ none → length xs ≤ i
get_elem?-lt [] i e = omega arith
get_elem?-lt (x ∷ xs) zero e = cc
get_elem?-lt (x ∷ xs) (suc i) e = omega (arith, get_elem?-lt xs i e)

-- A set with room is opened for the message, of its size.
abbrev pub IsOpen : UdpMessage → FragmentSet → Type 0
IsOpen m f = IsPending f × (length f.parts ≡ m.fragment_total)

fresh_set-IsOpen : (now : ℕ) (m : UdpMessage) → 2 ≤ m.fragment_total → IsOpen m (fresh_set now m)
unfolding fresh_set
fresh_set-IsOpen now m h =
    let size = length-replicate {A = Option (List ℕ)} m.fragment_total none in
    (
      record {
        counted = present-replicate m.fragment_total;
        lacking = omega (arith, size);
        several = omega (arith, size);
      },
      size,
    )

open_set-IsOpen :
    (now : ℕ) (m : UdpMessage) (o : Option FragmentSet)
    → 2 ≤ m.fragment_total
    → ((f : FragmentSet) → o ≡ some f → IsPending f)
    → IsOpen m (open_set now m o)
unfolding open_set
open_set-IsOpen now m none h p = fresh_set-IsOpen now m h
open_set-IsOpen now m (some f) h p = elim (Bool-cases (length f.parts == m.fragment_total)) [
  | inl e ↦ rw e (p f refl, ground arith)
  | inr e ↦ rw e (fresh_set-IsOpen now m h)
]

-- What `store_part` makes of an open set: the index is in range, and the set may now be complete.
record IsStored (m : UdpMessage) (f g : FragmentSet) : Type 0 where
  counted : present g.parts ≡ g.received
  sized : length g.parts ≡ m.fragment_total
  grows : g.received ≤ f.received + 1

store_part-IsStored :
    (now : ℕ) (m : UdpMessage) (f : FragmentSet)
    → IsOpen m f
    → m.fragment_id < m.fragment_total
    → (g : FragmentSet) × (store_part now m f ≡ some g) × IsStored m f g
store_part-IsStored now m f o h = by_part (get_elem? f.parts m.fragment_id) refl
  where
    by_part :
        (r : Option (Option (List ℕ)))
        → get_elem? f.parts m.fragment_id ≡ r
        → (g : FragmentSet) × (store_part now m f ≡ some g) × IsStored m f g
    by_part none e = absurd (omega (arith, get_elem?-lt f.parts m.fragment_id e))
    by_part (some none) e = (
      record f {
        updated_at = now;
        parts = set f.parts m.fragment_id (some m.payload);
        received = f.received + 1;
      },
      unfold store_part in rw (e, store_part),
      record {
        counted = omega (arith, present-set f.parts m.fragment_id m.payload e);
        sized = length-set f.parts m.fragment_id (some m.payload) ∙ o.1;
        grows = omega arith;
      },
    )
    by_part (some (some old)) e = (
      record f { updated_at = now },
      unfold store_part in rw (e, store_part),
      record { counted = o.0.counted; sized = o.1; grows = omega arith },
    )

-- Where every part is present, `expect` does not panic.
total_length-full :
    (ps : List (Option (List ℕ))) → present ps ≡ length ps → (n : ℕ) × (total_length ps ≡ some n)
unfolding total_length
total_length-full [] e = (0, refl)
total_length-full (none ∷ ps) e = absurd (omega (arith, present-le ps))
total_length-full (some part ∷ ps) e =
    let (n, h) = total_length-full ps (omega arith) in (length part + n, rw h)

join_parts-full :
    (joined : List ℕ) (ps : List (Option (List ℕ)))
    → present ps ≡ length ps
    → (out : List ℕ) × (join_parts joined ps ≡ some out)
unfolding join_parts
join_parts-full joined [] e = (joined, refl)
join_parts-full joined (none ∷ ps) e = absurd (omega (arith, present-le ps))
join_parts-full joined (some part ∷ ps) e = join_parts-full (joined ++ part) ps (omega arith)

-- `feed` has returned, and left a sound map behind.
abbrev pub IsFine : Fed → Type 0
IsFine (returned r d) = IsSound d
IsFine panicked = ⊥

finish-IsFine :
    (f : FragmentSet) (d : Defragger)
    → present f.parts ≡ length f.parts
    → IsSound d
    → IsFine (finish f d)
unfolding finish
finish-IsFine f d e s =
    let (n, hn) = total_length-full f.parts e in
    let (out, ho) = join_parts-full [] f.parts e in ground (arith, hn, ho)

close_set-IsFine :
    (k total : ℕ) (d : Defragger) (m : UdpMessage) (f g : FragmentSet)
    → IsSound d
    → 2 ≤ total
    → m.fragment_total ≡ total
    → IsStored m f g
    → IsFine (close_set k total d (some g))
unfolding close_set
close_set-IsFine k total d m f g s big same t = elim (Bool-cases (g.received == total)) [
  | inl full ↦
      rw full
        (finish-IsFine g (remove k d) (grind (arith, t.counted, t.sized)) (remove-IsSound k d s))
  | inr part ↦ rw part (unfold insert in (pending part, remove-IsSound k d s))
]
  where
    pending : (g.received == total) ≡ false → IsPending g
    pending part = record {
      counted = t.counted;
      lacking = ground (arith, t.counted, t.sized, present-le g.parts);
      several = omega (arith, t.sized);
    }

-- From a map of pending sets, `feed` never panics, whatever the message, and it leaves a map of
-- pending sets: `received` counts the parts, and no complete set stays behind.
pub feed-IsSound : (now : ℕ) (m : UdpMessage) (d : Defragger) → IsSound d → IsFine (feed now m d)
unfolding feed
feed-IsSound now m d s = elim (Bool-cases (leb m.fragment_total 1)) [
  | inl single ↦ rw single s
  | inr several ↦ elim (Bool-cases (leb m.fragment_total m.fragment_id)) [
    | inl out ↦ rw (several, out) s
    | inr within ↦
        let live = retain-IsSound (is_live now) d s in
        let o = get m.packet_id (retain (is_live now) d) in
        let opened =
          open_set-IsOpen now m o (ground arith) (λ f e. get-IsPending m.packet_id _ f live e) in
        let (g, stored, ok_) = store_part-IsStored now m (open_set now m o) opened (ground arith) in
        rw (several, within, stored)
          (close_set-IsFine m.packet_id m.fragment_total _ m _ g live (ground arith) refl ok_)
  ]
]
