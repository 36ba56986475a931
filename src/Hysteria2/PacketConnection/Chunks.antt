-- ===== src/Hysteria2/PacketConnection/Chunks.antt =====
-- `slice::chunks` as src/hysteria2/packet.rs uses it: the chunks of a packet, their number and size.
use mathlib.Core.List.{flatten}
use native.Mathlib.Nat.{add-div_right, div-eq_of_lt}
use sing_quic_rs.Prelude.{
  ℕ, zero, suc, ◌+◌, ◌-◌, ◌/◌, ◌≤◌, ◌<◌, ◌≡◌, ◌∙◌, refl, sym, ap, ◌⊎◌, inl, inr, List, [], ◌∷◌,
  ◌++◌, length, take, drop, arith, All, length-take, length-drop, take-append-drop,
}
use sing_quic_rs.Hysteria2.PacketConnection.{chunks_within, chunks, div_ceil}

leb-cases : (a b : ℕ) → (a ≤ b) ⊎ (b < a)
leb-cases a b = ground arith

module _ (size : ℕ) (positive : 1 ≤ size) where
  flatten-chunks_within :
      (fuel : ℕ) (bytes : List ℕ)
      → length bytes ≤ fuel
      → flatten (chunks_within fuel size bytes) ≡ bytes
  unfolding chunks_within flatten
  flatten-chunks_within zero [] h = refl
  flatten-chunks_within zero (b ∷ rest) h = absurd (omega arith)
  flatten-chunks_within (suc fuel) [] h = refl
  flatten-chunks_within (suc fuel) (b ∷ rest) h =
      let short = length-drop size (b ∷ rest) in
      ap (λ (back : List ℕ). take size (b ∷ rest) ++ back)
        (flatten-chunks_within fuel (drop size (b ∷ rest)) (omega arith))
      ∙ take-append-drop size (b ∷ rest)

  -- The chunks join to the slice: the bound on their number is never reached.
  pub flatten-chunks : (bytes : List ℕ) → flatten (chunks size bytes) ≡ bytes
  unfolding chunks
  flatten-chunks bytes = flatten-chunks_within (length bytes) bytes (omega arith)

  chunks_within-small :
      (fuel : ℕ) (bytes : List ℕ) → All (λ c. length c ≤ size) (chunks_within fuel size bytes)
  unfolding chunks_within
  chunks_within-small zero bytes = tt
  chunks_within-small (suc fuel) [] = tt
  chunks_within-small (suc fuel) (b ∷ rest) =
      let taken = length-take size (b ∷ rest) in
      (omega (arith, taken), chunks_within-small fuel (drop size (b ∷ rest)))

  pub chunks-small : (bytes : List ℕ) → All (λ c. length c ≤ size) (chunks size bytes)
  unfolding chunks
  chunks-small bytes = chunks_within-small (length bytes) bytes

  div_ceil-step : (n : ℕ) → 1 ≤ n → div_ceil n size ≡ 1 + div_ceil (n - size) size
  unfolding div_ceil
  div_ceil-step n h = elim (leb-cases size n) [
    | inl le ↦
        let shift = add-div_right (n - size + size - 1) positive in
        let same : n + size - 1 ≡ n - size + size - 1 + size = omega arith in
        ap (λ (k : ℕ). k / size) same ∙ (shift ∙ omega arith)
    | inr lt ↦
        let shift = add-div_right (n - 1) positive in
        let low : (n - 1) / size ≡ 0 = div-eq_of_lt (omega arith) in
        let none_left : (n - size + size - 1) / size ≡ 0 = div-eq_of_lt (omega arith) in
        let same : n + size - 1 ≡ n - 1 + size = omega arith in
        ap (λ (k : ℕ). k / size) same ∙ omega (arith, shift, low, none_left)
  ]

  div_ceil-zero : div_ceil 0 size ≡ 0
  unfolding div_ceil
  div_ceil-zero = div-eq_of_lt (omega arith)

  length-chunks_within :
      (fuel : ℕ) (bytes : List ℕ)
      → length bytes ≤ fuel
      → length (chunks_within fuel size bytes) ≡ div_ceil (length bytes) size
  unfolding chunks_within
  length-chunks_within zero [] h = sym div_ceil-zero
  length-chunks_within zero (b ∷ rest) h = absurd (omega arith)
  length-chunks_within (suc fuel) [] h = sym div_ceil-zero
  length-chunks_within (suc fuel) (b ∷ rest) h =
      let short = length-drop size (b ∷ rest) in
      let more = length-chunks_within fuel (drop size (b ∷ rest)) (omega arith) in
      let left = ap (λ (n : ℕ). div_ceil n size) short in
      ap suc (more ∙ left) ∙ sym (div_ceil-step (length (b ∷ rest)) (omega arith) ∙ omega arith)

  -- `div_ceil` counts the chunks.
  pub length-chunks : (bytes : List ℕ) → length (chunks size bytes) ≡ div_ceil (length bytes) size
  unfolding chunks
  length-chunks bytes = length-chunks_within (length bytes) bytes (omega arith)

  pub chunks-nonempty : (b : ℕ) (rest : List ℕ) → 1 ≤ length (chunks size (b ∷ rest))
  unfolding chunks chunks_within
  chunks-nonempty b rest = omega arith
