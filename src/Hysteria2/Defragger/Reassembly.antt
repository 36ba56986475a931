-- ===== src/Hysteria2/Defragger/Reassembly.antt =====
-- The fragments of one packet through the `Defragger` of src/hysteria2/packet.rs, in any order.
use sing_quic_rs.Prelude.{
  ℕ, zero, suc, ◌+◌, ◌<◌, ◌≡◌, ◌≢◌, ◌∙◌, sym, refl, true, Option, none, some, List, [], ◌∷◌, length,
  set, get_elem?, replicate, get_elem?-set_ne, ◌==◌, arith, All,
}
use sing_quic_rs.Prelude.Map.{nat_key}
use sing_quic_rs.Address.{Address}
use sing_quic_rs.Hysteria2.Packet.{UdpMessage}
use sing_quic_rs.Hysteria2.Defragger.{FragmentSet, fresh_set, open_set, store_part}
use sing_quic_rs.Hysteria2.Defragger.Invariant.{present, present-replicate, present-set}
use sing_quic_rs.Hysteria2.Defragger.Parts.{Agrees, Agrees-replicate, length-Agrees, Agrees-set}

-- A message that carries a chunk of the packet.
pub record IsFragment (cs : List (List ℕ)) (id : ℕ) (to : Address) (m : UdpMessage) : Type 0 where
  pub packet : m.packet_id ≡ id
  pub total : m.fragment_total ≡ length cs
  pub chunk : get_elem? cs m.fragment_id ≡ some m.payload
  pub addressed : m.destination ≡ to

-- A set that holds `k` chunks of the packet, and none at the places `missing`.
pub record Holds (cs : List (List ℕ)) (to : Address) (k : ℕ) (missing : List ℕ) (f : FragmentSet)
    : Type 0 where
  pub agrees : Agrees cs f.parts
  pub addressed : f.destination ≡ to
  pub counted : present f.parts ≡ k
  pub received : f.received ≡ k
  pub absent : All (λ i. get_elem? f.parts i ≡ some none) missing

-- What the map holds of the packet before its next fragment: the set, still live, or nothing yet.
abbrev pub Slot : List (List ℕ) → Address → ℕ → List ℕ → Option FragmentSet → Type 0
Slot cs to k missing none = (k ≡ 0) × All (λ i. i < length cs) missing
Slot cs to k missing (some f) = Holds cs to k missing f

get_elem?-replicate :
    (n i : ℕ) → i < n → get_elem? (replicate {A = Option (List ℕ)} n none) i ≡ some none
get_elem?-replicate zero i h = elim h [ ]
get_elem?-replicate (suc n) zero h = refl
get_elem?-replicate (suc n) (suc i) h = get_elem?-replicate n i (omega arith)

absent-replicate :
    (n : ℕ) (missing : List ℕ)
    → All (λ i. i < n) missing
    → All (λ i. get_elem? (replicate {A = Option (List ℕ)} n none) i ≡ some none) missing
absent-replicate n [] h = tt
absent-replicate n (i ∷ missing) h = (get_elem?-replicate n i h.0, absent-replicate n missing h.1)

pub open_set-Holds :
    (cs : List (List ℕ)) (id : ℕ) (to : Address) (k now : ℕ) (missing : List ℕ) (m : UdpMessage)
    (o : Option FragmentSet)
    → IsFragment cs id to m
    → Slot cs to k missing o
    → Holds cs to k missing (open_set now m o)
unfolding open_set fresh_set
open_set-Holds cs id to k now missing m none p s = rw p.total (record {
  agrees = Agrees-replicate cs;
  addressed = p.addressed;
  counted = present-replicate (length cs) ∙ sym s.0;
  received = sym s.0;
  absent = absent-replicate (length cs) missing s.1;
})
open_set-Holds cs id to k now missing m (some f) p s =
    let same : (length f.parts == m.fragment_total) ≡ true =
      ground (arith, p.total, length-Agrees cs f.parts s.agrees) in
    rw same s

absent-set :
    (ps : List (Option (List ℕ))) (i : ℕ) (v : Option (List ℕ)) (rest : List ℕ)
    → All (λ j. i ≢ j) rest
    → All (λ j. get_elem? ps j ≡ some none) rest
    → All (λ j. get_elem? (set ps i v) j ≡ some none) rest
absent-set ps i v [] d a = tt
absent-set ps i v (j ∷ rest) d a = (get_elem?-set_ne ps v d.0 ∙ a.0, absent-set ps i v rest d.1 a.1)

-- A fragment whose place is empty is stored.
pub store_part-Holds :
    (cs : List (List ℕ)) (id : ℕ) (to : Address) (k now : ℕ) (rest : List ℕ) (m : UdpMessage)
    (f : FragmentSet)
    → IsFragment cs id to m
    → Holds cs to k (m.fragment_id ∷ rest) f
    → All (λ j. m.fragment_id ≢ j) rest
    → (g : FragmentSet) × (store_part now m f ≡ some g)
      × Holds cs to (k + 1) rest g
      × (g.updated_at ≡ now)
store_part-Holds cs id to k now rest m f p h apart = (
  record f {
    updated_at = now;
    parts = set f.parts m.fragment_id (some m.payload);
    received = f.received + 1;
  },
  unfold store_part in rw (h.absent.0, store_part),
  record {
    agrees = Agrees-set cs f.parts m.fragment_id m.payload h.agrees p.chunk;
    addressed = h.addressed;
    counted = omega (arith, present-set f.parts m.fragment_id m.payload h.absent.0, h.counted);
    received = omega (arith, h.received);
    absent = absent-set f.parts m.fragment_id (some m.payload) rest apart h.absent.1;
  },
  refl,
)
