-- ===== src/Hysteria2/Defragger.antt =====
-- The `Defragger` of src/hysteria2/packet.rs. `now` is what `Instant::now()` returns, in
-- nanoseconds; `duration_since` stops at zero. A call that indexes or unwraps where the source
-- would panic ends in `panicked`.
pub mod Invariant
pub mod Parts
pub mod Reassembly
pub mod Delivery
use sing_quic_rs.Prelude.{
  ℕ, zero, suc, ◌+◌, ◌-◌, ◌≤◌, ◌<◌, ◌≡◌, Bool, true, false, Option, none, some, List, [], ◌∷◌, ◌++◌,
  length, set, get_elem?, replicate, ltb, leb, ◌==◌, if◌then◌else◌,
}
use sing_quic_rs.Prelude.Map.{Map, Key, nat_key, get, insert, remove, retain}
use sing_quic_rs.Error.{Error, protocol, reassembled_packet_too_large, Result, ok, err}
use sing_quic_rs.Address.{Address}
use sing_quic_rs.Hysteria2.Packet.{Packet, UdpMessage}

abbrev pub max_udp_size : ℕ
max_udp_size = 4096

-- Ten seconds.
abbrev pub fragment_lifetime : ℕ
fragment_lifetime = 10_000_000_000

pub record FragmentSet : Type 0 where
  pub updated_at : ℕ
  pub destination : Address
  pub parts : List (Option (List ℕ))
  pub received : ℕ

abbrev pub Defragger : Type 0
Defragger = Map ℕ FragmentSet

-- How a call of `feed` ends.
pub data Fed : Type 0 where
  returned : Result (Option Packet) → Defragger → Fed
  panicked : Fed

-- The set for a first fragment.
unfoldable pub fresh_set : ℕ → UdpMessage → FragmentSet
fresh_set now m = record {
  updated_at = now;
  destination = m.destination;
  parts = replicate m.fragment_total none;
  received = 0;
}

-- `entry(packet_id).or_insert_with(..)`, and the replacement of a set of another size.
unfoldable pub open_set : ℕ → UdpMessage → Option FragmentSet → FragmentSet
unfolding fresh_set
open_set now m none = fresh_set now m
open_set now m (some f) = if length f.parts == m.fragment_total then f else fresh_set now m

-- `if fragment.parts[fragment_id].is_none() { .. }`; `none` is the panic of the index.
unfoldable pub store_part : ℕ → UdpMessage → FragmentSet → Option FragmentSet
store_part now m f = elim (get_elem? f.parts m.fragment_id) [
  | none ↦ none
  | some none ↦ some (record f {
    updated_at = now;
    parts = set f.parts m.fragment_id (some m.payload);
    received = f.received + 1;
  })
  | some (some old) ↦ some (record f { updated_at = now })
]

-- `parts.iter().map(|part| part.expect(..).len()).sum()`
unfoldable pub total_length : List (Option (List ℕ)) → Option ℕ
total_length [] = some 0
total_length (none ∷ rest) = none
total_length (some part ∷ rest) = elim (total_length rest) [
  | none ↦ none
  | some n ↦ some (length part + n)
]

-- `for part in fragment.parts { data.extend_from_slice(&part.expect(..)) }`
unfoldable pub join_parts : List ℕ → List (Option (List ℕ)) → Option (List ℕ)
join_parts joined [] = some joined
join_parts joined (none ∷ rest) = none
join_parts joined (some part ∷ rest) = join_parts (joined ++ part) rest

-- The end of `feed`, with the complete set taken out of the map.
unfoldable pub finish : FragmentSet → Defragger → Fed
unfolding total_length join_parts
finish f rest = elim (total_length f.parts) [
  | none ↦ panicked
  | some n ↦
      if ltb max_udp_size n
      then returned (err (protocol reassembled_packet_too_large)) rest
      else elim (join_parts [] f.parts) [
        | none ↦ panicked
        | some joined ↦
            returned (ok (some (record { payload = joined; destination = f.destination }))) rest
      ]
]

unfoldable pub close_set : ℕ → ℕ → Defragger → Option FragmentSet → Fed
unfolding finish
close_set packet_id total d none = panicked
close_set packet_id total d (some f) =
    if f.received == total
    then finish f (remove packet_id d)
    else returned (ok none) (insert packet_id f d)

abbrev pub is_live : ℕ → FragmentSet → Bool
is_live now f = leb (now - f.updated_at) fragment_lifetime

-- Defragger::feed
unfoldable pub feed : ℕ → UdpMessage → Defragger → Fed
unfolding open_set store_part close_set
feed now m d =
    if leb m.fragment_total 1
    then returned (ok (some (record { payload = m.payload; destination = m.destination }))) d
    else if leb m.fragment_total m.fragment_id
    then returned (ok none) d
    else let live = retain (is_live now) d in
      close_set m.packet_id m.fragment_total live
        (store_part now m (open_set now m (get m.packet_id live)))
