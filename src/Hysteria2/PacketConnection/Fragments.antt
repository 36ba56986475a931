-- ===== src/Hysteria2/PacketConnection/Fragments.antt =====
-- The datagrams that `send` of src/hysteria2/packet.rs makes of a packet.
use mathlib.Core.List.{flatten}
use sing_quic_rs.Prelude.{
  ℕ, ◌+◌, ◌-◌, ◌%◌, ◌≤◌, ◌<◌, ◌≡◌, ◌∙◌, refl, ap, false, ◌||◌, List, [], ◌∷◌, ◌++◌, length, map,
  max, ltb, leb, ◌==◌, arith, All, if◌then◌else◌, append-nil,
}
use sing_quic_rs.Error.{
  invalid_address, protocol, address_exceeds_datagram, too_many_fragments, ok, ◌>>=◌, ok-injective,
  if_err-ok,
}
use sing_quic_rs.VarInt
use sing_quic_rs.VarInt.Bounds.{encode-encoding}
use sing_quic_rs.Address.{Address, display}
use sing_quic_rs.Hysteria2.Protocol.{max_address_length}
use sing_quic_rs.Hysteria2.Packet.{Packet, UdpMessage, udp_header_size, encode_message}
use sing_quic_rs.Hysteria2.Packet.Codec.{address_field}
use sing_quic_rs.Hysteria2.PacketConnection.{
  Link, chunks_within, chunks, div_ceil, frames_from, datagram_size, split, packet_frames,
}
use sing_quic_rs.Hysteria2.PacketConnection.Chunks.{
  flatten-chunks, chunks-small, length-chunks, chunks-nonempty,
}

-- A message as a datagram.
abbrev pub encoded : UdpMessage → List ℕ
encoded m =
    encode_message m.session_id m.packet_id m.fragment_id m.fragment_total (display m.destination)
      (address_field m.destination) m.payload

module _ (session_id packet_id total : ℕ) (to : Address) where
  -- The messages of a packet's parts, numbered from `i`.
  abbrev pub numbered : ℕ → List (List ℕ) → List UdpMessage
  numbered i [] = []
  numbered i (c ∷ cs) =
      record {
        session_id = session_id;
        packet_id = packet_id;
        fragment_id = i;
        fragment_total = total;
        destination = to;
        payload = c;
      }
      ∷ numbered (i + 1) cs

  frames_from-numbered :
      (i : ℕ) (cs : List (List ℕ))
      → i + length cs ≤ 256
      → frames_from i
          (λ id chunk.
            encode_message session_id packet_id id total (display to) (address_field to) chunk)
          cs
        ≡ map encoded (numbered i cs)
  unfolding frames_from
  frames_from-numbered i [] h = refl
  frames_from-numbered i (c ∷ cs) h =
      let same : i % 256 ≡ i = omega arith in
      rw (same, frames_from-numbered (i + 1) cs (omega arith)) refl

-- How a packet is split: into at most 255 parts that join to its payload, each small enough for a
-- datagram with the header and the address; the datagrams are those of the parts in order.
pub record IsSplit (link : Link) (session_id packet_id : ℕ) (packet : Packet)
    (frames : List (List ℕ)) : Type 0 where
  pub parts : List (List ℕ)
  pub joined : flatten parts ≡ packet.payload
  pub some_part : 1 ≤ length parts
  pub few : length parts ≤ 255
  pub small :
      All
        (λ c.
          udp_header_size
            + length (address_field packet.destination)
            + length (display packet.destination)
            + length c
          ≤ datagram_size link)
        parts
  pub address_fits : length (display packet.destination) ≤ max_address_length
  pub sends :
      frames ≡ map encoded (numbered session_id packet_id (length parts) packet.destination 0 parts)

All-mono {ℓ} :
    {A : Type ℓ} (P Q : A → Type 0) (xs : List A) → ((a : A) → P a → Q a) → All P xs → All Q xs
All-mono P Q [] f h = tt
All-mono P Q (x ∷ xs) f h = (f x h.0, All-mono P Q xs f h.1)

module _ (link : Link) (session_id packet_id : ℕ) where
  -- Behind the tests, a packet with a payload and one without.
  module _ (to : Address) (header room : ℕ)
      (measured : header ≡ udp_header_size + length (address_field to) + length (display to))
      (fits : header < datagram_size link) (rest_of : room ≡ datagram_size link - header)
      (near : length (display to) ≤ max_address_length) where
    abbrev frame : ℕ → ℕ → List ℕ → List ℕ
    frame n id chunk =
        encode_message session_id packet_id id n (display to) (address_field to) chunk

    chunks-IsSplit :
        (payload : List ℕ)
        → max (div_ceil (length payload) room) 1 ≤ 255
        → IsSplit link session_id packet_id
            (record { payload = payload; destination = to })
            (frames_from 0 (frame (max (div_ceil (length payload) room) 1)) (chunks room payload)
              ++ (if length payload == 0 then frame 1 0 [] ∷ [] else []))
    unfolding frames_from chunks chunks_within flatten
    chunks-IsSplit [] few = record {
      parts = [] ∷ [];
      joined = refl;
      some_part = omega arith;
      few = omega arith;
      small = (omega arith, tt);
      address_fits = near;
      sends = refl;
    }
    chunks-IsSplit (b ∷ rest) few =
        let something : (length (b ∷ rest) == 0) ≡ false = ground arith in rw something (full few)
      where
        cs : List (List ℕ)
        cs = chunks room (b ∷ rest)

        full :
            max (div_ceil (length (b ∷ rest)) room) 1 ≤ 255
            → IsSplit link session_id packet_id
                (record { payload = b ∷ rest; destination = to })
                (frames_from 0 (frame (max (div_ceil (length (b ∷ rest)) room) 1)) cs ++ [])
        full few =
            let count = length-chunks room (omega arith) (b ∷ rest) in
            let some_part = chunks-nonempty room (omega arith) b rest in
            let same : max (div_ceil (length (b ∷ rest)) room) 1 ≡ length cs =
              omega (arith, count, some_part) in
            record {
              parts = cs;
              joined = flatten-chunks room (omega arith) (b ∷ rest);
              some_part = some_part;
              few = omega (arith, same);
              small =
                  All-mono (λ c. length c ≤ room) _ cs (λ c h. omega arith)
                    (chunks-small room (omega arith) (b ∷ rest));
              address_fits = near;
              sends =
                  append-nil _
                  ∙ (ap (λ n. frames_from 0 (frame n) cs) same
                      ∙ frames_from-numbered session_id packet_id (length cs) to 0 cs
                          (omega (arith, same)));
            }

  -- Whatever `send` passes on to the connection for a packet is a split of it.
  pub packet_frames-IsSplit :
      (packet : Packet) (frames : List (List ℕ))
      → packet_frames link session_id packet_id packet ≡ ok frames
      → IsSplit link session_id packet_id packet frames
  unfolding packet_frames split
  packet_frames-IsSplit packet frames e =
      let address = display packet.destination in
      let header = udp_header_size + length (address_field packet.destination) + length address in
      let total = max (div_ceil (length packet.payload) (datagram_size link - header)) 1 in
      let (good, e1) =
        if_err-ok (length address == 0 || ltb max_address_length (length address)) invalid_address
          (VarInt.encode (length address) >>= split link session_id packet_id packet) frames e in
      let near : length address ≤ max_address_length = ground (arith, good) in
      let long = encode-encoding (length address) (omega (arith, near)) in
      let e2 : split link session_id packet_id packet (address_field packet.destination)
          ≡ ok frames =
        ground (arith, long, e1) in
      let (fits, e3) =
        if_err-ok (leb (datagram_size link) header) (protocol address_exceeds_datagram) _ frames
          e2 in
      let (few, e4) = if_err-ok (ltb 255 total) (protocol too_many_fragments) _ frames e3 in
      rw (← ok-injective _ frames e4) (
        chunks-IsSplit packet.destination header (datagram_size link - header) refl
          (ground (arith, fits)) refl near packet.payload (ground (arith, few)))
