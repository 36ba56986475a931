-- ===== src/Hysteria2/PacketConnection/Refusals.antt =====
-- The packets that `send` of src/hysteria2/packet.rs refuses to cut, and those that it cuts.
use native.Mathlib.Nat.{le-div_iff_mul-le}
use sing_quic_rs.Prelude.Bytes.{be_u16, be_u32}
use sing_quic_rs.Prelude.{
  ℕ, ◌+◌, ◌-◌, ◌*◌, ◌/◌, ◌≤◌, ◌<◌, ◌≡◌, ◌∙◌, ◌⊎◌, inl, inr, refl, Bool, true, false, ◌||◌, Option,
  none, some, List, [], ◌∷◌, ◌++◌, length, map, All, length-append, max, ltb, leb, ◌==◌, arith,
  if◌then◌else◌,
}
use sing_quic_rs.Error.{
  Error, invalid_address, protocol, address_exceeds_datagram, too_many_fragments, Result, ok, err,
  ◌>>=◌,
}
use sing_quic_rs.VarInt
use sing_quic_rs.VarInt.Bounds.{encode-encoding}
use sing_quic_rs.Address.{Address, display}
use sing_quic_rs.Hysteria2.Protocol.{max_address_length}
use sing_quic_rs.Hysteria2.Packet.{Packet, UdpMessage, udp_header_size, encode_message}
use sing_quic_rs.Hysteria2.Packet.Codec.{address_field}
use sing_quic_rs.Hysteria2.PacketConnection.{Link, div_ceil, datagram_size, split, packet_frames}
use sing_quic_rs.Hysteria2.PacketConnection.Fragments.{
  encoded, numbered, IsSplit, packet_frames-IsSplit,
}

if_err-err {ℓ} :
    {A : Type ℓ} (t : Bool) (e : Error) (r : Result A) (e' : Error)
    → (if t then err e else r) ≡ err e'
    → ((t ≡ true) × (e' ≡ e)) ⊎ ((t ≡ false) × (r ≡ err e'))
if_err-err true e r e' h = inl (refl, cc)
if_err-err false e r e' h = inr (refl, h)

-- More than 255 chunks of a size.
div_ceil-many : (n size : ℕ) → 1 ≤ size → ltb 255 (max (div_ceil n size) 1) ≡ true → 255 * size < n
unfolding div_ceil
div_ceil-many n size positive many =
    let count : 256 ≤ (n + size - 1) / size = ground (arith, many) in
    let h = (le-div_iff_mul-le positive).0 count in omega (arith, h)

leb-cases : (a b : ℕ) → (a ≤ b) ⊎ (b < a)
leb-cases a b = ground arith

-- The largest frame that goes out on a connection: 1197 bytes, or three less than the datagrams that
-- the connection takes now, whichever is smaller.
pub record IsLimit (link : Link) (limit : ℕ) : Type 0 where
  pub initial : limit ≤ 1_197
  pub within : (size : ℕ) → link.max_datagram_size ≡ some size → limit ≤ size - 3
  pub tight :
      (limit ≡ 1_197) ⊎ ((size : ℕ) × (link.max_datagram_size ≡ some size) × (limit ≡ size - 3))

datagram_size-IsLimit :
    (link : Link) (o : Option ℕ) → link.max_datagram_size ≡ o → IsLimit link (datagram_size link)
unfolding datagram_size
datagram_size-IsLimit link none e = rw e (record {
  initial = omega arith;
  within = λ size h. absurd (let bad = e ∙ h in cc);
  tight = inl refl;
})
datagram_size-IsLimit link (some n) e = rw e (record {
  initial = omega arith;
  within = λ size h. let same : n ≡ size = cc in omega (arith, same);
  tight = elim (leb-cases 1_197 (n - 3)) [
    | inl large ↦ inl (omega (arith, large))
    | inr small ↦ inr (n, refl, omega (arith, small))
  ];
})

length-encoded :
    (m : UdpMessage)
    → length (encoded m)
      ≡ udp_header_size
        + length (address_field m.destination)
        + length (display m.destination)
        + length m.payload
unfolding encode_message be_u16 be_u32
length-encoded m = omega (
  arith,
  length-append (address_field m.destination) (display m.destination ++ m.payload),
  length-append (display m.destination) m.payload,
)

numbered-small :
    (session_id packet_id total i limit : ℕ) (to : Address) (parts : List (List ℕ))
    → All
        (λ c. udp_header_size + length (address_field to) + length (display to) + length c ≤ limit)
        parts
    → All (λ f. length f ≤ limit) (map encoded (numbered session_id packet_id total to i parts))
numbered-small session_id packet_id total i limit to [] h = tt
numbered-small session_id packet_id total i limit to (c ∷ cs) h = (
  rw
      (length-encoded (record {
        session_id = session_id;
        packet_id = packet_id;
        fragment_id = i;
        fragment_total = total;
        destination = to;
        payload = c;
      }))
      h.0,
  numbered-small session_id packet_id total (i + 1) limit to cs h.1,
)

module _ (link : Link) (session_id packet_id : ℕ) (packet : Packet) where
  -- The bytes of a datagram in front of the payload.
  abbrev pub header : ℕ
  header =
      udp_header_size
      + length (address_field packet.destination)
      + length (display packet.destination)

  -- A packet is split into frames that the limit allows, or it is refused for a reason: its address
  -- is empty or too long, the address leaves no room below the limit, or the payload does not fit
  -- 255 such frames.
  abbrev pub IsCut : ℕ → Result (List (List ℕ)) → Type 0
  IsCut limit (ok frames) =
      IsSplit link session_id packet_id packet frames × All (λ f. length f ≤ limit) frames
  IsCut limit (err e) =
      ((e ≡ invalid_address)
        × ((length (display packet.destination) ≡ 0)
            ⊎ (max_address_length < length (display packet.destination))))
      ⊎ (((e ≡ protocol address_exceeds_datagram) × (limit ≤ header))
          ⊎ ((e ≡ protocol too_many_fragments)
              × (header < limit)
              × (255 * (limit - header) < length packet.payload)))

  split-refused :
      (e : Error)
      → split link session_id packet_id packet (address_field packet.destination) ≡ err e
      → IsCut (datagram_size link) (err e)
  unfolding split
  split-refused e h =
      elim (if_err-err (leb (datagram_size link) header) (protocol address_exceeds_datagram) _ e
        h) [
          | inl (full, why) ↦ inr (inl (why, ground (arith, full)))
          | inr (fits, e1) ↦
              let room = datagram_size link - header in
              let roomy : header < datagram_size link = ground (arith, fits) in
              elim (if_err-err (ltb 255 (max (div_ceil (length packet.payload) room) 1))
                (protocol too_many_fragments) _ e e1) [
                  | inl (many, why) ↦ inr (
                      inr (
                        why,
                        roomy,
                        div_ceil-many (length packet.payload) room (omega (arith, roomy)) many,
                      ))
                  | inr (few, e2) ↦ absurd cc
                ]
        ]

  refused :
      (e : Error)
      → packet_frames link session_id packet_id packet ≡ err e
      → IsCut (datagram_size link) (err e)
  unfolding packet_frames split
  refused e h =
      let address = display packet.destination in
      elim (if_err-err (length address == 0 || ltb max_address_length (length address))
        invalid_address (VarInt.encode (length address) >>= split link session_id packet_id packet)
        e h) [
          | inl (bad, why) ↦ inl (why, ground (arith, bad))
          | inr (good, e1) ↦
              let near : length address ≤ max_address_length = ground (arith, good) in
              let long = encode-encoding (length address) (omega (arith, near)) in
              let e2 : split link session_id packet_id packet (address_field packet.destination)
                  ≡ err e =
                ground (arith, long, e1) in
              split-refused e e2
        ]

  split-small :
      (frames : List (List ℕ))
      → IsSplit link session_id packet_id packet frames
      → All (λ f. length f ≤ datagram_size link) frames
  split-small frames s = rw s.sends (
      numbered-small session_id packet_id (length s.parts) 0 (datagram_size link) packet.destination
        s.parts s.small)

  -- Every packet is cut into at most 255 parts that join to its payload, each sent in a frame of at
  -- most 1197 bytes and at most three less than the datagrams that the connection takes, or it is
  -- refused for a reason: as an invalid address only if the address is empty or too long, as an
  -- address that exceeds the datagram only if no room is left behind it, and as too many fragments
  -- only if the payload is larger than 255 times that room.
  pub packet_frames-IsCut :
      (limit : ℕ) × IsLimit link limit
      × IsCut limit (packet_frames link session_id packet_id packet)
  packet_frames-IsCut = (
    datagram_size link,
    datagram_size-IsLimit link link.max_datagram_size refl,
    settle (packet_frames link session_id packet_id packet) refl,
  )
    where
      settle :
          (r : Result (List (List ℕ)))
          → packet_frames link session_id packet_id packet ≡ r
          → IsCut (datagram_size link) r
      settle (ok frames) h =
          let s = packet_frames-IsSplit link session_id packet_id packet frames h in
          (s, split-small frames s)
      settle (err e) h = refused e h
