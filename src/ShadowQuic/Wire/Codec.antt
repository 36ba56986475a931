-- ===== src/ShadowQuic/Wire/Codec.antt =====
-- Addresses of src/shadowquic/mod.rs through `encode_address` and `decode_address`.
use sing_quic_rs.Prelude.{
  ℕ, ◌≤◌, ◌<◌, ◌≡◌, ◌≢◌, ◌⊎◌, inl, inr, ◌∙◌, refl, ap, sym, true, false, none, some, List, [], ◌∷◌,
  ◌++◌, append_assoc, length, ltb, arith, Bool-cases, Option-cases,
}
use sing_quic_rs.Prelude.Bytes.{be_u16, from_be_u16-bytes}
use sing_quic_rs.Error.{read, invalid_address, Result, ok, err}
use sing_quic_rs.Reader.{take_byte, take_exact-append}
use sing_quic_rs.Text.{is_ascii, is_utf8_of_ascii}
use sing_quic_rs.Decimal.{u16_max}
use sing_quic_rs.Address.{Address, NetText, IpAddr, v4, v6, new, IsValid}
use sing_quic_rs.ShadowQuic.Wire.{
  sq_domain, max_domain_length, ip_frame, domain_frame, encode_host, encode_address, with_port,
  utf8_text, read_domain, decode_host, read_u16, decode_address,
}

-- What `std::net` promises of its addresses: the octets of each kind, and a text.
pub octet_count : IpAddr → ℕ
octet_count (v4 octets) = 4
octet_count (v6 octets) = 16

pub octets_of : IpAddr → List ℕ
octets_of (v4 octets) = octets
octets_of (v6 octets) = octets

pub record IsNetText (net : NetText) : Type 0 where
  pub counted :
      (host : List ℕ) (ip : IpAddr)
      → net.parse_ip host ≡ some ip
      → length (octets_of ip) ≡ octet_count ip
  pub printed : (ip : IpAddr) → net.ip_text ip ≢ []

-- The address that the peer sees: an IP address in its printed form.
pub seen_host : NetText → List ℕ → List ℕ
seen_host net host = elim (net.parse_ip host) [ some ip ↦ net.ip_text ip | none ↦ host ]

pub seen : NetText → Address → Address
unfolding seen_host
seen net a = record { host = seen_host net a.host; port = a.port }

pub read_u16-bytes :
    (port : ℕ) (rest : List ℕ) → port ≤ u16_max → read_u16 (be_u16 port ++ rest) ≡ ok (port, rest)
unfolding read_u16 be_u16 take_byte
read_u16-bytes port rest h = ap (λ p. ok (p, rest)) (from_be_u16-bytes port (omega arith))

-- Behind the host stand the port and the end of `decode_address`.
finish :
    (net : NetText) (kind port : ℕ) (field host rest : List ℕ)
    → port ≤ u16_max
    → host ≢ []
    → decode_host net kind (field ++ (be_u16 port ++ rest)) ≡ ok (host, be_u16 port ++ rest)
    → decode_address net (kind ∷ (field ++ (be_u16 port ++ rest)))
      ≡ ok (record { host = host; port = port }, rest)
unfolding decode_address take_byte
finish net kind port field [] rest fits named e = absurd (named refl)
finish net kind port field (b ∷ host) rest fits named e =
    rw (e, decode_address, read_u16-bytes port rest fits) (unfold new in refl)

decode_ip :
    (net : NetText) (ip : IpAddr) (port : ℕ) (rest : List ℕ)
    → IsNetText net
    → length (octets_of ip) ≡ octet_count ip
    → port ≤ u16_max
    → decode_address net (ip_frame ip ++ (be_u16 port ++ rest))
      ≡ ok (record { host = net.ip_text ip; port = port }, rest)
unfolding octets_of octet_count decode_host
decode_ip net (v4 octets) port rest n counted fits =
    finish net _ port octets (net.ip_text (v4 octets)) rest fits (n.printed (v4 octets))
      (rw (take_exact-append read 4 octets (be_u16 port ++ rest) counted) refl)
decode_ip net (v6 octets) port rest n counted fits =
    finish net _ port octets (net.ip_text (v6 octets)) rest fits (n.printed (v6 octets))
      (rw (take_exact-append read 16 octets (be_u16 port ++ rest) counted) refl)

decode_domain :
    (net : NetText) (host : List ℕ) (port : ℕ) (rest : List ℕ)
    → host ≢ []
    → is_ascii host ≡ true
    → port ≤ u16_max
    → decode_address net (sq_domain ∷ length host ∷ (host ++ (be_u16 port ++ rest)))
      ≡ ok (record { host = host; port = port }, rest)
unfolding decode_host read_domain take_byte utf8_text
decode_domain net host port rest named ascii fits =
    finish net sq_domain port (length host ∷ host) host rest fits named (
      rw
        (
          take_exact-append read (length host) host (be_u16 port ++ rest) refl,
          is_utf8_of_ascii host ascii,
        )
        refl)

-- The frame of a domain name that is within the limits, and the refusal of any other.
domain_cases :
    (host : List ℕ)
    → ((domain_frame host ≡ ok (sq_domain ∷ length host ∷ host))
        × (host ≢ [])
        × (length host ≤ 255)
        × (is_ascii host ≡ true))
      ⊎ ((domain_frame host ≡ err invalid_address)
          × ((host ≡ []) ⊎ (255 < length host) ⊎ (is_ascii host ≡ false)))
unfolding domain_frame
domain_cases [] = inr (refl, inl refl)
domain_cases (b ∷ rest) = elim (Bool-cases (is_ascii (b ∷ rest))) [
  | inl ascii ↦ elim (Bool-cases (ltb max_domain_length (length (b ∷ rest)))) [
    | inl long ↦ inr (rw long refl, inr (inl (ground arith)))
    | inr short ↦ inl (rw (short, ascii) refl, (λ e. cc), ground arith, ascii)
  ]
  | inr foreign ↦ inr (rw foreign (ground arith), inr (inr foreign))
]

-- The frame of an address that is encoded: of an IP address or of a domain name.
with_port-ok :
    (port : ℕ) (r : Result (List ℕ)) (front frame : List ℕ)
    → r ≡ ok front
    → with_port port r ≡ ok frame
    → frame ≡ front ++ be_u16 port
with_port-ok port (ok f) front frame e h = cc
with_port-ok port (err f) front frame e h = cc

encode_host-domain :
    (net : NetText) (host : List ℕ)
    → net.parse_ip host ≡ none
    → encode_host net host ≡ domain_frame host
unfolding encode_host
encode_host-domain net host e = rw (e, encode_host) refl

encode_host-ip :
    (net : NetText) (host : List ℕ) (ip : IpAddr)
    → net.parse_ip host ≡ some ip
    → encode_host net host ≡ ok (ip_frame ip)
unfolding encode_host
encode_host-ip net host ip e = rw (e, encode_host) refl

-- An address is encoded if its host is an IP address, or a name of 1 to 255 ASCII bytes; any other
-- is refused with an `InvalidAddress`.
pub encode_address-cases :
    (net : NetText) (a : Address)
    → ((frame : List ℕ) × (encode_address net a ≡ ok frame)
        × (((ip : IpAddr) × (net.parse_ip a.host ≡ some ip))
            ⊎ ((a.host ≢ []) × (length a.host ≤ 255) × (is_ascii a.host ≡ true))))
      ⊎ ((encode_address net a ≡ err invalid_address)
          × (net.parse_ip a.host ≡ none)
          × ((a.host ≡ []) ⊎ (255 < length a.host) ⊎ (is_ascii a.host ≡ false)))
unfolding encode_address encode_host
encode_address-cases net a = elim (Option-cases (net.parse_ip a.host)) [
  | inr (ip, found) ↦
      inl (ip_frame ip ++ be_u16 a.port, rw (found, encode_host) refl, inl (ip, found))
  | inl domain ↦ elim (domain_cases a.host) [
    | inl (e, named, short, ascii) ↦ inl (
      (sq_domain ∷ length a.host ∷ a.host) ++ be_u16 a.port,
      rw (domain, encode_host, e) refl,
      inr (named, short, ascii),
    )
    | inr (e, why) ↦ inr (rw (domain, encode_host, e) refl, domain, why)
  ]
]

by_domain :
    (net : NetText) (host : List ℕ) (port : ℕ) (frame rest : List ℕ)
    → port ≤ u16_max
    → with_port port (domain_frame host) ≡ ok frame
    → decode_address net (frame ++ rest) ≡ ok (record { host = host; port = port }, rest)
by_domain net host port frame rest fits e = elim (domain_cases host) [
  | inl (shape, named, short, ascii) ↦
      rw
        (
          with_port-ok port (domain_frame host) _ frame shape e,
          append_assoc host (be_u16 port) rest,
        )
        (decode_domain net host port rest named ascii fits)
  | inr (refused, why) ↦ absurd (not_ok port _ frame refused e)
]
  where
    not_ok :
        (port : ℕ) (r : Result (List ℕ)) (frame : List ℕ)
        → r ≡ err invalid_address
        → with_port port r ≡ ok frame
        → ⊥
    not_ok port (ok f) frame e h = cc
    not_ok port (err f) frame e h = cc

-- What is encoded of an address is decoded to the address that the peer sees, and nothing that
-- stands behind it is read.
pub decode-encode_address :
    (net : NetText) (a : Address) (frame rest : List ℕ)
    → IsNetText net
    → IsValid a
    → encode_address net a ≡ ok frame
    → decode_address net (frame ++ rest) ≡ ok (seen net a, rest)
unfolding encode_address seen seen_host
decode-encode_address net a frame rest n v e = elim (Option-cases (net.parse_ip a.host)) [
  | inl domain ↦
      let shape = encode_host-domain net a.host domain in
      rw (domain, seen, seen_host)
        (by_domain net a.host a.port frame rest v.port_fits (ap (with_port a.port) (sym shape) ∙ e))
  | inr (ip, found) ↦
      let shape = encode_host-ip net a.host ip found in
      rw
        (
          found,
          seen,
          seen_host,
          with_port-ok a.port (encode_host net a.host) (ip_frame ip) frame shape e,
          append_assoc (ip_frame ip) (be_u16 a.port) rest,
        )
        (decode_ip net ip a.port rest n (n.counted a.host ip found) v.port_fits)
]
