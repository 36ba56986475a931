-- ===== src/Address/Standard.antt =====
-- The addresses of src/address.rs against the texts of `std::net`: `SocketAddr` prints an IPv6 address in
-- brackets and an IPv4 address without, and parses what it prints.
use sing_quic_rs.Prelude.{
  ℕ, ◌≡◌, ◌≢◌, ◌⊎◌, inl, inr, refl, Bool, true, false, none, some, List, [], ◌∷◌, ◌++◌,
}
use sing_quic_rs.Error.{ok}
use sing_quic_rs.Decimal.{to_decimal}
use sing_quic_rs.Text.{contains}
use sing_quic_rs.Address.{IpAddr, v4, v6, NetText, Address, from_str, display, IsValid}
use sing_quic_rs.Address.RoundTrip.{from_str-display}

-- A host and a port as one text, with the host in brackets or not.
abbrev pub socket_text : Bool → List ℕ → ℕ → List ℕ
socket_text true host port = b'[' ∷ (host ++ (b']' ∷ b':' ∷ to_decimal port))
socket_text false host port = host ++ (b':' ∷ to_decimal port)

abbrev pub is_v6 : IpAddr → Bool
is_v6 (v4 octets) = false
is_v6 (v6 octets) = true

-- A name, whose text is no socket address; or the text of an IP address, which has a colon exactly
-- if it is an IPv6 address, and which `std::net` parses in a socket address as it prints one.
pub record IsStandard (net : NetText) (a : Address) : Type 0 where
  pub valid : IsValid a
  pub plain : (inner : List ℕ) → a.host ≢ b'[' ∷ (inner ++ (b']' ∷ []))
  pub bracketed : Bool
  pub colon : contains b':' a.host ≡ bracketed
  pub known :
      (net.parse_socket (socket_text bracketed a.host a.port) ≡ none)
      ⊎ ((ip : IpAddr) × (net.ip_text ip ≡ a.host)
          × (is_v6 ip ≡ bracketed)
          × (net.parse_socket (socket_text (is_v6 ip) (net.ip_text ip) a.port) ≡ some (ip, a.port)))

display-socket_text :
    (a : Address) (b : Bool) → contains b':' a.host ≡ b → display a ≡ socket_text b a.host a.port
unfolding display
display-socket_text a true e = rw e refl
display-socket_text a false e = rw e refl

-- The text of an address parses back to the address. The host is a name in no brackets of its own, of
-- which `std::net` need only refuse the text, or the text of an IP address; of `std::net` it is
-- assumed that it parses the socket address of this IP address with brackets around an IPv6 address,
-- and without around an IPv4 address.
pub from_str-display_standard :
    (net : NetText) (a : Address) → IsStandard net a → from_str net (display a) ≡ ok a
from_str-display_standard net a s =
    let text = display-socket_text a s.bracketed s.colon in
    from_str-display net a (record {
      valid = s.valid;
      plain = s.plain;
      known = elim s.known [
        | inl name ↦ inl (rw text name)
        | inr (ip, printed, version, parsed) ↦
            inr (ip, rw (text, ← version, ← printed) parsed, printed)
      ];
    })
