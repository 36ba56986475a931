-- ===== src/Address.antt =====
-- src/address.rs: a destination host and port, its text and the parser of the text.
-- A host is the list of its bytes. The text forms of `std::net` addresses are the parameter
-- `NetText`: the code only asks whether a text is one, and takes its printed form.
pub mod RoundTrip
pub mod Standard
use sing_quic_rs.Prelude.{
  ℕ, ◌≤◌, ◌≡◌, ◌≢◌, Bool, true, false, Option, none, some, List, [], ◌∷◌, ◌++◌, if◌then◌else◌,
}
use sing_quic_rs.Error.{Error, invalid_address, Result, ok, err, ◌>>=◌}
use sing_quic_rs.Decimal.{parse_uint, to_decimal, u16_max}
use sing_quic_rs.Text.{contains, rsplit_once, strip_prefix, strip_suffix}

-- std::net::IpAddr by its octets.
pub data IpAddr : Type 0 where
  v4 : List ℕ → IpAddr
  v6 : List ℕ → IpAddr

-- The `FromStr` of `SocketAddr` (address and port) and of `IpAddr`, and the `Display` of `IpAddr`.
pub record NetText : Type 0 where
  pub parse_socket : List ℕ → Option (IpAddr × ℕ)
  pub parse_ip : List ℕ → Option IpAddr
  pub ip_text : IpAddr → List ℕ

pub record Address : Type 0 where
  pub host : List ℕ
  pub port : ℕ

-- Address::new
unfoldable pub new : List ℕ → ℕ → Result Address
new [] port = err invalid_address
new (b ∷ rest) port = ok (record { host = b ∷ rest; port = port })

-- From<SocketAddr> for Address
unfoldable pub from_socket : NetText → IpAddr × ℕ → Address
from_socket net (ip, port) = record { host = net.ip_text ip; port = port }

abbrev pub or_error {ℓ} : {A : Type ℓ} → Option A → Error → Result A
or_error none e = err e
or_error (some a) e = ok a

-- `host.strip_prefix('[').and_then(|item| item.strip_suffix(']')).unwrap_or(host)`
unfoldable pub strip_brackets : List ℕ → List ℕ
strip_brackets host = elim (strip_prefix b'[' host) [
  | none ↦ host
  | some item ↦ elim (strip_suffix b']' item) [ none ↦ host | some inner ↦ inner ]
]

-- The part of `from_str` behind the test for a socket address.
unfoldable pub from_authority : List ℕ → Result Address
unfolding strip_brackets new
from_authority value = do
  (host, port) ← or_error (rsplit_once b':' value) invalid_address
  number ← or_error (parse_uint u16_max port) invalid_address
  new (strip_brackets host) number

-- FromStr for Address
unfoldable pub from_str : NetText → List ℕ → Result Address
unfolding from_authority from_socket
from_str net value = elim (net.parse_socket value) [
  | some socket ↦ ok (from_socket net socket)
  | none ↦ from_authority value
]

-- Display for Address
unfoldable pub display : Address → List ℕ
display a =
    if contains b':' a.host
    then b'[' ∷ (a.host ++ (b']' ∷ b':' ∷ to_decimal a.port))
    else a.host ++ (b':' ∷ to_decimal a.port)

-- A `u16` port, and a host that is not empty: what the type and `Address::new` promise.
pub record IsValid (a : Address) : Type 0 where
  pub named : a.host ≢ []
  pub port_fits : a.port ≤ u16_max
