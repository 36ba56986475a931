-- ===== src/Tls.antt =====
-- The TLS settings that src/shadowquic/mod.rs and src/hysteria2 build. `Rustls` stands for the crates rustls,
-- rcgen and webpki-roots: which keys, certificates and settings they take. The errors of these crates
-- carry texts that the code passes on unread.
pub mod Keys
use sing_quic_rs.Prelude.{ℕ, Bool, Option, some, none, List, [], ◌∷◌, ◌++◌, if◌then◌else◌}
use sing_quic_rs.Error.{tls, Result, ok, err}

-- PrivateKeyDer
pub data PrivateKey : Type 0 where
  pkcs8 pkcs1 sec1 : List ℕ → PrivateKey

-- The fields of `JlsServerConfig` that are set; `users` holds passwords and names as `add_user` is
-- given them.
pub record JlsServer : Type 0 where
  pub rate_limit : ℕ
  pub upstream_addr : Option (List ℕ)
  pub server_name : Option (List ℕ)
  pub users : List (List ℕ × List ℕ)

-- The fields of the TLS configurations that are set; the ALPN protocol is always "h3".
pub record ServerTls : Type 0 where
  pub certificates : List (List ℕ)
  pub private_key : PrivateKey
  pub max_early_data_size : ℕ
  pub jls : Option JlsServer

pub record ClientTls : Type 0 where
  pub roots : List (List ℕ)
  pub enable_early_data : Bool
  pub jls : Option (List ℕ × List ℕ)

pub record Rustls : Type 0 where
  pub any_supported_type : PrivateKey → Bool
  pub with_single_cert : List (List ℕ) → PrivateKey → Bool
  pub server_crypto : ServerTls → Bool
  pub client_crypto : ClientTls → Bool
  pub takes_root : List ℕ → Bool
  pub webpki_roots : List (List ℕ)
  pub self_signed : Option (List ℕ × List ℕ)

module _ (rustls : Rustls) where
  -- The loop of `detect_private_key`; the error is that of the last candidate.
  unfoldable pub first_supported : List PrivateKey → Result PrivateKey
  first_supported [] = err tls
  first_supported (candidate ∷ rest) =
      let others = first_supported rest in
      if rustls.any_supported_type candidate then ok candidate else others

  -- detect_private_key
  unfoldable pub detect_private_key : List ℕ → Result PrivateKey
  unfolding first_supported
  detect_private_key key = first_supported (pkcs8 key ∷ pkcs1 key ∷ sec1 key ∷ [])

  -- `for certificate in &options.ca_certificates { roots.add(..)?; }`
  unfoldable pub add_roots : List (List ℕ) → List (List ℕ) → Result (List (List ℕ))
  add_roots roots [] = ok roots
  add_roots roots (certificate ∷ rest) =
      let others = add_roots (roots ++ (certificate ∷ [])) rest in
      if rustls.takes_root certificate then others else err tls
