-- ===== src/Tls/Keys.antt =====
-- Which key `detect_private_key` of src/shadowquic/mod.rs and src/hysteria2/server.rs chooses.
use sing_quic_rs.Prelude.{ℕ, ◌≡◌, refl, Bool, true, false, List, if◌then◌else◌}
use sing_quic_rs.Error.{tls, Result, ok, err}
use sing_quic_rs.Tls.{PrivateKey, pkcs8, pkcs1, sec1, Rustls, first_supported, detect_private_key}

-- The first of PKCS#8, PKCS#1 and SEC1 that is supported, or a TLS error if none is.
abbrev pub IsDetected : Rustls → List ℕ → Result PrivateKey → Type 0
IsDetected rustls key (ok (pkcs8 k)) = (k ≡ key) × (rustls.any_supported_type (pkcs8 key) ≡ true)
IsDetected rustls key (ok (pkcs1 k)) =
    (k ≡ key)
    × (rustls.any_supported_type (pkcs8 key) ≡ false)
    × (rustls.any_supported_type (pkcs1 key) ≡ true)
IsDetected rustls key (ok (sec1 k)) =
    (k ≡ key)
    × (rustls.any_supported_type (pkcs8 key) ≡ false)
    × (rustls.any_supported_type (pkcs1 key) ≡ false)
    × (rustls.any_supported_type (sec1 key) ≡ true)
IsDetected rustls key (err e) =
    (e ≡ tls)
    × (rustls.any_supported_type (pkcs8 key) ≡ false)
    × (rustls.any_supported_type (pkcs1 key) ≡ false)
    × (rustls.any_supported_type (sec1 key) ≡ false)

-- Whatever the bytes, the key keeps them, is the first supported of the three forms, and is refused
-- with a TLS error only if no form is supported.
pub detect_private_key-IsDetected :
    (rustls : Rustls) (key : List ℕ) → IsDetected rustls key (detect_private_key rustls key)
unfolding detect_private_key first_supported
detect_private_key-IsDetected rustls key =
    by_tests (rustls.any_supported_type (pkcs8 key)) (rustls.any_supported_type (pkcs1 key))
      (rustls.any_supported_type (sec1 key)) refl refl refl
  where
    by_tests :
        (a b c : Bool)
        → rustls.any_supported_type (pkcs8 key) ≡ a
        → rustls.any_supported_type (pkcs1 key) ≡ b
        → rustls.any_supported_type (sec1 key) ≡ c
        → IsDetected rustls key (
            if a
            then ok (pkcs8 key)
            else if b
            then ok (pkcs1 key)
            else if c
            then ok (sec1 key)
            else err tls)
    by_tests true b c e f g = (refl, e)
    by_tests false true c e f g = (refl, e, f)
    by_tests false false true e f g = (refl, e, f, g)
    by_tests false false false e f g = (refl, e, f, g)
