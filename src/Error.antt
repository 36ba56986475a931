-- ===== src/Error.antt =====
-- src/error.rs: the crate's error type, and `Result<T>` as a sum with its `?` as `>>=`.
-- The texts of `Error::Protocol` are the constructors of `Message`.
use sing_quic_rs.Prelude.{ℕ, ◌≡◌, refl, Bool, true, false, List, if◌then◌else◌}

-- quinn::ConnectionError as far as the crate looks into it.
pub data ConnectionError : Type 0 where
  locally_closed timed_out other : ConnectionError
  application_closed : ℕ → ConnectionError

pub data Message : Type 0 where
  unexpected_frame_type : ℕ → Message
  request_padding_too_large response_message_too_large response_padding_too_large : Message
  remote_error : List ℕ → Message
  reassembled_packet_too_large packet_too_large address_exceeds_datagram : Message
  too_many_fragments truncated_message truncated_address : Message
  missing_address_length truncated_address_length : Message
  send_datagram_failed finish_failed closed_before_authentication : Message
  truncated_squic_datagram squic_packet_too_large invalid_address_type : Message
  authentication_timed_out invalid_credentials sunny_authentication_failed : Message

pub data Error : Type 0 where
  io connect write read tls quic_tls invalid_private_key : Error
  connection : ConnectionError → Error
  invalid_server_name : List ℕ → Error
  invalid_address invalid_var_int jls_authentication_failed : Error
  authentication_failed : ℕ → Error
  protocol : Message → Error
  http3 congestion_control closed : Error

pub data Result {ℓ} (A : Type ℓ) : Type ℓ where
  ok : A → Result A
  err : Error → Result A

-- The `?` operator: the first error is the result.
infixl 5 ◌>>=◌
abbrev pub ◌>>=◌ {ℓ κ} : {S : Type ℓ} {T : Type κ} → Result S → (S → Result T) → Result T
err why >>= next = err why
ok value >>= next = next value

pub ok-injective {ℓ} : {A : Type ℓ} (a b : A) → ok a ≡ ok b → a ≡ b
ok-injective a b e = cc

-- A chain that succeeds has succeeded at its first step.
pub bind-ok {ℓ κ} :
    {S : Type ℓ} {T : Type κ} (r : Result S) (next : S → Result T) (value : T)
    → r >>= next ≡ ok value
    → (first : S) × (r ≡ ok first) × (next first ≡ ok value)
bind-ok (ok first) next value e = (first, refl, e)
bind-ok (err why) next value e = absurd cc

-- A test with an error behind it, in a chain that succeeds.
pub if-ok {ℓ} :
    {A : Type ℓ} (t : Bool) (r : Result A) (e : Error) (a : A)
    → (if t then r else err e) ≡ ok a
    → r ≡ ok a
if-ok true r e a h = h
if-ok false r e a h = absurd cc

pub if_err-ok {ℓ} :
    {A : Type ℓ} (t : Bool) (e : Error) (r : Result A) (a : A)
    → (if t then err e else r) ≡ ok a
    → (t ≡ false) × (r ≡ ok a)
if_err-ok true e r a h = absurd cc
if_err-ok false e r a h = (refl, h)
