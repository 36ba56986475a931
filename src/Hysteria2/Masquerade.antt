-- ===== src/Hysteria2/Masquerade.antt =====
-- The masquerade of src/hysteria2/server.rs: what a request gets that is none of the proxy's. The
-- handler is a parameter, and `works` says which sends on the HTTP/3 stream succeed.
pub mod Replies
use sing_quic_rs.Prelude.{
  ℕ, ◌+◌, ◌*◌, Bool, true, false, not, ◌&&◌, ◌||◌, Option, none, some, List, [], ◌∷◌, ◌++◌, length,
  ltb, leb, ◌==◌, if◌then◌else◌,
}
use sing_quic_rs.Prelude.Map.{Map, Key, bytes_key, get, insert, remove}
use sing_quic_rs.Prelude.Bytes.{bytes_eq}
use sing_quic_rs.Decimal.{to_decimal}
use sing_quic_rs.Error.{Error, http3, Result, ok, err}

-- "HEAD", "connection", "transfer-encoding" and "content-length"
abbrev pub head : List ℕ
head = b'H' ∷ b'E' ∷ b'A' ∷ b'D' ∷ []

abbrev pub connection_header : List ℕ
connection_header = b'c' ∷ b'o' ∷ b'n' ∷ b'n' ∷ b'e' ∷ b'c' ∷ b't' ∷ b'i' ∷ b'o' ∷ b'n' ∷ []

abbrev pub transfer_encoding : List ℕ
transfer_encoding =
    b't' ∷ b'r' ∷ b'a' ∷ b'n' ∷ b's' ∷ b'f' ∷ b'e' ∷ b'r' ∷ b'-' ∷ b'e' ∷ b'n' ∷ b'c' ∷ b'o' ∷ b'd'
    ∷ b'i' ∷ b'n' ∷ b'g' ∷ []

abbrev pub content_length : List ℕ
content_length =
    b'c' ∷ b'o' ∷ b'n' ∷ b't' ∷ b'e' ∷ b'n' ∷ b't' ∷ b'-' ∷ b'l' ∷ b'e' ∷ b'n' ∷ b'g' ∷ b't' ∷ b'h'
    ∷ []

-- 16 MiB
abbrev pub max_masquerade_request_size : ℕ
max_masquerade_request_size = 16 * 1024 * 1024

-- http::HeaderMap, by lower-case names
abbrev pub Headers : Type 0
Headers = Map (List ℕ) (List ℕ)

pub record Response : Type 0 where
  pub status : ℕ
  pub headers : Headers
  pub content : List ℕ

-- What is sent on the stream.
pub data Sent : Type 0 where
  response : ℕ → Headers → Sent
  bytes : List ℕ → Sent
  end_of_stream : Sent

-- `!status.is_informational() && status != NO_CONTENT && status != NOT_MODIFIED`
unfoldable pub body_is_allowed : ℕ → Bool
body_is_allowed status =
    not (leb 100 status && ltb status 200) && not (status == 204) && not (status == 304)

abbrev pub is_some {ℓ} : {A : Type ℓ} → Option A → Bool
is_some none = false
is_some (some a) = true

unfoldable pub reply_headers : Response → Bool → Headers
unfolding body_is_allowed get insert remove to_decimal
reply_headers reply is_head =
    let kept = remove transfer_encoding (remove connection_header reply.headers) in
    let measured = insert content_length (to_decimal (length reply.content)) kept in
    if is_head
    then (if is_some (get content_length kept) then kept else measured)
    else if body_is_allowed reply.status
    then measured
    else remove content_length kept

-- The sends of `send_masquerade_response`, in order.
unfoldable pub reply_sends : Response → Bool → List Sent
unfolding reply_headers body_is_allowed
reply_sends reply is_head =
    response reply.status (reply_headers reply is_head)
    ∷ ((if not is_head && body_is_allowed reply.status && not (length reply.content == 0)
          then bytes reply.content ∷ []
          else [])
        ++ (end_of_stream ∷ []))

-- Sends up to the first that fails.
unfoldable pub perform : (Sent → Bool) → List Sent → Result (Unit {0})
perform works [] = ok tt
perform works (s ∷ sends) = let rest = perform works sends in if works s then rest else err http3

unfoldable pub send_masquerade_response : (Sent → Bool) → Response → Bool → Result (Unit {0})
unfolding perform reply_sends
send_masquerade_response works reply is_head = perform works (reply_sends reply is_head)

-- How the reading of the body ends.
pub data Collected : Type 0 where
  whole : List ℕ → Collected
  too_large failed_read : Collected

-- The loop over `recv_data`: a chunk, or the failure of a read.
unfoldable pub collect : List ℕ → List (Option (List ℕ)) → Collected
collect body [] = whole body
collect body (none ∷ chunks) = failed_read
collect body (some chunk ∷ chunks) =
    let rest = collect (body ++ chunk) chunks in
    if ltb max_masquerade_request_size (length body + length chunk) then too_large else rest

abbrev pub empty_response : ℕ → Response
empty_response status = record { status = status; headers = []; content = [] }

-- The response to a request with this body; `none` is the failure of a read.
unfoldable pub choose_response : Option (List ℕ → Response) → Collected → Option Response
choose_response masquerade failed_read = none
choose_response masquerade too_large = some (empty_response 413)
choose_response none (whole body) = some (empty_response 404)
choose_response (some handler) (whole body) = some (handler body)

unfoldable pub answer : (Sent → Bool) → Bool → Option Response → Result (Unit {0})
unfolding send_masquerade_response
answer works is_head none = err http3
answer works is_head (some reply) = send_masquerade_response works reply is_head

unfoldable pub serve_masquerade_request :
    (Sent → Bool) → List ℕ → List (Option (List ℕ)) → Option (List ℕ → Response) → Result (Unit {0})
unfolding answer choose_response collect bytes_eq
serve_masquerade_request works method chunks masquerade =
    answer works (bytes_eq method head) (choose_response masquerade (collect [] chunks))
