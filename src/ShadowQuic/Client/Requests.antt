-- ===== src/ShadowQuic/Client/Requests.antt =====
-- The requests of the client of src/shadowquic/mod.rs at the server of the same file.
use sing_quic_rs.Prelude.{ℕ, ◌≡◌, refl, Bool, true, false, List, [], ◌∷◌, ◌++◌, if◌then◌else◌}
use sing_quic_rs.Error.{closed, Result, ok, err}
use sing_quic_rs.Address.{Address, NetText, IsValid}
use sing_quic_rs.ShadowQuic.Wire.{
  encode_address, encode_connect, with_code, sq_connect, decode_address,
}
use sing_quic_rs.ShadowQuic.Wire.Codec.{IsNetText, seen, decode-encode_address}
use sing_quic_rs.ShadowQuic.Server.{
  ServerAuthentication, accepted_stream, Shared, returned, wait_for_sunny_auth, answered,
  chosen_user, handle_connect, addressed, accept, authenticated, handle_opcode, handle_bi_stream,
}
use sing_quic_rs.ShadowQuic.Client.{connect_request}

with_code-ok :
    (code : ℕ) (r : Result (List ℕ)) (bytes : List ℕ)
    → with_code code r ≡ ok bytes
    → (frame : List ℕ) × (r ≡ ok frame) × (bytes ≡ code ∷ frame)
with_code-ok code (ok frame) bytes e = (frame, refl, (let h : bytes ≡ code ∷ frame = cc in h))
with_code-ok code (err e') bytes e = cc

connected :
    (net : NetText) (authentication : ServerAuthentication) (user name frame rest : List ℕ)
    (destination : Address) (s : Shared)
    → s.accepting ≡ true
    → decode_address net (frame ++ rest) ≡ ok (destination, rest)
    → handle_connect net authentication user (frame ++ rest) name s
      ≡ returned (ok tt) (record s {
        accepted = s.accepted ++ (accepted_stream destination (chosen_user user name) ∷ []);
      })
unfolding handle_connect addressed accept
connected net authentication user name frame rest destination s taking decoded =
    rw (decoded, handle_connect, addressed) (taken s.accepting taking)
  where
    taken :
        (b : Bool)
        → b ≡ true
        → (if b
            then returned (ok tt) (record s {
              accepted = s.accepted ++ (accepted_stream destination (chosen_user user name) ∷ []);
            })
            else returned (err closed) s)
          ≡ returned (ok tt) (record s {
            accepted = s.accepted ++ (accepted_stream destination (chosen_user user name) ∷ []);
          })
    taken true e = refl
    taken false e = cc

-- The request that the client writes for a destination makes an authenticated server hand over a
-- stream for that destination, as the server sees it, and for the authenticated user; the bytes
-- behind the request belong to the stream.
pub connect-accepted :
    (net : NetText) (authentication : ServerAuthentication) (user name bytes rest : List ℕ)
    (destination : Address) (s : Shared)
    → IsNetText net
    → IsValid destination
    → connect_request net destination ≡ ok bytes
    → wait_for_sunny_auth authentication s.auth ≡ answered (ok name)
    → s.accepting ≡ true
    → handle_bi_stream net authentication user (bytes ++ rest) s
      ≡ returned (ok tt) (record s {
        accepted =
            s.accepted ++ (accepted_stream (seen net destination) (chosen_user user name) ∷ []);
      })
unfolding connect_request encode_connect handle_bi_stream handle_opcode authenticated
connect-accepted net authentication user name bytes rest destination s n v e known taking =
    let (frame, encoded, shape) =
      with_code-ok sq_connect (encode_address net destination) bytes e in
    let decoded = decode-encode_address net destination frame rest n v encoded in
    rw (shape, known, authenticated)
      (connected net authentication user name frame rest (seen net destination) s taking decoded)
