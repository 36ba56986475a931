-- ===== src/Hysteria2/Masquerade/Replies.antt =====
-- What the replies of the masquerade of src/hysteria2/server.rs keep.
use sing_quic_rs.Prelude.{
  ℕ, ◌+◌, ◌≤◌, inl, inr, Option, none, some, List, [], ◌∷◌, ◌++◌, length, length-append, ltb, arith,
  Bool-cases,
}
use sing_quic_rs.Prelude.Map.{bytes_key}
use sing_quic_rs.Hysteria2.Masquerade.{
  max_masquerade_request_size, Collected, whole, too_large, failed_read, collect,
}

-- A body that is passed on is within the limit.
pub IsWithin : Collected → Type 0
IsWithin (whole body) = length body ≤ max_masquerade_request_size
IsWithin too_large = Unit {0}
IsWithin failed_read = Unit {0}

collect-IsWithin_from :
    (body : List ℕ) (chunks : List (Option (List ℕ)))
    → length body ≤ max_masquerade_request_size
    → IsWithin (collect body chunks)
unfolding collect IsWithin
collect-IsWithin_from body [] h = h
collect-IsWithin_from body (none ∷ chunks) h = tt
collect-IsWithin_from body (some chunk ∷ chunks) h =
    elim (Bool-cases (ltb max_masquerade_request_size (length body + length chunk))) [
      | inl large ↦ rw large tt
      | inr small ↦
          rw small (
            collect-IsWithin_from (body ++ chunk) chunks (ground (arith, length-append body chunk)))
    ]

-- However the body of a masqueraded request is cut into chunks, what is passed to the handler is at
-- most 16 MiB.
pub collect-IsWithin : (chunks : List (Option (List ℕ))) → IsWithin (collect [] chunks)
collect-IsWithin chunks = collect-IsWithin_from [] chunks (omega arith)
