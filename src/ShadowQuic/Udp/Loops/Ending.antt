-- ===== src/ShadowQuic/Udp/Loops/Ending.antt =====
-- The control stream of an association of src/shadowquic/mod.rs ends, and cleans up.
use sing_quic_rs.Prelude.{
  ℕ, zero, suc, ◌<◌, ◌≡◌, ◌≢◌, ◌⊎◌, ◌∙◌, inl, inr, refl, sym, ap, true, false, Option, none, some,
  List, [], ◌∷◌, ◌++◌, length, arith, ◌==◌, Bool-cases,
}
use sing_quic_rs.Prelude.Map.{nat_key, get, get-insert_ne}
use sing_quic_rs.Error.{
  Error, read, protocol, invalid_address_type, Result, ok, err, ok-injective, bind-ok,
}
use sing_quic_rs.Reader.Shrinking.{
  Takes, Takes-bind, Takes-take_byte, Takes-take_exact, Takes-lift, Takes-pure, Takes-if,
  Takes-fail,
}
use sing_quic_rs.Address.{Address, NetText}
use sing_quic_rs.ShadowQuic.Wire.{
  read_domain, utf8_text, decode_host, read_u16, decode_address, sq_ipv4, sq_ipv6, sq_domain,
}
use sing_quic_rs.ShadowQuic.Udp.{
  IncomingUdpRegistry, control_round, control_end, remove_ids, register,
}
use sing_quic_rs.ShadowQuic.Udp.Registry.{is_among, get-remove_routes}
use sing_quic_rs.ShadowQuic.Udp.Loops.{control_rounds, handle_udp_control_stream}

Takes-read_u16 : Takes 1 read_u16
unfolding read_u16
Takes-read_u16 =
    Takes-bind 1 1 0 _ _ (omega arith) (Takes-take_byte read)
      (λ high. Takes-bind 0 1 0 _ _ (omega arith) (Takes-take_byte read) (λ low. Takes-pure _))

Takes-decode_host : (net : NetText) (kind : ℕ) → Takes 0 (decode_host net kind)
unfolding decode_host read_domain utf8_text
Takes-decode_host net kind =
    Takes-if 0 (kind == sq_ipv4) _ _
      (Takes-bind 0 0 0 _ _ (omega arith) (Takes-take_exact read 4) (λ bytes. Takes-pure _))
      (Takes-if 0 (kind == sq_ipv6) _ _
        (Takes-bind 0 0 0 _ _ (omega arith) (Takes-take_exact read 16) (λ bytes. Takes-pure _))
        (Takes-if 0 (kind == sq_domain) _ _
          (Takes-bind 0 1 0 _ _ (omega arith) (Takes-take_byte read) (λ n.
            Takes-bind 0 0 0 _ _ (omega arith) (Takes-take_exact read n) (λ bytes. Takes-lift _)))
          (Takes-fail (protocol invalid_address_type))))

Takes-decode_address : (net : NetText) → Takes 1 (decode_address net)
unfolding decode_address
Takes-decode_address net = Takes-bind 1 1 0 _ _ (omega arith) (Takes-take_byte read) (λ kind.
    Takes-bind 0 0 0 _ _ (omega arith) (Takes-decode_host net kind)
      (λ host. Takes-bind 0 1 0 _ _ (omega arith) Takes-read_u16 (λ port. Takes-lift _)))

is_among-snoc_self : (id : ℕ) (ids : List ℕ) → is_among id (ids ++ (id ∷ [])) ≡ true
is_among-snoc_self id [] = ground arith
is_among-snoc_self id (first ∷ ids) = ground (arith, is_among-snoc_self id ids)

is_among-snoc :
    (j id : ℕ) (ids : List ℕ) → is_among j ids ≡ true → is_among j (ids ++ (id ∷ [])) ≡ true
is_among-snoc j id [] h = absurd cc
is_among-snoc j id (first ∷ ids) h = ground (arith, is_among-snoc j id ids)

-- A round that is not the last registers the id that it keeps, and shortens the stream.
control_round-ok :
    (net : NetText) (sender : ℕ) (ids ids' unread rest : List ℕ) (r r' : IncomingUdpRegistry)
    → control_round net sender ids unread r ≡ ok (ids', rest, r')
    → (id : ℕ) × (destination : Address) × (ids' ≡ ids ++ (id ∷ []))
      × (r' ≡ register id destination sender r)
      × (length rest < length unread)
unfolding control_round
control_round-ok net sender ids ids' unread rest r r' e =
    let ((destination, behind), first, next) = bind-ok (decode_address net unread) _ _ e in
    let ((id, left), second, last) = bind-ok (read_u16 behind) _ _ next in
    let same = ok-injective _ (ids', rest, r') last in
    let left_rest : left ≡ rest = ap (λ (p : List ℕ × List ℕ × IncomingUdpRegistry). p.1) same in
    let address_taken = (Takes-decode_address net).shorter unread destination behind first in
    let id_taken = Takes-read_u16.shorter behind id left second in
    (
      id,
      destination,
      ap (λ (p : List ℕ × List ℕ × IncomingUdpRegistry). p.0) (sym same),
      ap (λ (p : List ℕ × List ℕ × IncomingUdpRegistry). p.2) (sym same),
      rw (← left_rest) (omega (arith, address_taken, id_taken)),
    )

-- Every id that the control stream has not registered has its route as before.
abbrev IsKept : List ℕ → IncomingUdpRegistry → IncomingUdpRegistry → Type 0
IsKept ids before r =
    (r.closed ≡ before.closed)
    × ((j : ℕ) → (is_among j ids ≡ true) ⊎ (get j r.routes ≡ get j before.routes))

register-IsKept :
    (id sender : ℕ) (destination : Address) (ids : List ℕ) (before r : IncomingUdpRegistry)
    → IsKept ids before r
    → IsKept (ids ++ (id ∷ [])) before (register id destination sender r)
unfolding register
register-IsKept id sender destination ids before r k = (
  k.0,
  λ j. elim (k.1 j) [
    | inl own ↦ inl (is_among-snoc j id ids own)
    | inr same ↦ elim (Bool-cases (id == j)) [
      | inl equal ↦
          inl (let e : id ≡ j = ground (arith, equal) in rw (← e) (is_among-snoc_self id ids))
      | inr other ↦
          let apart : id ≢ j = λ e. ground (arith, other, e) in
          inr (get-insert_ne id j _ r.routes apart ∙ same)
    ]
  ],
)

-- No route is left that was not there before.
abbrev pub IsCleaned : IncomingUdpRegistry → IncomingUdpRegistry → Type 0
IsCleaned before after =
    (after.closed ≡ before.closed)
    × ((j : ℕ) → (get j after.routes ≡ none) ⊎ (get j after.routes ≡ get j before.routes))

control_end-IsCleaned :
    (ids : List ℕ) (before r : IncomingUdpRegistry)
    → IsKept ids before r
    → IsCleaned before (control_end ids r)
unfolding control_end remove_ids
control_end-IsCleaned ids before r k = (
  k.0,
  λ j. elim (Bool-cases (is_among j ids)) [
    | inl own ↦ inl (ground (arith, get-remove_routes ids r.routes j))
    | inr other ↦ elim (k.1 j) [
      | inl own ↦ absurd (let f : true ≡ false = sym own ∙ other in cc)
      | inr same ↦ inr (ground (arith, get-remove_routes ids r.routes j, same))
    ]
  ],
)

-- The loop's end.
abbrev pub IsEnded : IncomingUdpRegistry → Option (Error × IncomingUdpRegistry) → Type 0
IsEnded before none = ⊥
IsEnded before (some (e, after)) = IsCleaned before after

control_rounds-IsEnded :
    (net : NetText) (sender fuel : ℕ) (ids unread : List ℕ) (before r : IncomingUdpRegistry)
    → length unread < fuel
    → IsKept ids before r
    → IsEnded before (control_rounds net sender fuel ids unread r)
unfolding control_rounds
control_rounds-IsEnded net sender zero ids unread before r enough k = absurd (omega arith)
control_rounds-IsEnded net sender (suc fuel) ids unread before r enough k =
    by_round (control_round net sender ids unread r) refl (λ ids' rest r' less kept.
      control_rounds-IsEnded net sender fuel ids' rest before r' (omega (arith, less)) kept)
  where
    by_round :
        (result : Result (List ℕ × List ℕ × IncomingUdpRegistry))
        → control_round net sender ids unread r ≡ result
        → ((ids' rest : List ℕ) (r' : IncomingUdpRegistry)
            → length rest < length unread
            → IsKept ids' before r'
            → IsEnded before (control_rounds net sender fuel ids' rest r'))
        → IsEnded before (elim result [
          | err e ↦ some (e, control_end ids r)
          | ok (ids', rest, r') ↦ control_rounds net sender fuel ids' rest r'
        ])
    by_round (err e) h next = control_end-IsCleaned ids before r k
    by_round (ok (ids', rest, r')) h next =
        let (id, destination, grown, registered, less) =
          control_round-ok net sender ids ids' unread rest r r' h in
        next ids' rest r' less
          (rw (grown, registered) (register-IsKept id sender destination ids before r k))

-- On whatever bytes, the loop of the control stream ends, and the routes it has registered are gone:
-- under every id there is the route of before or none, and the registry is closed if it was.
pub handle_udp_control_stream-IsEnded :
    (net : NetText) (sender : ℕ) (unread : List ℕ) (before : IncomingUdpRegistry)
    → IsEnded before (handle_udp_control_stream net sender unread before)
unfolding handle_udp_control_stream
handle_udp_control_stream-IsEnded net sender unread before =
    control_rounds-IsEnded net sender (suc (length unread)) [] unread before before (omega arith)
      (refl, λ j. inr refl)
