-- ===== src/Hysteria2/Sessions/Consistency.antt =====
-- The table of sessions in src/hysteria2/server.rs, and the sessions it leads to.
use sing_quic_rs.Prelude.{
  ℕ, zero, suc, ◌<◌, ◌≡◌, ◌≢◌, ◌⊎◌, ◌∙◌, inl, inr, refl, sym, ap, none, some, List, [], ◌∷◌, ◌++◌,
  length, set, get_elem?, arith, length-set, Bool-cases, ◌==◌, length-append,
}
use sing_quic_rs.Prelude.Map.{nat_key, get, get-insert, get-insert_same, get-insert_ne}
use sing_quic_rs.Address.{NetText}
use sing_quic_rs.Congestion.{CongestionKind}
use sing_quic_rs.Hysteria2.Packet.{UdpMessage}
use sing_quic_rs.Hysteria2.Defragger.Invariant.{IsSound}
use sing_quic_rs.Hysteria2.Defragger.Delivery.{get_elem?-lt_length}
use sing_quic_rs.Hysteria2.PacketConnection
use sing_quic_rs.Hysteria2.PacketConnection.{
  PacketConnection, Taken, done, panics, input, recv, send,
}
use sing_quic_rs.Hysteria2.PacketConnection.Keeping.{Keeps}
use sing_quic_rs.Hysteria2.Sessions.{Sessions, Served, serving, ended, panicked, store, enter}

module _ {ℓ} {A : Type ℓ} where
  get_elem?-set_cases :
      (xs : List A) (i j : ℕ) (v w : A)
      → get_elem? (set xs i v) j ≡ some w
      → ((i ≡ j) × (v ≡ w)) ⊎ (get_elem? xs j ≡ some w)
  get_elem?-set_cases [] i j v w e = inr e
  get_elem?-set_cases (x ∷ xs) zero zero v w e = inl (refl, cc)
  get_elem?-set_cases (x ∷ xs) zero (suc j) v w e = inr e
  get_elem?-set_cases (x ∷ xs) (suc i) zero v w e = inr e
  get_elem?-set_cases (x ∷ xs) (suc i) (suc j) v w e = elim (get_elem?-set_cases xs i j v w e) [
    | inl (same, v_w) ↦ inl (ap suc same, v_w)
    | inr old ↦ inr old
  ]

  get_elem?-snoc_cases :
      (xs : List A) (j : ℕ) (v w : A)
      → get_elem? (xs ++ (v ∷ [])) j ≡ some w
      → ((j ≡ length xs) × (v ≡ w)) ⊎ (get_elem? xs j ≡ some w)
  get_elem?-snoc_cases [] zero v w e = inl (refl, cc)
  get_elem?-snoc_cases [] (suc j) v w e = cc
  get_elem?-snoc_cases (x ∷ xs) zero v w e = inr e
  get_elem?-snoc_cases (x ∷ xs) (suc j) v w e = elim (get_elem?-snoc_cases xs j v w e) [
    | inl (last, v_w) ↦ inl (ap suc last, v_w)
    | inr old ↦ inr old
  ]

-- The caller holds the session `c` at `place`.
abbrev pub At : Sessions → ℕ → PacketConnection → Type 0
At s place c = get_elem? s.heap place ≡ some (some c)

-- Every session that the caller holds is the one that the table finds under its id, the table leads
-- to no other place, and the map of fragments of each is sound.
pub record IsConsistent (s : Sessions) : Type 0 where
  pub found :
      (place : ℕ) (c : PacketConnection) → At s place c → get c.session_id s.sessions ≡ some place
  pub entered : (id place : ℕ) → get id s.sessions ≡ some place → place < length s.heap
  pub named :
      (id place : ℕ) (c : PacketConnection)
      → get id s.sessions ≡ some place
      → At s place c
      → c.session_id ≡ id
  pub sound : (place : ℕ) (c : PacketConnection) → At s place c → IsSound c.defragger

abbrev pub IsServed : Served → Type 0
IsServed (serving s) = IsConsistent s
IsServed (ended e s) = IsConsistent s
IsServed panicked = ⊥

store_cases :
    (place p : ℕ) (c d : PacketConnection) (s : Sessions)
    → At (store place c s) p d
    → ((place ≡ p) × (c ≡ d)) ⊎ At s p d
store_cases place p c d s e = elim (get_elem?-set_cases s.heap place p (some c) (some d) e) [
  | inl (same, new) ↦ inl (same, cc)
  | inr old ↦ inr old
]

-- A session that changes in place, under its id.
pub store-IsConsistent :
    (place : ℕ) (c c' : PacketConnection) (s : Sessions)
    → At s place c
    → Keeps c c'
    → IsConsistent s
    → IsConsistent (store place c' s)
store-IsConsistent place c c' s at k i = record {
  found = λ p d e. elim (store_cases place p c' d s e) [
    | inl (same, new) ↦ rw (← new, ← same, k.same_id) (i.found place c at)
    | inr old ↦ i.found p d old
  ];
  entered = λ id p e. rw (length-set s.heap place (some c')) (i.entered id p e);
  named = λ id p d e f. elim (store_cases place p c' d s f) [
    | inl (same, new) ↦ rw (← new, k.same_id) (i.named id place c (e ∙ ap some (sym same)) at)
    | inr old ↦ i.named id p d e old
  ];
  sound = λ p d e. elim (store_cases place p c' d s e) [
    | inl (same, new) ↦ rw (← new) k.sound
    | inr old ↦ i.sound p d old
  ];
}

-- A session that the caller drops.
pub drop-IsConsistent :
    (place : ℕ) (s : Sessions)
    → IsConsistent s
    → IsConsistent (record s { heap = set s.heap place none })
drop-IsConsistent place s i = record {
  found = λ p d e. i.found p d (kept p d e);
  entered = λ id p e. rw (length-set s.heap place none) (i.entered id p e);
  named = λ id p d e f. i.named id p d e (kept p d f);
  sound = λ p d e. i.sound p d (kept p d e);
}
  where
    kept :
        (p : ℕ) (d : PacketConnection)
        → get_elem? (set s.heap place none) p ≡ some (some d)
        → At s p d
    kept p d e = elim (get_elem?-set_cases s.heap place p none (some d) e) [
      | inl (same, new) ↦ absurd (let f : none ≡ some d = new in cc)
      | inr old ↦ old
    ]

-- No session that the caller holds has the id.
abbrev pub IsFree : ℕ → Sessions → Type 0
IsFree id s = (place : ℕ) (c : PacketConnection) → At s place c → c.session_id ≢ id

module _ (net : NetText) (user : List ℕ) (congestion : CongestionKind) (now : ℕ)
    (m : UdpMessage) where
  enter_cases :
      (p : ℕ) (d : PacketConnection) (s : Sessions)
      → At (enter net user congestion now m s) p d
      → ((p ≡ length s.heap) × (PacketConnection.new now m.session_id ≡ d)) ⊎ At s p d
  unfolding enter
  enter_cases p d s e = elim (get_elem?-snoc_cases s.heap p _ (some d) e) [
    | inl (last, new) ↦ inl (last, cc)
    | inr old ↦ inr old
  ]

  -- What the table finds once the session is entered.
  get_entered :
      (id p : ℕ) (s : Sessions)
      → get id (enter net user congestion now m s).sessions ≡ some p
      → ((m.session_id ≡ id) × (p ≡ length s.heap)) ⊎ (get id s.sessions ≡ some p)
  unfolding enter
  get_entered id p s e = elim (Bool-cases (m.session_id == id)) [
    | inl same ↦
        let f = get-insert m.session_id id (length s.heap) s.sessions in
        let g : some (length s.heap) ≡ some p = ground (arith, f) in inl (ground arith, cc)
    | inr other ↦ inr (ground (arith, get-insert m.session_id id (length s.heap) s.sessions))
  ]

  pub enter-IsConsistent :
      (s : Sessions)
      → IsFree m.session_id s
      → IsConsistent s
      → IsConsistent (enter net user congestion now m s)
  unfolding enter PacketConnection.new
  enter-IsConsistent s free i = record {
    found = λ p d e. elim (enter_cases p d s e) [
      | inl (last, new) ↦ rw (← new, last) (get-insert_same m.session_id (length s.heap) s.sessions)
      | inr old ↦
          get-insert_ne m.session_id d.session_id (length s.heap) s.sessions
            (λ same. free p d old (sym same))
          ∙ i.found p d old
    ];
    entered = λ id p e.
        let grown = length-append s.heap (some (PacketConnection.new now m.session_id) ∷ []) in
        elim (get_entered id p s e) [
          | inl (same, last) ↦ omega (arith, grown)
          | inr old ↦ omega (arith, grown, i.entered id p old)
        ];
    named = λ id p d e f. elim (enter_cases p d s f) [
      | inl (last, new) ↦ elim (get_entered id p s e) [
        | inl (same, last') ↦ rw (← new) same
        | inr old ↦ absurd (omega (arith, i.entered id p old))
      ]
      | inr at ↦ elim (get_entered id p s e) [
        | inl (same, last) ↦ absurd (omega (arith, last, get_elem?-lt_length s.heap p (some d) at))
        | inr old ↦ i.named id p d old at
      ]
    ];
    sound = λ p d e. elim (enter_cases p d s e) [
      | inl (last, new) ↦ rw (← new) tt
      | inr old ↦ i.sound p d old
    ];
  }
