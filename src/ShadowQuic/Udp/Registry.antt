-- ===== src/ShadowQuic/Udp/Registry.antt =====
-- The `IncomingUdpRegistry` of src/shadowquic/mod.rs as what it promises: a partial function from ids to
-- routes, and whether it is closed.
use sing_quic_rs.Prelude.{
  ℕ, ◌≡◌, ◌∙◌, refl, ap, fun_ext, Bool, true, false, Option, none, some, List, [], ◌∷◌, ◌==◌, arith,
  if◌then◌else◌,
}
use sing_quic_rs.Prelude.Map.{nat_key, get, remove, get-insert, get-remove}
use sing_quic_rs.Error.{closed, ok, err}
use sing_quic_rs.Address.{Address}
use sing_quic_rs.ShadowQuic.Udp.{
  IncomingUdpRoute, IncomingUdpRegistry, register, remove_routes, remove_ids, close, Waited,
  answered, waiting, wait,
}

-- The specification: no list of entries, and no key twice.
pub record Routes : Type 0 where
  pub route : ℕ → Option IncomingUdpRoute
  pub is_closed : Bool

-- A change of the registry: a route is registered, the routes of a control stream are removed at
-- its end, or the connection is over.
pub data Change : Type 0 where
  registers : ℕ → Address → ℕ → Change
  removes : List ℕ → Change
  closes : Change

abbrev pub is_among : ℕ → List ℕ → Bool
is_among id [] = false
is_among id (first ∷ rest) = if first == id then true else is_among id rest

abbrev pub promised : Change → Routes → Routes
promised (registers id destination sender) r = record r {
  route = λ j.
      if id == j then some (record { sender = sender; destination = destination }) else r.route j;
}
promised (removes ids) r = record r { route = λ j. if is_among j ids then none else r.route j }
promised closes r = record r { is_closed = true }

abbrev pub promised_all : List Change → Routes → Routes
promised_all [] r = r
promised_all (change ∷ rest) r = promised_all rest (promised change r)

-- What `wait` answers by the specification.
abbrev answer_of : Option IncomingUdpRoute → Bool → Waited
answer_of (some route) is_closed = answered (ok route)
answer_of none true = answered (err closed)
answer_of none false = waiting

abbrev pub promised_wait : ℕ → Routes → Waited
promised_wait id r = answer_of (r.route id) r.is_closed

-- The same changes, and the abstract view, of the registry.
unfoldable pub changed : Change → IncomingUdpRegistry → IncomingUdpRegistry
unfolding register remove_ids close
changed (registers id destination sender) registry = register id destination sender registry
changed (removes ids) registry = remove_ids ids registry
changed closes registry = close registry

unfoldable pub changed_all : List Change → IncomingUdpRegistry → IncomingUdpRegistry
unfolding changed
changed_all [] registry = registry
changed_all (change ∷ rest) registry = changed_all rest (changed change registry)

abbrev pub view : IncomingUdpRegistry → Routes
view registry = record { route = λ id. get id registry.routes; is_closed = registry.closed }

pub get-remove_routes :
    (ids : List ℕ) (routes : List (ℕ × IncomingUdpRoute)) (j : ℕ)
    → get j (remove_routes ids routes) ≡ (if is_among j ids then none else get j routes)
unfolding remove_routes
get-remove_routes [] routes j = refl
get-remove_routes (id ∷ ids) routes j =
    ground (arith, get-remove_routes ids (remove id routes) j, get-remove id j routes)

view-changed :
    (change : Change) (registry : IncomingUdpRegistry)
    → view (changed change registry) ≡ promised change (view registry)
unfolding changed register remove_ids close
view-changed (registers id destination sender) registry =
    ap (λ f. record { route = f; is_closed = registry.closed })
      (fun_ext (λ j. get-insert id j _ registry.routes))
view-changed (removes ids) registry =
    ap (λ f. record { route = f; is_closed = registry.closed })
      (fun_ext (λ j. get-remove_routes ids registry.routes j))
view-changed closes registry = refl

wait-view :
    (id : ℕ) (registry : IncomingUdpRegistry) → wait id registry ≡ promised_wait id (view registry)
unfolding wait
wait-view id registry = by_route (get id registry.routes) registry.closed
  where
    by_route :
        (o : Option IncomingUdpRoute) (c : Bool)
        → elim o [
          | some route ↦ answered (ok route)
          | none ↦ if c then answered (err closed) else waiting
        ]
          ≡ answer_of o c
    by_route (some route) c = refl
    by_route none true = refl
    by_route none false = refl

-- The registry refines its specification: after any sequence of registrations, removals and
-- closings, from any registry, its view is what the specification promises, and every `wait`
-- answers what the specification answers.
pub changed_all-refines :
    (changes : List Change) (registry : IncomingUdpRegistry) (id : ℕ)
    → (view (changed_all changes registry) ≡ promised_all changes (view registry))
      × (wait id (changed_all changes registry)
          ≡ promised_wait id (promised_all changes (view registry)))
unfolding changed_all
changed_all-refines [] registry id = (refl, wait-view id registry)
changed_all-refines (change ∷ rest) registry id =
    let (same, answer) = changed_all-refines rest (changed change registry) id in
    let step = ap (promised_all rest) (view-changed change registry) in
    (same ∙ step, answer ∙ ap (promised_wait id) step)
