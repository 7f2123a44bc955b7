-- ===== src/Controller/Extends.antt =====
-- What the loops over EndpointSlices add to the endpoint store, at any key.
use mathlib.Core.List.{map, append_assoc, append-nil}
use semaphore_xds.Prelude.{
  arith, not, ◌||◌, Bool, ℕ, String, ◌≡◌, ◌∙◌, refl, sym, ap, subst, none, some, List, [], ◌∷◌,
  ◌++◌, inl, inr, Option-cases, Bool-cases, if◌then◌else◌, ◌==◌, eq_of_beq, string_eq,
}
use semaphore_xds.Prelude.GoMap.{lookup, lookup-insert}
use semaphore_xds.Names.{store_key}
use semaphore_xds.Prelude.Result.{ok_inj, ◌>>=◌, Result, >>=-eq-ok, ok}
use semaphore_xds.Controller.Stores.{
  selector, fetched, remote_clients_loop, add_local, local_slices_loop, remote_slices_loop,
}
use semaphore_xds.Snapshotter.Nodes.{is_nil}
use semaphore_xds.Controller.Kube.{Client}
use semaphore_xds.Endpoint.{
  KubeEndpoint, EndpointSlice, PriorityEndpointSlice, XdsEndpointStore, add,
}

-- The slices under a key.
abbrev pub slices_at : String → XdsEndpointStore → List PriorityEndpointSlice
slices_at key store = elim (lookup key store) [ none ↦ [] | some se ↦ se.endpoint_slices ]

-- Under `key` the items come last in the second store, and it is the first one under other keys.
abbrev pub Extends :
    String → List PriorityEndpointSlice → XdsEndpointStore → XdsEndpointStore → Type 0
Extends key items before after =
    (k : String) → slices_at k after ≡ slices_at k before ++ (if key == k then items else [])

abbrev pub at_priority : ℕ → EndpointSlice → PriorityEndpointSlice
at_priority p e = record { endpoint_slice = e; priority = p }

pub Extends-refl : (key : String) (store : XdsEndpointStore) → Extends key [] store store
Extends-refl key store k = elim (Bool-cases (key == k)) [
  | inl e ↦ rw e (sym (append-nil (slices_at k store)))
  | inr e ↦ rw e (sym (append-nil (slices_at k store)))
]

pub Extends-trans :
    (key : String) (xs ys : List PriorityEndpointSlice) (s t u : XdsEndpointStore)
    → Extends key xs s t
    → Extends key ys t u
    → Extends key (xs ++ ys) s u
Extends-trans key xs ys s t u h g k = elim (Bool-cases (key == k)) [
  | inl e ↦
      let second = g k in
      let first = h k in
      rw e
        ((rw e at second) ∙ ap (λ l. l ++ ys) (rw e at first) ∙ append_assoc (slices_at k s) xs ys)
  | inr e ↦
      let second = g k in
      let first = h k in rw e ((rw e at second) ∙ append-nil (slices_at k t) ∙ (rw e at first))
]

-- A slice of the local cluster has the highest priority, and is left out if it has no endpoints.
abbrev pub local_item : EndpointSlice → List KubeEndpoint → List PriorityEndpointSlice
local_item e [] = []
local_item e (ep ∷ eps) = at_priority 0 e ∷ []

abbrev pub local_items : List EndpointSlice → List PriorityEndpointSlice
local_items [] = []
local_items (e ∷ es) = local_item e e.endpoints ++ local_items es

or_found :
    (found : Bool) (eps : List KubeEndpoint) (e : EndpointSlice) (es : List EndpointSlice)
    → ((found || not (is_nil (local_item e eps))) || not (is_nil (local_items es)))
      ≡ (found || not (is_nil (local_item e eps ++ local_items es)))
or_found found [] e es = ground arith
or_found found (ep ∷ eps) e es = ground arith

module _ (service namespace : String) where
  abbrev key : String
  key = store_key service namespace

  add-Extends :
      (e : EndpointSlice) (p : ℕ) (store : XdsEndpointStore)
      → Extends key (at_priority p e ∷ []) store (add service namespace e p store)
  unfolding add
  add-Extends e p store k = elim (Option-cases (lookup key store)) [
    | inl m ↦ elim (Bool-cases (key == k)) [
      | inl q ↦
          let m' = subst (λ j. lookup j store ≡ none) (eq_of_beq key k q) m in
          rw (m, add, slices_at, lookup-insert, q, m') refl
      | inr q ↦ rw (m, add, slices_at, lookup-insert, q) (sym (append-nil (slices_at k store)))
    ]
    | inr (se, m) ↦ elim (Bool-cases (key == k)) [
      | inl q ↦
          let m' = subst (λ j. lookup j store ≡ some se) (eq_of_beq key k q) m in
          rw (m, add, slices_at, lookup-insert, q, m') refl
      | inr q ↦ rw (m, add, slices_at, lookup-insert, q) (sym (append-nil (slices_at k store)))
    ]
  ]

  local_step :
      (e : EndpointSlice) (eps : List KubeEndpoint) (store : XdsEndpointStore) (found : Bool)
      → Extends key (local_item e eps) store (add_local service namespace e eps (store, found)).0
        × ((add_local service namespace e eps (store, found)).1
            ≡ (found || not (is_nil (local_item e eps))))
  local_step e [] store found = (Extends-refl key store, ground arith)
  local_step e (ep ∷ eps) store found = (add-Extends e 0 store, ground arith)

  pub local_slices_loop-Extends :
      (es : List EndpointSlice) (store : XdsEndpointStore) (found : Bool)
      → Extends key (local_items es) store (local_slices_loop service namespace es (store, found)).0
        × ((local_slices_loop service namespace es (store, found)).1
            ≡ (found || not (is_nil (local_items es))))
  unfolding local_slices_loop
  local_slices_loop-Extends [] store found = (Extends-refl key store, ground arith)
  local_slices_loop-Extends (e ∷ es) store found =
      let mid = add_local service namespace e e.endpoints (store, found) in
      let (h, f) = local_step e e.endpoints store found in
      let (h', f') = local_slices_loop-Extends es mid.0 mid.1 in
      (
        Extends-trans key (local_item e e.endpoints) (local_items es) _ _ _ h h',
        f' ∙ ap (λ b. b || not (is_nil (local_items es))) f ∙ or_found found e.endpoints e es,
      )

  pub remote_slices_loop-Extends :
      (p : ℕ) (es : List EndpointSlice) (store : XdsEndpointStore)
      → Extends key (map (at_priority p) es) store (remote_slices_loop service namespace p es store)
  unfolding remote_slices_loop
  remote_slices_loop-Extends p [] store = Extends-refl key store
  remote_slices_loop-Extends p (e ∷ es) store =
      Extends-trans key (at_priority p e ∷ []) (map (at_priority p) es) _ _ _
        (add-Extends e p store) (remote_slices_loop-Extends p es (add service namespace e p store))

  -- The slices of all remote clusters, in order; an error of one is an error.
  abbrev pub remote_items : ℕ → List Client → Result (List PriorityEndpointSlice)
  remote_items p [] = ok []
  remote_items p (client ∷ clients) =
      fetched "" (client.endpoint_slice_list (selector service) namespace) >>= λ es.
      remote_items p clients >>= λ rest. ok (map (at_priority p) es ++ rest)

  pub remote_clients_loop-Extends :
      (p : ℕ) (clients : List Client) (store store' : XdsEndpointStore)
      → remote_clients_loop service namespace p clients store ≡ ok store'
      → (items : List PriorityEndpointSlice) × (remote_items p clients ≡ ok items)
        × Extends key items store store'
  unfolding remote_clients_loop
  remote_clients_loop-Extends p [] store store' q =
      ([], refl, subst (λ t. Extends key [] store t) (ok_inj q) (Extends-refl key store))
  remote_clients_loop-Extends p (client ∷ clients) store store' q =
      let (es, found, next) =
        >>=-eq-ok (fetched "" (client.endpoint_slice_list (selector service) namespace)) _ q in
      let (rest, r, h) =
        remote_clients_loop-Extends p clients (remote_slices_loop service namespace p es store)
          store' next in
      (
        map (at_priority p) es ++ rest,
        rw (found, r) refl,
        Extends-trans key (map (at_priority p) es) rest _ _ _
            (remote_slices_loop-Extends p es store) h,
      )
