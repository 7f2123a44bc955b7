-- ===== src/Controller/Priorities.antt =====
-- The priorities that endpointsStoreForXdsServiceStore gives to slices: 0 and 1, with no gap.
use semaphore_xds.Prelude.{
  String, ℕ, subst, ◌≡◌, ◌⊎◌, inl, inr, refl, Bool, true, false, ◌||◌, ◌&&◌, Option-cases,
  Bool-cases, List, [], ◌∷◌, ◌++◌, All, All-append, nat_beq, string_eq, if◌then◌else◌, arith,
}
use semaphore_xds.Prelude.GoMap.{lookup, insert-All, lookup-All, lookup-insert_self}
use semaphore_xds.Endpoint.{
  KubeEndpoint, new_xds_endpoint_store, EndpointSlice, add, get, PriorityEndpointSlice, XdsEndpoint,
  XdsEndpointStore,
}
use semaphore_xds.Names.{store_key}
use semaphore_xds.Controller.Stores.{
  add_local, selector, fetched, local_slices_loop, remote_clients_loop, remote_endpoints,
  remote_slices_loop, endpoints_store_for_xds_service_store, endpoints_store_loop,
}
use semaphore_xds.Controller.Kube.{Client, Controller}
use semaphore_xds.Service.{XdsServiceStore, Service}
use semaphore_xds.Prelude.Result.{ok_inj, ok, >>=-eq-ok}

-- Some slice has the highest priority, 0.
abbrev pub has_top : List PriorityEndpointSlice → Bool
has_top [] = false
has_top (e ∷ es) = nat_beq e.priority 0 || has_top es

-- The priority is 0, or it is 1 and `top` is true.
abbrev pub Placed : Bool → ℕ → Type 0
Placed top priority = (priority ≡ 0) ⊎ ((priority ≡ 1) × (top ≡ true))

-- The slices of a service have the priorities 0 and 1, and 1 only where 0 is there too.
abbrev pub IsGapless : String × XdsEndpoint → Type 0
IsGapless (key, se) =
    All (λ (e : PriorityEndpointSlice). Placed (has_top se.endpoint_slices) e.priority)
      se.endpoint_slices

has_top-append : (a b : List PriorityEndpointSlice) → has_top (a ++ b) ≡ (has_top a || has_top b)
has_top-append [] b = refl
has_top-append (e ∷ a) b = rw (has_top-append a b) (ground arith)

Placed-or : (top more : Bool) (priority : ℕ) → Placed top priority → Placed (top || more) priority
Placed-or top more priority (inl h) = inl h
Placed-or top more priority (inr (h, t)) = inr (h, rw t refl)

Placed-All :
    (top more : Bool) (es : List PriorityEndpointSlice)
    → All (λ (e : PriorityEndpointSlice). Placed top e.priority) es
    → All (λ (e : PriorityEndpointSlice). Placed (top || more) e.priority) es
Placed-All top more [] h = tt
Placed-All top more (e ∷ es) h = (Placed-or top more e.priority h.0, Placed-All top more es h.1)

item-Placed : (top : Bool) (p : ℕ) → Placed top p → Placed (top || (nat_beq p 0 || false)) p
item-Placed top p h = Placed-or top _ p h

module _ (service namespace : String) where
  -- The service has a slice with the highest priority.
  abbrev top_of : XdsEndpointStore → Bool
  top_of store = has_top (get service namespace store).endpoint_slices

  add-top :
      (e : EndpointSlice) (p : ℕ) (store : XdsEndpointStore)
      → top_of (add service namespace e p store) ≡ (top_of store || nat_beq p 0)
  unfolding get add
  add-top e p store = elim (Option-cases (lookup (store_key service namespace) store)) [
    | inl m ↦ rw (m, add, get, lookup-insert_self) (ground arith)
    | inr (se, m) ↦
        rw (m, add, get, lookup-insert_self, has_top-append se.endpoint_slices) (ground arith)
  ]

  add-IsGapless :
      (e : EndpointSlice) (p : ℕ) (store : XdsEndpointStore)
      → All IsGapless store
      → Placed (top_of store) p
      → All IsGapless (add service namespace e p store)
  unfolding get add
  add-IsGapless e p store h placed =
      elim (Option-cases (lookup (store_key service namespace) store)) [
        | inl m ↦
            rw (m, add)
              (insert-All IsGapless _ _ store (item-Placed false p (rw (m, get) at placed), tt) h)
        | inr (se, m) ↦
            let old = se.endpoint_slices in
            let item : PriorityEndpointSlice = record { endpoint_slice = e; priority = p } in
            rw (m, add)
              (insert-All IsGapless _ _ store
                (rw (has_top-append old (item ∷ [])) (
                  All-append _ old (item ∷ [])
                    (Placed-All (has_top old) _ old (lookup-All IsGapless _ store h m))
                    (item-Placed (has_top old) p (rw (m, get) at placed), tt)))
                h)
      ]

  -- The store is in order, and foundLocalEndpoints is true only of a service with priority 0.
  abbrev IsLocal : XdsEndpointStore × Bool → Type 0
  IsLocal r = All IsGapless r.0 × (r.1 ≡ true → top_of r.0 ≡ true)

  add_local-IsLocal :
      (e : EndpointSlice) (eps : List KubeEndpoint) (r : XdsEndpointStore × Bool)
      → IsLocal r
      → IsLocal (add_local service namespace e eps r)
  add_local-IsLocal e [] r h = h
  add_local-IsLocal e (ep ∷ eps) (store, found_local) h =
      (add-IsGapless e 0 store h.0 (inl refl), λ t. rw (add-top e 0 store) (ground arith))

  local_slices_loop-IsLocal :
      (es : List EndpointSlice) (r : XdsEndpointStore × Bool)
      → IsLocal r
      → IsLocal (local_slices_loop service namespace es r)
  unfolding local_slices_loop
  local_slices_loop-IsLocal [] r h = h
  local_slices_loop-IsLocal (e ∷ es) r h =
      local_slices_loop-IsLocal es (add_local service namespace e e.endpoints r)
        (add_local-IsLocal e e.endpoints r h)

  remote-IsGapless :
      (p : ℕ) (es : List EndpointSlice) (store : XdsEndpointStore)
      → All IsGapless store
      → Placed (top_of store) p
      → All IsGapless (remote_slices_loop service namespace p es store)
        × Placed (top_of (remote_slices_loop service namespace p es store)) p
  unfolding remote_slices_loop
  remote-IsGapless p [] store h k = (h, k)
  remote-IsGapless p (e ∷ es) store h k =
      remote-IsGapless p es (add service namespace e p store) (add-IsGapless e p store h k)
        (rw (add-top e p store) (Placed-or (top_of store) (nat_beq p 0) p k))

  clients-IsGapless :
      (p : ℕ) (clients : List Client) (store store' : XdsEndpointStore)
      → All IsGapless store
      → Placed (top_of store) p
      → remote_clients_loop service namespace p clients store ≡ ok store'
      → All IsGapless store'
  unfolding remote_clients_loop
  clients-IsGapless p [] store store' h k q = subst (All IsGapless) (ok_inj q) h
  clients-IsGapless p (client ∷ clients) store store' h k q =
      let (es, found, rest) =
        >>=-eq-ok (fetched "" (client.endpoint_slice_list (selector service) namespace)) _ q in
      let (h', k') = remote-IsGapless p es store h k in
      clients-IsGapless p clients (remote_slices_loop service namespace p es store) store' h' k'
        rest

priority-Placed :
    (prioritize found_local top : Bool)
    → (found_local ≡ true → top ≡ true)
    → Placed top (if prioritize && found_local then 1 else 0)
priority-Placed true true top h = inr (refl, h refl)
priority-Placed true false top h = inl refl
priority-Placed false found_local top h = inl refl

remote_endpoints-IsGapless :
    (c : Controller) (s : Service) (r : XdsEndpointStore × Bool) (store : XdsEndpointStore)
    → All IsGapless r.0
    → (r.1 ≡ true → top_of s.service.name s.service.namespace r.0 ≡ true)
    → remote_endpoints c s r ≡ ok store
    → All IsGapless store
unfolding remote_endpoints
remote_endpoints-IsGapless c s (r, found_local) store h k q =
    elim (Bool-cases s.enable_remote_endpoints) [
      | inl e ↦
          clients-IsGapless s.service.name s.service.namespace _ c.remote_clients r store h
            (priority-Placed s.prioritize_local_endpoints found_local _ k) (rw e at q)
      | inr e ↦ subst (All IsGapless) (ok_inj (rw e at q)) h
    ]

endpoints_loop-IsGapless :
    (c : Controller) (svcs : XdsServiceStore) (store store' : XdsEndpointStore)
    → All IsGapless store
    → endpoints_store_loop c svcs store ≡ ok store'
    → All IsGapless store'
unfolding endpoints_store_loop
endpoints_loop-IsGapless c [] store store' h q = subst (All IsGapless) (ok_inj q) h
endpoints_loop-IsGapless c ((key, s) ∷ svcs) store store' h q =
    let name = s.service.name in
    let namespace = s.service.namespace in
    let (es, found, rest) =
      >>=-eq-ok (fetched "" (c.local_client.endpoint_slice_list (selector name) namespace)) _ q in
    let (h', k') = local_slices_loop-IsLocal name namespace es (store, false) (h, λ t. cc) in
    let (mid, done, last) =
      >>=-eq-ok (remote_endpoints c s (local_slices_loop name namespace es (store, false))) _
        rest in
    endpoints_loop-IsGapless c svcs mid store'
      (remote_endpoints-IsGapless c s (local_slices_loop name namespace es (store, false)) mid h' k'
        done)
      last

-- If the endpoint store can be computed, all slices of a service in it have priority 0 or 1, and
-- where one has priority 1 there is another with priority 0: no priority is skipped.
pub endpoints_store-IsGapless :
    (c : Controller) (svcs : XdsServiceStore) (store : XdsEndpointStore)
    → endpoints_store_for_xds_service_store c svcs ≡ ok store
    → All IsGapless store
unfolding endpoints_store_for_xds_service_store new_xds_endpoint_store
endpoints_store-IsGapless c svcs store q = endpoints_loop-IsGapless c svcs [] store tt q
