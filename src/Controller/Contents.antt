-- ===== src/Controller/Contents.antt =====
-- The exact contents of the two stores of the controller.
use mathlib.Core.List.{append-nil}
use semaphore_xds.Prelude.{
  false, String, ◌≡◌, ◌∙◌, refl, sym, ap, subst, ◌&&◌, not, none, some, List, [], ◌∷◌, ◌++◌, inl,
  inr, Bool-cases, if◌then◌else◌, ◌==◌, eq_of_beq, string_eq,
}
use semaphore_xds.Prelude.GoMap.{insert-Distinct, insert-All, lookup, Distinct, lookup-absent}
use semaphore_xds.Prelude.Result.{ok_inj, Result, ok, ◌>>=◌, >>=-eq-ok}
use semaphore_xds.Service.{
  new_xds_service_store, KubeService, add_or_update, Service, XdsServiceStore,
}
use semaphore_xds.Endpoint.{
  new_xds_endpoint_store, EndpointSlice, PriorityEndpointSlice, XdsEndpointStore,
}
use semaphore_xds.Snapshotter.Nodes.{is_nil}
use semaphore_xds.Controller.Kube.{found, not_found, failed, Fetched, XdsService, Controller}
use semaphore_xds.Controller.Stores.{
  labelled_service, store_configured, services_to_xds_service_store, xds_services_loop,
  endpoints_store_for_xds_service_store, labelled_loop, fetched, selector, local_slices_loop,
  remote_endpoints, endpoints_store_loop,
}
use semaphore_xds.Service.Unique.{key_of, IsKeyed}
use semaphore_xds.Controller.Extends.{
  Extends, Extends-trans, slices_at, local_items, remote_items, local_slices_loop-Extends,
  remote_clients_loop-Extends,
}

-- The slices of a service: those of the local cluster, and those of the remote clusters, if they are
-- enabled, with the next priority where local ones come first and there are any.
abbrev pub service_items : Controller → Service → Result (List PriorityEndpointSlice)
service_items c s =
    fetched "" (c.local_client.endpoint_slice_list (selector s.service.name) s.service.namespace)
    >>= λ es.
        if s.enable_remote_endpoints
        then (remote_items s.service.name s.service.namespace
              (if s.prioritize_local_endpoints && not (is_nil (local_items es)) then 1 else 0)
              c.remote_clients
            >>= λ rest. ok (local_items es ++ rest))
        else ok (local_items es)

-- What one round of the loop over the services adds.
remote_endpoints-Extends :
    (c : Controller) (s : Service) (es : List EndpointSlice) (store store' : XdsEndpointStore)
    → fetched "" (c.local_client.endpoint_slice_list (selector s.service.name) s.service.namespace)
      ≡ ok es
    → remote_endpoints c s (local_slices_loop s.service.name s.service.namespace es (store, false))
      ≡ ok store'
    → (items : List PriorityEndpointSlice) × (service_items c s ≡ ok items)
      × Extends (key_of s) items store store'
unfolding remote_endpoints
remote_endpoints-Extends c s es store store' f q =
    let name = s.service.name in
    let namespace = s.service.namespace in
    let (h, found_local) = local_slices_loop-Extends name namespace es store false in
    elim (Bool-cases s.enable_remote_endpoints) [
      | inl e ↦
          let (rest, r, h') =
            remote_clients_loop-Extends name namespace _ c.remote_clients _ store' (rw e at q) in
          (
            local_items es ++ rest,
            rw (f, e, (rw found_local at r)) refl,
            Extends-trans (key_of s) (local_items es) rest _ _ _ h h',
          )
      | inr e ↦ (
        local_items es,
        rw (f, e) refl,
        subst (λ t. Extends (key_of s) (local_items es) store t) (ok_inj (rw e at q)) h,
      )
    ]

-- What the whole loop leaves under a key, where some slices were there before.
abbrev pub expected_slices :
    Controller
    → String
    → List PriorityEndpointSlice
    → XdsServiceStore
    → Result (List PriorityEndpointSlice)
expected_slices c k before svcs = elim (lookup k svcs) [
  | none ↦ ok before
  | some s ↦ service_items c s >>= λ items. ok (before ++ items)
]

endpoints_store_loop_lem :
    (c : Controller) (svcs : XdsServiceStore) (before after : XdsEndpointStore) (k : String)
    → IsKeyed svcs
    → Distinct svcs
    → endpoints_store_loop c svcs before ≡ ok after
    → expected_slices c k (slices_at k before) svcs ≡ ok (slices_at k after)
unfolding endpoints_store_loop lookup
endpoints_store_loop_lem c [] before after k keyed distinct q =
    ap (λ t. ok (slices_at k t)) (ok_inj q)
endpoints_store_loop_lem c ((key, s) ∷ svcs) before after k keyed distinct q =
    let (es, f, next) =
      >>=-eq-ok
        (fetched ""
          (c.local_client.endpoint_slice_list (selector s.service.name) s.service.namespace))
        _ q in
    let (mid, done, last) =
      >>=-eq-ok
        (remote_endpoints c s
          (local_slices_loop s.service.name s.service.namespace es (before, false)))
        _ next in
    let (items, made, h) = remote_endpoints-Extends c s es before mid f done in
    let rest = endpoints_store_loop_lem c svcs mid after k keyed.1 distinct.1 last in
    let here : slices_at k mid ≡ slices_at k before ++ (if key == k then items else []) =
      rw (keyed.0) (h k) in
    elim (Bool-cases (key == k)) [
      | inl e ↦
          let absent =
            subst (λ j. lookup j svcs ≡ none) (eq_of_beq key k e)
              (lookup-absent key svcs distinct.0) in
          rw (e, made, expected_slices)
            (ap ok (sym (rw e at here)) ∙ (rw (absent, expected_slices) at rest))
      | inr e ↦
          rw (e, expected_slices)
            (subst (λ xs. expected_slices c k xs svcs ≡ ok (slices_at k after))
              ((rw e at here) ∙ append-nil (slices_at k before)) rest)
    ]

-- The keys of a service store are right, and none occurs twice.
abbrev IsStore : XdsServiceStore → Type 0
IsStore svcs = IsKeyed svcs × Distinct svcs

add_or_update-IsStore :
    (svc : KubeService) (x : Service) (store : XdsServiceStore)
    → IsStore store
    → IsStore (add_or_update svc x store)
unfolding add_or_update
add_or_update-IsStore svc x store h = (
  insert-All (λ (e : String × Service). e.0 ≡ key_of e.1) _ _ store refl h.0,
  insert-Distinct _ _ store h.1,
)

labelled_loop-IsStore :
    (c : Controller) (svcs : List KubeService) (store : XdsServiceStore)
    → IsStore store
    → IsStore (labelled_loop c svcs store)
unfolding labelled_loop
labelled_loop-IsStore c [] store h = h
labelled_loop-IsStore c (svc ∷ svcs) store h =
    labelled_loop-IsStore c svcs _ (add_or_update-IsStore svc (labelled_service c svc) store h)

store_configured-IsStore :
    (c : Controller) (x : XdsService) (answer : Fetched KubeService) (store : XdsServiceStore)
    → IsStore store
    → IsStore (store_configured c x.spec answer store)
store_configured-IsStore c x (found svc) store h = add_or_update-IsStore svc _ store h
store_configured-IsStore c x not_found store h = h
store_configured-IsStore c x (failed e) store h = h

xds_services_loop-IsStore :
    (c : Controller) (xs : List XdsService) (store : XdsServiceStore)
    → IsStore store
    → IsStore (xds_services_loop c xs store)
unfolding xds_services_loop
xds_services_loop-IsStore c [] store h = h
xds_services_loop-IsStore c (x ∷ xs) store h =
    xds_services_loop-IsStore c xs _ (store_configured-IsStore c x _ store h)

services_to_xds_service_store-IsStore :
    (c : Controller) (svcs : XdsServiceStore)
    → services_to_xds_service_store c ≡ ok svcs
    → IsStore svcs
unfolding services_to_xds_service_store new_xds_service_store
services_to_xds_service_store-IsStore c svcs q =
    let (labelled, f, next) =
      >>=-eq-ok (fetched "Failed to list Services from watcher: " c.labelled_services) _ q in
    let (xs, g, last) =
      >>=-eq-ok
        (fetched "Failed to list XdsServices from watcher: " c.local_client.xds_service_list) _
        next in
    subst IsStore (ok_inj last)
      (xds_services_loop-IsStore c xs _ (labelled_loop-IsStore c labelled [] (tt, tt)))

-- If both stores can be computed, the endpoint store has under the key of each service exactly, in
-- order, its slices of the local cluster that have endpoints, with priority 0, and, if remote
-- endpoints are enabled for it, all its slices of the remote clusters, one cluster after the other,
-- with priority 1 if local endpoints come first and there were any of those, and with 0 otherwise;
-- and it has nothing under a key that no service of the service store has.
pub endpoints_store_lem :
    (c : Controller) (svcs : XdsServiceStore) (store : XdsEndpointStore) (key : String)
    → services_to_xds_service_store c ≡ ok svcs
    → endpoints_store_for_xds_service_store c svcs ≡ ok store
    → expected_slices c key [] svcs ≡ ok (slices_at key store)
unfolding endpoints_store_for_xds_service_store new_xds_endpoint_store lookup
endpoints_store_lem c svcs store key h q =
    let (keyed, distinct) = services_to_xds_service_store-IsStore c svcs h in
    endpoints_store_loop_lem c svcs [] store key keyed distinct q
