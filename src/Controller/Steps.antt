-- ===== src/Controller/Steps.antt =====
-- What a reconciliation does to the server: the steps of the server's state machine that it takes,
-- with the stores that the cluster calls for.
use semaphore_xds.Prelude.{
  String, ◌≡◌, sym, refl, ◌⊎◌, Option, none, some, List, [], ◌∷◌, Option-cases, inl, inr, is_some,
  if◌then◌else◌, string_eq,
}
use semaphore_xds.Prelude.GoMap.{lookup}
use semaphore_xds.Prelude.Result.{ok, err, panic}
use semaphore_xds.Names.{store_key}
use semaphore_xds.Endpoint.{EndpointSlice, XdsEndpointStore}
use semaphore_xds.Service.{XdsServiceStore, get}
use semaphore_xds.Snapshotter.Library.{Library}
use semaphore_xds.Snapshotter.State.{Snapshotter}
use semaphore_xds.Snapshotter.Reach.{Event, step}
use semaphore_xds.Snapshotter.Snap.{snap_services, snap_endpoints}
use semaphore_xds.Controller.Kube.{
  failed, found, not_found, Client, Fetched, Controller, kubernetes_io_service_name_label,
}
use semaphore_xds.Controller.Stores.{
  need_to_reconcile_endpoint_slice, is_service_in_xds_service_store,
  endpoints_store_for_xds_service_store, services_to_xds_service_store,
}
use semaphore_xds.Controller.Reconcile.{
  Outcome, reconcile_services, reconcile_local_endpoint_slice, reconcile_remote_endpoint_slice,
  remote_reconcile_loop, reconcile_local, reconcile_endpoint_slice, refresh_endpoints, snap_all,
  snap_all_endpoints, snap_listed, with_services,
}

-- Two steps in a row, where an error or a panic of the first ends both.
abbrev pub and_then : {lib : Library} → Outcome lib → Outcome lib → Outcome lib
and_then (s, ok u) rest = rest
and_then (s, err e) rest = (s, err e)
and_then (s, panic) rest = (s, panic)

-- One event after the other, up to the first error or panic.
abbrev pub perform : {lib : Library} → List Event → Snapshotter lib → Outcome lib
perform [] s = (s, ok tt)
perform (e ∷ es) s = and_then (step s e) (perform es (step s e).0)

and_then-done : {lib : Library} (o : Outcome lib) → and_then o (o.0, ok tt) ≡ o
and_then-done (s, ok u) = refl
and_then-done (s, err e) = refl
and_then-done (s, panic) = refl

Fetched-cases :
    (m : Fetched EndpointSlice)
    → ((e : EndpointSlice) × (m ≡ found e)) ⊎ ((m ≡ not_found) ⊎ ((x : String) × (m ≡ failed x)))
Fetched-cases (found e) = inl (e, refl)
Fetched-cases not_found = inr (inl refl)
Fetched-cases (failed x) = inr (inr (x, refl))

-- The first client that has the slice.
abbrev pub first_answer : String → String → List Client → Option EndpointSlice
first_answer name namespace [] = none
first_answer name namespace (client ∷ clients) = elim (client.endpoint_slice name namespace) [
  | found e ↦ some e
  | not_found ↦ first_answer name namespace clients
  | failed m ↦ first_answer name namespace clients
]

-- What a slice calls for: both stores change if its service, by its label, is among the services.
abbrev pub slice_events : XdsServiceStore → XdsEndpointStore → EndpointSlice → List Event
slice_events svcs store e = elim (lookup kubernetes_io_service_name_label e.labels) [
  | none ↦ []
  | some parent ↦
      if is_some (lookup (store_key parent e.namespace) svcs)
      then Event.services_change svcs ∷ Event.endpoints_change store ∷ []
      else []
]

module _ {lib : Library} (s : Snapshotter lib) (svcs : XdsServiceStore)
    (store : XdsEndpointStore) where
  -- What comes of a slice of the local cluster, by what the cluster answers when it is asked for it.
  abbrev pub LocalOutcome : Fetched EndpointSlice → Outcome lib → Type 0
  LocalOutcome (found e) o = o ≡ perform (slice_events svcs store e) s
  LocalOutcome not_found o = o ≡ perform (Event.endpoints_change store ∷ []) s
  LocalOutcome (failed m) o = (o.0 ≡ s) × ((message : String) × (o.1 ≡ err message))

  -- What comes of a slice of a remote cluster, by the first answer of the clients.
  abbrev pub remote_outcome : Option EndpointSlice → Outcome lib
  remote_outcome none = perform (Event.endpoints_change store ∷ []) s
  remote_outcome (some e) = perform (slice_events svcs store e) s

module _ {lib : Library} (c : Controller) (s : Snapshotter lib) (svcs : XdsServiceStore)
    (store : XdsEndpointStore) (services_stored : services_to_xds_service_store c ≡ ok svcs)
    (endpoints_stored : endpoints_store_for_xds_service_store c svcs ≡ ok store) where
  snap_all_endpoints-performs :
      (o : Outcome lib)
      → snap_all_endpoints c svcs o ≡ and_then o (perform (Event.endpoints_change store ∷ []) o.0)
  unfolding snap_all_endpoints snap_listed step
  snap_all_endpoints-performs (t, ok u) =
      rw (endpoints_stored, snap_listed) (sym (and_then-done (snap_endpoints t store)))
  snap_all_endpoints-performs (t, err e) = refl
  snap_all_endpoints-performs (t, panic) = refl

  snap_all-performs :
      snap_all c s svcs ≡ perform (Event.services_change svcs ∷ Event.endpoints_change store ∷ []) s
  unfolding snap_all step
  snap_all-performs = snap_all_endpoints-performs (snap_services s svcs)

  refresh_endpoints-performs : refresh_endpoints c s ≡ perform (Event.endpoints_change store ∷ []) s
  unfolding refresh_endpoints with_services snap_listed step
  refresh_endpoints-performs =
      rw (services_stored, refresh_endpoints, with_services, endpoints_stored, snap_listed)
        (sym (and_then-done (snap_endpoints s store)))

  reconcile_endpoint_slice-performs :
      (e : EndpointSlice) → reconcile_endpoint_slice c s e ≡ perform (slice_events svcs store e) s
  unfolding reconcile_endpoint_slice with_services need_to_reconcile_endpoint_slice
      is_service_in_xds_service_store get
  reconcile_endpoint_slice-performs e =
      elim (Option-cases (lookup kubernetes_io_service_name_label e.labels)) [
        | inl l ↦
            rw
              (
                slice_events, perform, services_stored, reconcile_endpoint_slice, with_services,
                need_to_reconcile_endpoint_slice, l,
              )
              refl
        | inr (parent, l) ↦ elim (Option-cases (lookup (store_key parent e.namespace) svcs)) [
          | inl k ↦
              rw
                (
                  slice_events, perform, services_stored, reconcile_endpoint_slice, with_services,
                  need_to_reconcile_endpoint_slice, l, is_service_in_xds_service_store, get, k,
                )
                refl
          | inr (x, k) ↦
              rw
                (
                  slice_events, perform, services_stored, reconcile_endpoint_slice, with_services,
                  need_to_reconcile_endpoint_slice, l, is_service_in_xds_service_store, get, k,
                )
                snap_all-performs
        ]
      ]

  reconcile_local-performs :
      (name namespace : String) (answer : Fetched EndpointSlice)
      → LocalOutcome s svcs store answer (reconcile_local c s name namespace answer)
  unfolding reconcile_local
  reconcile_local-performs name namespace (found e) = reconcile_endpoint_slice-performs e
  reconcile_local-performs name namespace not_found = refresh_endpoints-performs
  reconcile_local-performs name namespace (failed m) = (refl, (_, refl))

  remote_loop-performs :
      (name namespace : String) (clients : List Client)
      → remote_reconcile_loop c s name namespace clients
        ≡ remote_outcome s svcs store (first_answer name namespace clients)
  unfolding remote_reconcile_loop
  remote_loop-performs name namespace [] = refresh_endpoints-performs
  remote_loop-performs name namespace (client ∷ clients) =
      elim (Fetched-cases (client.endpoint_slice name namespace)) [
        | inl (e, h) ↦ rw (h, remote_reconcile_loop) (reconcile_endpoint_slice-performs e)
        | inr (inl h) ↦ rw (h, remote_reconcile_loop) (remote_loop-performs name namespace clients)
        | inr (inr (m, h)) ↦
            rw (h, remote_reconcile_loop) (remote_loop-performs name namespace clients)
      ]

  -- Where both stores can be computed: a reconciliation of the services is SnapServices with the
  -- service store and then, without an error, SnapEndpoints with the endpoint store. For a slice that
  -- the local cluster has, or else the first remote cluster that has it, it is the same if the
  -- slice's label names a service that is, in the slice's namespace, in the service store, and
  -- nothing otherwise; for a slice that is gone it is SnapEndpoints alone, and where the local cluster
  -- fails to answer there is an error and nothing changes.
  pub reconcile-performs :
      (name namespace : String)
      → (reconcile_services c s
          ≡ perform (Event.services_change svcs ∷ Event.endpoints_change store ∷ []) s)
        × LocalOutcome s svcs store
            (c.local_client.endpoint_slice name namespace)
            (reconcile_local_endpoint_slice c s name namespace)
        × (reconcile_remote_endpoint_slice c s name namespace
            ≡ remote_outcome s svcs store (first_answer name namespace c.remote_clients))
  unfolding reconcile_services with_services reconcile_local_endpoint_slice
      reconcile_remote_endpoint_slice
  reconcile-performs name namespace = (
    rw (services_stored, reconcile_services, with_services) snap_all-performs,
    reconcile_local-performs name namespace (c.local_client.endpoint_slice name namespace),
    remote_loop-performs name namespace c.remote_clients,
  )
