-- ===== src/Controller/Served.antt =====
-- What a reconciliation of the services comes to for the clients.
use semaphore_xds.Prelude.{
  String, ◌≡◌, ◌∙◌, refl, sym, ap, subst, some, true, false, List, [], ◌∷◌, string_eq,
}
use semaphore_xds.Prelude.GoMap.{GoMap, lookup}
use semaphore_xds.Prelude.Result.{ok, err, panic}
use semaphore_xds.Prelude.Decimal.{inc32, itoa}
use semaphore_xds.Resource.{Resource, cluster_type, listener_type, route_type, endpoint_type}
use semaphore_xds.Service.{XdsServiceStore}
use semaphore_xds.Service.Translate.{Resources}
use semaphore_xds.Endpoint.{
  XdsEndpointStore, endpoint_slices_to_cluster_load_assignments_with_names,
}
use semaphore_xds.Snapshotter.Library.{Library, IsLawful}
use semaphore_xds.Snapshotter.State.{Snapshotter, empty_node_id}
use semaphore_xds.Snapshotter.Snap.{all_services, all_endpoints, snap_services, snap_endpoints}
use semaphore_xds.Snapshotter.Invariant.{IsWellFormed}
use semaphore_xds.Snapshotter.Snapping.{snap_services-Keeps}
use semaphore_xds.Snapshotter.Fresh.Nodes.{EntryMatches}
use semaphore_xds.Snapshotter.Fresh.Services.{services_fields, snap_services-Matched}
use semaphore_xds.Snapshotter.Fresh.Found.{found_in}
use semaphore_xds.Snapshotter.Fresh.Unchanged.{AllAskedOnce, SameAsks}
use semaphore_xds.Snapshotter.Fresh.Snaps.{snap_services-KeepsAsks, snap_endpoints-KeepsAsks}
use semaphore_xds.Snapshotter.Fresh.Endpoints.{EndpointsServed, snap_endpoints-Matched}
use semaphore_xds.Snapshotter.Fresh.Keep.{snap_endpoints-AllMatch}
use semaphore_xds.Snapshotter.Fresh.Frame.{Frame, snap_services-Frame}
use semaphore_xds.Controller.Kube.{Controller}
use semaphore_xds.Controller.Stores.{
  endpoints_store_for_xds_service_store, services_to_xds_service_store,
}
use semaphore_xds.Controller.Reconcile.{
  Outcome, snap_listed, snap_all_endpoints, snap_all, with_services, reconcile_services,
}

-- What is translated for the two snapshots, in a state of the server.
pub record Translations {lib : Library} (c : Controller) (s : Snapshotter lib) : Type 0 where
  pub svcs : XdsServiceStore
  pub resources : Resources
  pub store : XdsEndpointStore
  pub eds : List Resource
  pub named : GoMap String Resource
  pub services_stored : services_to_xds_service_store c ≡ ok svcs
  pub services_translated : all_services s svcs ≡ ok resources
  pub endpoints_stored : endpoints_store_for_xds_service_store c svcs ≡ ok store
  pub endpoints_translated : all_endpoints s store ≡ ok eds
  pub endpoints_named : endpoint_slices_to_cluster_load_assignments_with_names store "" ≡ ok named

-- The two full snapshots that the server then makes, which the caches take.
pub record Taken {lib : Library} (c : Controller) (s : Snapshotter lib) (tr : Translations c s)
    (services endpoints : lib.Snapshot) : Type 0 where
  pub services_made :
      lib.new_snapshot (itoa (inc32 s.service_snap_version)) (
        (cluster_type, tr.resources.cls)
        ∷ (listener_type, tr.resources.lsnr)
        ∷ (route_type, tr.resources.rds)
        ∷ [])
      ≡ some services
  pub services_set : (lib.set_snapshot s.services_cache empty_node_id services).1 ≡ true
  pub endpoints_made :
      lib.new_snapshot (itoa (inc32 s.endpoints_snap_version)) ((endpoint_type, tr.eds) ∷ [])
      ≡ some endpoints
  pub endpoints_set : (lib.set_snapshot s.endpoints_cache empty_node_id endpoints).1 ≡ true

snap_all_endpoints-ok :
    {lib : Library} (c : Controller) (svcs : XdsServiceStore) (store : XdsEndpointStore)
    (o : Outcome lib)
    → o.1 ≡ ok tt
    → endpoints_store_for_xds_service_store c svcs ≡ ok store
    → snap_all_endpoints c svcs o ≡ snap_endpoints o.0 store
unfolding snap_all_endpoints snap_listed
snap_all_endpoints-ok c svcs store (s, ok u) h q = rw (q, snap_listed) refl
snap_all_endpoints-ok c svcs store (s, err e) h q = cc
snap_all_endpoints-ok c svcs store (s, panic) h q = cc

all_endpoints-authority :
    {lib : Library} (s t : Snapshotter lib) (store : XdsEndpointStore)
    → t.authority ≡ s.authority
    → all_endpoints t store ≡ all_endpoints s store
all_endpoints-authority s t store h = rw h refl

-- There is no error, and each stream of each node holds what it asks for of both full snapshots.
abbrev pub AllServed : {lib : Library} → lib.Snapshot → lib.Snapshot → Outcome lib → Type 0
AllServed {lib} services endpoints (t, r) =
    EndpointsServed endpoints (t, r)
    × ((n : String) → EntryMatches (found_in lib services) services_fields (lookup n t.nodes))

module _ {lib : Library} (law : IsLawful lib) (services endpoints : lib.Snapshot) where
  endpoints_after :
      (s s1 : Snapshotter lib) (store : XdsEndpointStore) (named : GoMap String Resource)
      (eds : List Resource)
      → Frame s s1
      → IsWellFormed s1.nodes
      → ((n : String) → EntryMatches (found_in lib services) services_fields (lookup n s1.nodes))
      → s.localhost_endpoints ≡ false
      → all_endpoints s store ≡ ok eds
      → endpoint_slices_to_cluster_load_assignments_with_names store "" ≡ ok named
      → lib.new_snapshot (itoa (inc32 s.endpoints_snap_version)) ((endpoint_type, eds) ∷ [])
        ≡ some endpoints
      → (lib.set_snapshot s.endpoints_cache empty_node_id endpoints).1 ≡ true
      → AllServed services endpoints (snap_endpoints s1 store)
  endpoints_after s s1 store named eds f w served mode translated names made set =
      let translated' = all_endpoints-authority s s1 store f.same_authority ∙ translated in
      let made' =
        ap (λ v. lib.new_snapshot (itoa (inc32 v)) ((endpoint_type, eds) ∷ [])) f.same_version
        ∙ made in
      let set' = ap (λ k. (lib.set_snapshot k empty_node_id endpoints).1) f.same_cache ∙ set in
      (
        snap_endpoints-Matched law endpoints s1 store named eds w (f.same_mode ∙ mode) translated'
            names made' set',
        snap_endpoints-AllMatch (found_in lib services) s1 endpoints store named eds w.0 served
            translated' names made' set',
      )

  -- A reconciliation of the services is its two steps.
  reconcile_services-steps :
      (c : Controller) (s : Snapshotter lib) (tr : Translations c s)
      → IsWellFormed s.nodes
      → s.localhost_endpoints ≡ false
      → Taken c s tr services endpoints
      → reconcile_services c s ≡ snap_endpoints (snap_services s tr.svcs).0 tr.store
  unfolding reconcile_services snap_all with_services
  reconcile_services-steps c s tr w mode taken =
      let served =
        snap_services-Matched law services s tr.svcs tr.resources w mode tr.services_translated
          taken.services_made taken.services_set in
      rw (tr.services_stored, reconcile_services, with_services, snap_all)
        (snap_all_endpoints-ok c tr.svcs tr.store (snap_services s tr.svcs) served.0
          tr.endpoints_stored)

  reconcile_services-AllServed :
      (c : Controller) (s : Snapshotter lib) (tr : Translations c s)
      → IsWellFormed s.nodes
      → s.localhost_endpoints ≡ false
      → Taken c s tr services endpoints
      → AllServed services endpoints (reconcile_services c s)
  reconcile_services-AllServed c s tr w mode taken =
      let o = snap_services s tr.svcs in
      let served =
        snap_services-Matched law services s tr.svcs tr.resources w mode tr.services_translated
          taken.services_made taken.services_set in
      subst (AllServed services endpoints) (sym (reconcile_services-steps c s tr w mode taken)) (
        endpoints_after s o.0 tr.store tr.named tr.eds
          (snap_services-Frame s services tr.svcs tr.resources tr.services_translated
            taken.services_made taken.services_set)
          (snap_services-Keeps s tr.svcs w).0 served.1 mode tr.endpoints_translated
          tr.endpoints_named taken.endpoints_made taken.endpoints_set)

  reconcile_services-SameAsks :
      (c : Controller) (s : Snapshotter lib) (tr : Translations c s)
      → IsWellFormed s.nodes
      → AllAskedOnce s.nodes
      → s.localhost_endpoints ≡ false
      → Taken c s tr services endpoints
      → SameAsks s.nodes (reconcile_services c s).0.nodes
  reconcile_services-SameAsks c s tr w once mode taken =
      let o = snap_services s tr.svcs in
      let first = snap_services-KeepsAsks s w.0 once tr.svcs in
      let last =
        snap_endpoints-KeepsAsks o.0 (snap_services-Keeps s tr.svcs w).0.0 first.0 tr.store in
      subst (λ (x : Outcome lib). SameAsks s.nodes x.0.nodes)
        (sym (reconcile_services-steps c s tr w mode taken))
        (λ n k id t. last.1 n k id t ∙ first.1 n k id t)

  -- With a snapshot cache that keeps its nodes apart, a well-formed nodes map in which no node and no
  -- stream has a key twice, and outside the localhost mode: where the controller can compute both
  -- stores, both can be translated without an error or a panic, and the two full snapshots can be made
  -- and are taken by the caches, a reconciliation of the services returns no error, each stream of each
  -- node asks for the same names of the same types as before, and it then holds, for each type that it
  -- asks for, exactly what the new full snapshot of the services, or of the endpoints, has under these
  -- names, in their order.
  pub reconcile_services-Served :
      (c : Controller) (s : Snapshotter lib) (tr : Translations c s)
      → IsWellFormed s.nodes
      → AllAskedOnce s.nodes
      → s.localhost_endpoints ≡ false
      → Taken c s tr services endpoints
      → AllServed services endpoints (reconcile_services c s)
        × SameAsks s.nodes (reconcile_services c s).0.nodes
  reconcile_services-Served c s tr w once mode taken = (
    reconcile_services-AllServed c s tr w mode taken,
    reconcile_services-SameAsks c s tr w once mode taken,
  )
