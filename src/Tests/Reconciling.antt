-- ===== src/Tests/Reconciling.antt =====
-- A reconciliation of the services, at concrete inputs.
use mathlib.Core.List.{map, filter_map}
use semaphore_xds.Prelude.{◌≡◌, ◌⊎◌, ap, some, refl, [], ◌∷◌, string_eq, nat_eq}
use semaphore_xds.Prelude.GoMap.{lookup, insert}
use semaphore_xds.Prelude.Decimal.{pos, inc32, itoa}
use semaphore_xds.Prelude.Result.{ok, ◌>>=◌}
use semaphore_xds.Names.{make_cluster_name, store_key}
use semaphore_xds.Resource.{Resource, endpoint_type, cluster_type, listener_type, route_type}
use semaphore_xds.Service.Translate.{Resources}
use semaphore_xds.Service.Complete.{
  listener_at, route_at, service_ports, cluster_at, services_to_resources_lem,
}
use semaphore_xds.Endpoint.{
  EndpointSlice, endpoint_slices_to_cluster_load_assignments_with_names, assignment_of,
  endpoint_slices_to_cluster_load_assignments,
}
use semaphore_xds.Endpoint.Panics.{entry}
use semaphore_xds.Snapshotter.Handlers.{new_snapshotter}
use semaphore_xds.Snapshotter.Snap.{all_endpoints, all_services}
use semaphore_xds.Controller.Reconcile.{
  reconcile_services, reconcile_endpoint_slice, snap_all, reconcile_local_endpoint_slice,
  reconcile_remote_endpoint_slice,
}
use semaphore_xds.Controller.Steps.{
  perform, LocalOutcome, remote_outcome, first_answer, reconcile-performs,
}
use semaphore_xds.Snapshotter.Reach.{Event}
use semaphore_xds.Controller.Skipped.{reconcile_endpoint_slice-skipped}
use semaphore_xds.Controller.Extends.{slices_at}
use semaphore_xds.Controller.Served.{AllServed, Taken, Translations, reconcile_services-Served}
use semaphore_xds.Tests.Control.{
  prioritised, xds_controller, xds_store, xds_store_lem, xds_endpoints_lem,
}
use semaphore_xds.Snapshotter.Fresh.Unchanged.{SameAsks}
use semaphore_xds.Tests.Snapshots.{
  asking, asking-IsWellFormed, asking-AllAskedOnce, map_library-IsLawful,
}
use semaphore_xds.Tests.Values.{ready_endpoint, pack_any, VersionedResources}

abbrev fallback : Resource
fallback = Resource.endpoint (
    assignment_of "api.shop.80" (
      entry 0 (some (pos 80)) ready_endpoint
      ∷ entry 0 (some (pos 80)) ready_endpoint
      ∷ entry 1 (some (pos 80)) ready_endpoint
      ∷ entry 1 (some (pos 80)) ready_endpoint
      ∷ []))

abbrev service_resources : Resources
service_resources = record {
  cls = filter_map (cluster_at pack_any "") (service_ports xds_store);
  rds = map (route_at pack_any "") (service_ports xds_store);
  lsnr = filter_map (listener_at pack_any "") (service_ports xds_store);
}

xds_services-translated : all_services asking xds_store ≡ ok service_resources
unfolding new_snapshotter
xds_services-translated =
    ap (λ m. m >>= λ r. ok r) (services_to_resources_lem pack_any "" xds_store)

fallback-translated : all_endpoints asking prioritised ≡ ok (fallback ∷ [])
unfolding endpoint_slices_to_cluster_load_assignments make_cluster_name itoa new_snapshotter lookup
    insert
fallback-translated = refl

fallback-named :
    endpoint_slices_to_cluster_load_assignments_with_names prioritised ""
    ≡ ok (("api.shop.80", fallback) ∷ [])
unfolding endpoint_slices_to_cluster_load_assignments_with_names make_cluster_name itoa lookup
    insert
fallback-named = refl

abbrev translations : Translations xds_controller asking
translations = record {
  svcs = xds_store;
  resources = service_resources;
  store = prioritised;
  eds = fallback ∷ [];
  named = ("api.shop.80", fallback) ∷ [];
  services_stored = xds_store_lem;
  services_translated = xds_services-translated;
  endpoints_stored = xds_endpoints_lem;
  endpoints_translated = fallback-translated;
  endpoints_named = fallback-named;
}

abbrev services_snapshot : VersionedResources
services_snapshot = (
  itoa (inc32 (pos 0)),
  (cluster_type, service_resources.cls)
      ∷ (listener_type, service_resources.lsnr)
      ∷ (route_type, service_resources.rds)
      ∷ [],
)

abbrev endpoints_snapshot : VersionedResources
endpoints_snapshot = (itoa (inc32 (pos 0)), (endpoint_type, fallback ∷ []) ∷ [])

all-Taken : Taken xds_controller asking translations services_snapshot endpoints_snapshot
unfolding new_snapshotter
all-Taken = record {
  services_made = refl;
  services_set = refl;
  endpoints_made = refl;
  endpoints_set = refl;
}

reconcile_services-Served_example :
    AllServed services_snapshot endpoints_snapshot (reconcile_services xds_controller asking)
    × SameAsks asking.nodes (reconcile_services xds_controller asking).0.nodes
unfolding new_snapshotter
reconcile_services-Served_example =
    reconcile_services-Served map_library-IsLawful services_snapshot endpoints_snapshot
      xds_controller asking translations asking-IsWellFormed asking-AllAskedOnce refl all-Taken

abbrev web_slice : EndpointSlice
web_slice = record {
  name = "web-x";
  namespace = "shop";
  labels = ("kubernetes.io/service-name", "web") ∷ [];
  ports = some (pos 80) ∷ [];
  endpoints = ready_endpoint ∷ [];
}

reconcile_endpoint_slice-skipped_example :
    (reconcile_endpoint_slice xds_controller asking web_slice
      ≡ snap_all xds_controller asking xds_store)
    ⊎ ((reconcile_endpoint_slice xds_controller asking web_slice ≡ (asking, ok tt))
        × (slices_at "web.shop" prioritised ≡ []))
unfolding lookup store_key new_snapshotter
reconcile_endpoint_slice-skipped_example =
    reconcile_endpoint_slice-skipped xds_controller asking web_slice "web" xds_store prioritised
      refl xds_store_lem xds_endpoints_lem

reconcile-performs_example :
    (reconcile_services xds_controller asking
      ≡ perform (Event.services_change xds_store ∷ Event.endpoints_change prioritised ∷ []) asking)
    × LocalOutcome asking xds_store prioritised
        (xds_controller.local_client.endpoint_slice "api-x" "shop")
        (reconcile_local_endpoint_slice xds_controller asking "api-x" "shop")
    × (reconcile_remote_endpoint_slice xds_controller asking "api-x" "shop"
        ≡ remote_outcome asking xds_store prioritised
            (first_answer "api-x" "shop" xds_controller.remote_clients))
reconcile-performs_example =
    reconcile-performs xds_controller asking xds_store prioritised xds_store_lem xds_endpoints_lem
      "api-x" "shop"
