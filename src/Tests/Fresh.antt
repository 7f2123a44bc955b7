-- ===== src/Tests/Fresh.antt =====
-- The endpoints that streams are given, at concrete inputs.
use semaphore_xds.Prelude.{some, refl, [], ◌∷◌, string_eq, nat_eq, ◌≡◌}
use semaphore_xds.Prelude.GoMap.{lookup, insert}
use semaphore_xds.Prelude.Decimal.{pos, inc32, itoa}
use semaphore_xds.Prelude.Result.{ok}
use semaphore_xds.Names.{make_cluster_name}
use semaphore_xds.Resource.{Resource, endpoint_type}
use semaphore_xds.Endpoint.{
  endpoint_slices_to_cluster_load_assignments_with_names, assignment_of,
  endpoint_slices_to_cluster_load_assignments,
}
use semaphore_xds.Endpoint.Panics.{entry}
use semaphore_xds.Snapshotter.Handlers.{new_snapshotter}
use semaphore_xds.Snapshotter.Snap.{all_endpoints, snap_endpoints}
use semaphore_xds.Snapshotter.Fresh.Endpoints.{snap_endpoints-Served, EndpointsServed}
use semaphore_xds.Snapshotter.Fresh.Unchanged.{SameAsks}
use semaphore_xds.Tests.Snapshots.{
  asking, asking-IsWellFormed, asking-AllAskedOnce, map_library-IsLawful,
}
use semaphore_xds.Tests.Values.{endpoint_store, ready_endpoint, VersionedResources}

abbrev assignment : Resource
assignment = Resource.endpoint (
    assignment_of "api.shop.80"
      (entry 0 (some (pos 80)) ready_endpoint ∷ entry 0 (some (pos 80)) ready_endpoint ∷ []))

abbrev pub full_endpoints : VersionedResources
full_endpoints = (itoa (inc32 (pos 0)), (endpoint_type, assignment ∷ []) ∷ [])

endpoints-translated : all_endpoints asking endpoint_store ≡ ok (assignment ∷ [])
unfolding endpoint_slices_to_cluster_load_assignments make_cluster_name itoa new_snapshotter lookup
    insert
endpoints-translated = refl

endpoints-named :
    endpoint_slices_to_cluster_load_assignments_with_names endpoint_store ""
    ≡ ok (("api.shop.80", assignment) ∷ [])
unfolding endpoint_slices_to_cluster_load_assignments_with_names make_cluster_name itoa lookup
    insert
endpoints-named = refl

snap_endpoints-Served_example :
    EndpointsServed full_endpoints (snap_endpoints asking endpoint_store)
    × SameAsks asking.nodes (snap_endpoints asking endpoint_store).0.nodes
unfolding new_snapshotter
snap_endpoints-Served_example =
    snap_endpoints-Served map_library-IsLawful full_endpoints asking endpoint_store
      (("api.shop.80", assignment) ∷ []) (assignment ∷ []) asking-IsWellFormed asking-AllAskedOnce
      refl endpoints-translated endpoints-named refl refl
