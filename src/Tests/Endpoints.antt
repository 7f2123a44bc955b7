-- ===== src/Tests/Endpoints.antt =====
-- The theorems on endpoints at concrete inputs.
use semaphore_xds.Endpoint.{
  eds_cluster_name, create_clusters_from_endpoint_store, EdsClusters,
  endpoint_slices_to_cluster_load_assignments, endpoint_slice_to_cluster_endpoints,
  endpoint_slices_to_cluster_load_assignments_with_names,
}
use semaphore_xds.Endpoint.Names.{eds_resource_name-cluster_of, eds_resource_name}
use semaphore_xds.Tests.Values.{
  api_endpoint, ready_endpoint, api_service, api_slice, endpoint_store,
}
use semaphore_xds.Endpoint.Grouping.{create_clusters_from_endpoint_store_lem, NamedEndpoint}
use semaphore_xds.Names.{make_cluster_name}
use semaphore_xds.Service.Translate.{cluster_of}
use semaphore_xds.Endpoint.Panics.{endpoint_slice_to_cluster_endpoints_lem, is_usable, entry}
use semaphore_xds.Prelude.Decimal.{pos, itoa}
use semaphore_xds.Prelude.Result.{panic, ◌>>=◌, ok}
use semaphore_xds.Prelude.GoMap.{lookup, Distinct}
use semaphore_xds.Prelude.Groups.{values_of, held}
use semaphore_xds.Endpoint.Assignments.{assignments_with_names-by_name, assignment_name}
use semaphore_xds.Endpoint.Assignments.{assignments_with_names-by_name}
use mathlib.Core.List.{flat_map}
use semaphore_xds.Prelude.Groups.{values_of}
use semaphore_xds.Prelude.{string_eq, refl, map, [], ◌∷◌, if◌then◌else◌, some, ◌≡◌, List, String}

endpoint_slice_to_cluster_endpoints_lem_example :
    endpoint_slice_to_cluster_endpoints api_slice 1 ≡ (
      if is_usable api_slice
      then ok (flat_map (λ port. map (entry 1 port) api_slice.endpoints) api_slice.ports)
      else panic)
endpoint_slice_to_cluster_endpoints_lem_example =
    endpoint_slice_to_cluster_endpoints_lem api_slice 1

-- the endpoints of the store, at port 80, with their cluster's name
abbrev filed : List NamedEndpoint
filed =
    ("api.shop.80", entry 0 (some (pos 80)) ready_endpoint)
    ∷ ("api.shop.80", entry 0 (some (pos 80)) ready_endpoint)
    ∷ []

create_clusters_from_endpoint_store_lem_example :
    (clusters : EdsClusters) × (create_clusters_from_endpoint_store endpoint_store "" ≡ ok clusters)
    × Distinct clusters
    × ((name : String) → held (lookup name clusters) ≡ values_of name filed)
unfolding endpoint_slice_to_cluster_endpoints make_cluster_name itoa
create_clusters_from_endpoint_store_lem_example =
    create_clusters_from_endpoint_store_lem endpoint_store "" filed refl

assignments_with_names-by_name_example :
    endpoint_slices_to_cluster_load_assignments_with_names endpoint_store "uw.systems" ≡ (
      endpoint_slices_to_cluster_load_assignments endpoint_store "uw.systems" >>= λ eds.
      ok (map (λ r. (assignment_name r, r)) eds))
assignments_with_names-by_name_example = assignments_with_names-by_name endpoint_store "uw.systems"

eds_resource_name-cluster_of_example :
    eds_resource_name (cluster_of "uw.systems" api_service (pos 80))
    ≡ eds_cluster_name "uw.systems" api_endpoint (pos 80)
eds_resource_name-cluster_of_example =
    eds_resource_name-cluster_of "uw.systems" api_service api_endpoint (pos 80) refl refl
