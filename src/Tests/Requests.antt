-- ===== src/Tests/Requests.antt =====
-- Requests for a cluster and for its endpoints, at concrete inputs.
use semaphore_xds.Prelude.{
  ◌≡◌, none, ne_of_beq, refl, some, List, [], ◌∷◌, string_eq, nat_eq, String,
}
use semaphore_xds.Prelude.Decimal.{pos, inc32, itoa}
use semaphore_xds.Prelude.GoMap.{GoMap, lookup}
use semaphore_xds.Prelude.Groups.{held}
use semaphore_xds.Prelude.Result.{ok}
use semaphore_xds.Resource.{Resource, cluster_type, endpoint_type}
use semaphore_xds.Snapshotter.Welcome.{on_stream_request-delivers, new_node}
use semaphore_xds.Snapshotter.State.{Snapshotter, Stream, make_empty_node_resources, map_type_url}
use semaphore_xds.Snapshotter.Nodes.{update_stream_node_resources}
use semaphore_xds.Snapshotter.Handlers.{DiscoveryRequest, on_stream_request, new_snapshotter}
use semaphore_xds.Snapshotter.Fresh.Services.{HasServices}
use semaphore_xds.Snapshotter.Fresh.Found.{found_in}
use semaphore_xds.Snapshotter.Aggregate.{Within}
use semaphore_xds.Snapshotter.Request.{services_with, update_stream_node_resources-delivers}
use semaphore_xds.Snapshotter.Fresh.Endpoints.{HasEndpoints}
use semaphore_xds.Snapshotter.Request.Endpoints.{
  endpoints_with, update_stream_node_resources-delivers_endpoints,
}
use semaphore_xds.Tests.Fresh.{full_endpoints}
use semaphore_xds.Tests.Values.{map_library, VersionedResources}
use semaphore_xds.Tests.Metrics.{reporting}
use semaphore_xds.Tests.Snapshots.{asking_stream, asking_node, full_snapshot, map_library-IsLawful}

reporting-HasServices : HasServices {lib = map_library} full_snapshot reporting
unfolding new_snapshotter lookup
reporting-HasServices = record { full_services = refl; not_localhost = refl }

abbrev names : List String
names = "api.shop.443" ∷ []

abbrev next_snapshot : VersionedResources
next_snapshot = (
  itoa (inc32 (pos 1)),
  services_with map_library full_snapshot asking_node 1 asking_stream cluster_type names,
)

update_stream_node_resources-delivers_example :
    ((update_stream_node_resources reporting "client" cluster_type 1 names).1 ≡ ok tt)
    × (lookup "client"
          (update_stream_node_resources reporting "client" cluster_type 1 names).0.services_cache
        ≡ some next_snapshot)
    × Within (found_in map_library full_snapshot cluster_type names) (
        held (
          lookup cluster_type (
            services_with map_library full_snapshot asking_node 1 asking_stream cluster_type
              names)))
unfolding map_type_url lookup
update_stream_node_resources-delivers_example =
    update_stream_node_resources-delivers map_library-IsLawful full_snapshot next_snapshot reporting
      "client" cluster_type 1 names asking_node asking_stream reporting-HasServices refl refl refl
      refl refl

abbrev open_stream : Stream map_library
open_stream = record { peer_address = "10.0.0.9:4711"; request_rate_limit = 0 }

abbrev first_request : DiscoveryRequest
first_request = record { node_id = "other"; type_url = cluster_type; resource_names = names }

abbrev streaming : Snapshotter map_library
streaming = record reporting { streams = (2, open_stream) ∷ [] }

streaming-HasServices : HasServices {lib = map_library} full_snapshot streaming
unfolding new_snapshotter lookup
streaming-HasServices = record { full_services = refl; not_localhost = refl }

abbrev first_resources : GoMap String (List Resource)
first_resources =
    services_with map_library full_snapshot (new_node "10.0.0.9:4711" 2) 2 make_empty_node_resources
      cluster_type names

on_stream_request-delivers_example :
    ((on_stream_request streaming 2 first_request none none).1 ≡ ok tt)
    × (lookup "other" (on_stream_request streaming 2 first_request none none).0.services_cache
        ≡ some (itoa (inc32 (pos 0)), first_resources))
    × Within
        (found_in map_library full_snapshot cluster_type names)
        (held (lookup cluster_type first_resources))
unfolding new_snapshotter map_type_url lookup
on_stream_request-delivers_example =
    on_stream_request-delivers map_library-IsLawful full_snapshot
      (itoa (inc32 (pos 0)), first_resources) streaming 2 open_stream first_request
      streaming-HasServices refl (ne_of_beq {A = String} "other" "" refl) refl refl (λ h. cc) refl
      refl

reporting-HasEndpoints : HasEndpoints {lib = map_library} full_endpoints reporting
unfolding new_snapshotter lookup
reporting-HasEndpoints = record { full_endpoints = refl; not_localhost = refl }

abbrev clusters : List String
clusters = "api.shop.80" ∷ []

abbrev next_endpoints : VersionedResources
next_endpoints = (
  itoa (inc32 (pos 0)),
  endpoints_with map_library full_endpoints asking_node 1 asking_stream endpoint_type clusters,
)

update_stream_node_resources-delivers_endpoints_example :
    ((update_stream_node_resources reporting "client" endpoint_type 1 clusters).1 ≡ ok tt)
    × (lookup "client"
          (update_stream_node_resources reporting "client" endpoint_type 1
            clusters).0.endpoints_cache
        ≡ some next_endpoints)
    × ((update_stream_node_resources reporting "client" endpoint_type 1 clusters).0.services_cache
        ≡ reporting.services_cache)
    × Within (found_in map_library full_endpoints endpoint_type clusters) (
        held (
          lookup endpoint_type (
            endpoints_with map_library full_endpoints asking_node 1 asking_stream endpoint_type
              clusters)))
unfolding map_type_url lookup
update_stream_node_resources-delivers_endpoints_example =
    update_stream_node_resources-delivers_endpoints map_library-IsLawful full_endpoints
      next_endpoints reporting "client" endpoint_type 1 clusters asking_node asking_stream
      reporting-HasEndpoints refl refl refl refl refl
