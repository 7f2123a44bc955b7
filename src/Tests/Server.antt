-- ===== src/Tests/Server.antt =====
-- The theorems on the server after a run: a client connects and asks for a cluster, and then the
-- services and the endpoints change.
use semaphore_xds.Snapshotter.Handlers.{
  new_snapshotter, on_stream_open, DiscoveryRequest, on_stream_request,
}
use semaphore_xds.Snapshotter.State.{Snapshotter}
use semaphore_xds.Snapshotter.Reach.{
  reachable-snap_services, reachable-on_stream_request, reachable-snap_endpoints, Event, step,
  reachable-IsWellFormed, Reach,
}
use semaphore_xds.Snapshotter.Invariant.{IsWellFormed}
use semaphore_xds.Snapshotter.Snap.{snap_services, all_endpoints, snap_endpoints}
use semaphore_xds.Resource.{cluster_type, listener_type}
use semaphore_xds.Snapshotter.Delta.{IsNotLinear}
use semaphore_xds.Snapshotter.Handlers.{DeltaDiscoveryRequest, on_stream_delta_request}
use semaphore_xds.Tests.Values.{endpoint_store, map_library, new_server, service_store}
use semaphore_xds.Prelude.Result.{panic}
use semaphore_xds.Endpoint.{endpoint_slices_to_cluster_load_assignments}
use semaphore_xds.Prelude.{◌≢◌, ◌≡◌, ◌↔◌, refl, string_eq, false, ◌∷◌, none, []}

abbrev listener_subscription : DeltaDiscoveryRequest
listener_subscription = record {
  type_url = listener_type;
  resource_names_subscribe = "api.shop:80" ∷ [];
}

abbrev cluster_request : DiscoveryRequest
cluster_request = record {
  node_id = "client";
  type_url = cluster_type;
  resource_names = "api.shop.80" ∷ [];
}

abbrev opened : Snapshotter map_library
opened = (step new_server (Event.opens "10.0.0.7:4711" 1)).0

abbrev served : Snapshotter map_library
served = (step opened (Event.requests 1 cluster_request none none)).0

abbrev updated : Snapshotter map_library
updated = (step served (Event.services_change service_store)).0

abbrev run : Reach new_server updated
run =
    Reach.next
      (Reach.next (Reach.next Reach.here (Event.opens "10.0.0.7:4711" 1))
        (Event.requests 1 cluster_request none none))
      (Event.services_change service_store)

reachable-IsWellFormed_example : IsWellFormed updated.nodes
reachable-IsWellFormed_example =
    reachable-IsWellFormed {lib = map_library} "" 0 0 false [] [] [] [] [] [] run

reachable-on_stream_request_example :
    ((on_stream_request updated 1 cluster_request none none).1 ≢ panic)
    × ((on_stream_delta_request updated listener_subscription ≡ panic)
        ↔ ((listener_subscription.resource_names_subscribe ≢ []) × IsNotLinear listener_type))
reachable-on_stream_request_example =
    reachable-on_stream_request {lib = map_library} "" 0 0 false [] [] [] [] [] [] run 1
      cluster_request none none listener_subscription

listener_subscription-panics : on_stream_delta_request updated listener_subscription ≡ panic
unfolding on_stream_delta_request
listener_subscription-panics = refl

reachable-snap_services_example : (snap_services updated service_store).1 ≢ panic
reachable-snap_services_example =
    reachable-snap_services {lib = map_library} "" 0 0 false [] [] [] [] [] [] run service_store

translated : all_endpoints opened endpoint_store ≢ panic
unfolding step on_stream_open new_snapshotter endpoint_slices_to_cluster_load_assignments
translated e = cc

abbrev run_opened : Reach new_server opened
run_opened = Reach.next Reach.here (Event.opens "10.0.0.7:4711" 1)

reachable-snap_endpoints_example : (snap_endpoints opened endpoint_store).1 ≢ panic
reachable-snap_endpoints_example =
    reachable-snap_endpoints {lib = map_library} "" 0 0 false [] [] [] [] [] [] run_opened
      endpoint_store translated
