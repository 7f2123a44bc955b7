-- ===== src/Tests/Snapshots.antt =====
-- The theorems on snapshots at concrete inputs, with caches that are maps.
use mathlib.Core.List.{map, filter_map}
use semaphore_xds.Snapshotter.Fresh.Asked.{Kind, services, endpoints, asks}
use semaphore_xds.Snapshotter.Fresh.Unchanged.{AllAskedOnce, SameAsks}
use semaphore_xds.Snapshotter.Fresh.Services.{snap_services-Served, Served}
use semaphore_xds.Snapshotter.Invariant.{IsWellFormed}
use semaphore_xds.Prelude.{
  ◌≢◌, contains, beq_of_ne, All, ap, length, ne_of_beq, ◌↔◌, ◌≡◌, String, none, some, refl, [], ◌∷◌,
  true, string_eq, nat_eq,
}
use semaphore_xds.Snapshotter.Library.{IsLawful}
use semaphore_xds.Snapshotter.State.{
  NodeSnapshotResources, Node, make_empty_node_resources, Snapshotter, resources_match,
  map_type_url,
}
use semaphore_xds.Snapshotter.Handlers.{
  on_stream_closed, on_stream_request, DiscoveryRequest, new_snapshotter,
}
use semaphore_xds.Snapshotter.Isolation.{on_stream_closed-last, on_stream_request-SameFor, SameFor}
use semaphore_xds.Prelude.GoMap.{
  Distinct, lookup-delete, lookup-insert, lookup-insert_self, delete, lookup,
}
use semaphore_xds.Service.Translate.{Resources}
use semaphore_xds.Tests.Values.{
  pack_any, service_store, new_server, map_library, VersionedResources,
}
use semaphore_xds.Resource.{endpoint_type, route_type, listener_type, cluster_type}
use semaphore_xds.Snapshotter.Snap.{snap_services, all_services}
use semaphore_xds.Prelude.Decimal.{pos, inc32, itoa}
use semaphore_xds.Snapshotter.Full.{snap_services-get}
use semaphore_xds.Snapshotter.Matching.{resources_match_lem}
use semaphore_xds.Service.Complete.{
  listener_at, route_at, service_ports, cluster_at, services_to_resources_lem,
}
use semaphore_xds.Snapshotter.Nodes.{node_endpoints_snapshot, node_service_snapshot}
use semaphore_xds.Snapshotter.Versions.{node_snapshots-version_ne}
use semaphore_xds.Prelude.Result.{◌>>=◌, ok}

pub map_library-IsLawful : IsLawful map_library
map_library-IsLawful = record {
  get_set_self = λ c n s is_ok. lookup-insert_self n s c;
  get_set_ne = λ c n m s other. rw (lookup-insert n m s c, beq_of_ne n m other) refl;
  get_clear = λ c n m. lookup-delete n m c;
}

abbrev one_node : Snapshotter map_library
one_node = record new_server {
  nodes =
      (
        "client",
        record {
          address = "10.0.0.7:4711";
          resources = (1, make_empty_node_resources) ∷ [];
          service_snap_version = pos 1;
          endpoints_snap_version = pos 0;
        },
      )
      ∷ [];
  services_cache = ("client", ("1", [])) ∷ [];
}

abbrev other_request : DiscoveryRequest
other_request = record {
  node_id = "other";
  type_url = cluster_type;
  resource_names = "api.shop.80" ∷ [];
}

on_stream_request-SameFor_example :
    SameFor "client" one_node (on_stream_request one_node 2 other_request none none).0
on_stream_request-SameFor_example =
    on_stream_request-SameFor map_library-IsLawful one_node "client" 2 other_request none none
      (ne_of_beq {A = String} "other" "client" refl)

on_stream_closed-last_example :
    (lookup "client" (on_stream_closed one_node 1 "client").nodes ≡ none)
    × (lookup "client" (on_stream_closed one_node 1 "client").services_cache ≡ none)
    × (lookup "client" (on_stream_closed one_node 1 "client").endpoints_cache ≡ none)
unfolding lookup delete
on_stream_closed-last_example =
    on_stream_closed-last map_library-IsLawful one_node "client" 1
      (record {
        address = "10.0.0.7:4711";
        resources = (1, make_empty_node_resources) ∷ [];
        service_snap_version = pos 1;
        endpoints_snap_version = pos 0;
      })
      (ne_of_beq {A = String} "client" "" refl) refl refl

resources_match_lem_example : (resources_match ("x" ∷ "y" ∷ []) ("y" ∷ "x" ∷ []) ≡ true) ↔ (
    (length {A = String} ("x" ∷ "y" ∷ []) ≡ length {A = String} ("y" ∷ "x" ∷ []))
    × All (λ e. contains {A = String} ("x" ∷ "y" ∷ []) e ≡ true) ("y" ∷ "x" ∷ []))
resources_match_lem_example = resources_match_lem ("x" ∷ "y" ∷ []) ("y" ∷ "x" ∷ [])

abbrev translated : Resources
translated = record {
  cls = filter_map (cluster_at pack_any "") (service_ports service_store);
  rds = map (route_at pack_any "") (service_ports service_store);
  lsnr = filter_map (listener_at pack_any "") (service_ports service_store);
}

all_services-translated : all_services new_server service_store ≡ ok translated
unfolding new_snapshotter
all_services-translated =
    ap (λ m. m >>= λ r. ok r) (services_to_resources_lem pack_any "" service_store)

abbrev pub full_snapshot : VersionedResources
full_snapshot = (
  itoa (inc32 (pos 0)),
  (cluster_type, translated.cls)
      ∷ (listener_type, translated.lsnr)
      ∷ (route_type, translated.rds)
      ∷ [],
)

snap_services-get_example :
    lookup "" (snap_services new_server service_store).0.services_cache ≡ some full_snapshot
unfolding new_snapshotter
snap_services-get_example =
    snap_services-get map_library-IsLawful new_server service_store translated full_snapshot
      (tt, tt) all_services-translated refl refl

abbrev last_version : Node
last_version = record {
  address = "10.0.0.7:4711";
  resources = [];
  service_snap_version = pos 2147483647;
  endpoints_snap_version = pos 9;
}

node_snapshots-version_ne_example :
    (itoa (node_service_snapshot one_node "client" last_version).0.service_snap_version
      ≢ itoa (pos 2147483647))
    × (itoa (node_endpoints_snapshot one_node "client" last_version).0.endpoints_snap_version
        ≢ itoa (pos 9))
node_snapshots-version_ne_example = node_snapshots-version_ne one_node "client" last_version

-- the streams of a node that asks for a cluster and for a load assignment
abbrev pub asking_stream : NodeSnapshotResources
asking_stream = record {
  services = [];
  services_names = (cluster_type, "api.shop.80" ∷ "gone" ∷ []) ∷ [];
  endpoints = [];
  endpoints_names = (endpoint_type, "api.shop.80" ∷ []) ∷ [];
}

abbrev pub asking_node : Node
asking_node = record {
  address = "10.0.0.7:4711";
  resources = (1, asking_stream) ∷ [];
  service_snap_version = pos 1;
  endpoints_snap_version = pos 0;
}

abbrev pub asking : Snapshotter map_library
asking = record new_server { nodes = ("client", asking_node) ∷ [] }

pub asking-IsWellFormed : IsWellFormed asking.nodes
unfolding new_snapshotter map_type_url
asking-IsWellFormed = (
  (tt, tt),
  ((ne_of_beq {A = String} "client" "" refl, (λ h. cc), (((refl, tt), (refl, tt)), tt)), tt),
)

-- Its lists repeat no key.
pub asking-AllAskedOnce : AllAskedOnce asking.nodes
unfolding new_snapshotter
asking-AllAskedOnce = (((tt, tt), (once, tt)), tt)
  where
    once : (k : Kind) → Distinct (asks k asking_stream)
    once services = (tt, tt)
    once endpoints = (tt, tt)

snap_services-Served_example :
    Served full_snapshot (snap_services asking service_store)
    × SameAsks asking.nodes (snap_services asking service_store).0.nodes
unfolding new_snapshotter
snap_services-Served_example =
    snap_services-Served map_library-IsLawful full_snapshot asking service_store translated
      asking-IsWellFormed asking-AllAskedOnce refl all_services-translated refl refl
