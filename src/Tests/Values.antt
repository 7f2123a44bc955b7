-- ===== src/Tests/Values.antt =====
-- Test data: services, endpoint slices, stores, and a library of caches that are maps.
use semaphore_xds.Prelude.GoMap.{delete, insert, lookup, GoMap}
use semaphore_xds.Service.{KubeService, XdsServiceStore, Service}
use semaphore_xds.Endpoint.{KubeEndpoint, EndpointSlice, XdsEndpoint, XdsEndpointStore}
use semaphore_xds.Resource.{Any, Message, Resource}
use semaphore_xds.Snapshotter.Library.{Library}
use semaphore_xds.Snapshotter.State.{Snapshotter}
use semaphore_xds.Prelude.Decimal.{pos}
use semaphore_xds.Snapshotter.Handlers.{new_snapshotter}
use semaphore_xds.Prelude.Groups.{held}
use semaphore_xds.Policy.{LbPolicy}
use semaphore_xds.Prelude.{
  none, nat_eq, string_eq, ◌==◌, false, [], map, ◌∷◌, true, ℕ, some, List, Option, String,
}

abbrev pub test_labels : GoMap String String
test_labels = ("app", "api") ∷ []

abbrev pub api : KubeService
api = record {
  name = "api";
  namespace = "shop";
  labels = test_labels;
  ports = pos 80 ∷ pos 443 ∷ [];
}

abbrev pub api_service : Service
api_service = record {
  enable_remote_endpoints = true;
  policy = LbPolicy.round_robin;
  ring_hash = none;
  ring_hash_policies = [];
  prioritize_local_endpoints = true;
  service = api;
  retry = none;
}

abbrev pub service_store : XdsServiceStore
service_store = ("api.shop", api_service) ∷ []

abbrev pub ready_endpoint : KubeEndpoint
ready_endpoint = record {
  addresses = "10.0.0.1" ∷ [];
  zone = some "a";
  target_ref = some "api-0";
  ready = some true;
}

abbrev pub api_slice : EndpointSlice
api_slice = record {
  name = "api-x";
  namespace = "shop";
  labels = ("kubernetes.io/service-name", "api") ∷ [];
  ports = some (pos 80) ∷ [];
  endpoints = ready_endpoint ∷ ready_endpoint ∷ [];
}

abbrev pub api_endpoint : XdsEndpoint
api_endpoint = record {
  endpoint_slices = record { endpoint_slice = api_slice; priority = 0 } ∷ [];
  namespace = "shop";
  service = "api";
}

abbrev pub endpoint_store : XdsEndpointStore
endpoint_store = ("api.shop", api_endpoint) ∷ []

-- What anypb.New makes of a message is of no concern to the program.
abbrev pub pack_any : Message → Option Any
pack_any m = some (record { type_url = ""; value = "" })

abbrev pub resource_name : Resource → String
resource_name (Resource.cluster c) = c.name
resource_name (Resource.route r) = r.name
resource_name (Resource.listener l) = l.name
resource_name (Resource.endpoint e) = e.cluster_name
resource_name (Resource.virtual_host none) = ""
resource_name (Resource.virtual_host (some v)) = v.name

-- a snapshot: its version and its resources
abbrev pub VersionedResources : Type 0
VersionedResources = String × GoMap String (List Resource)

abbrev pub map_library : Library
map_library = record {
  Snapshot = VersionedResources;
  Cache = GoMap String VersionedResources;
  Linear = GoMap String Resource;
  Rate = ℕ;
  new_snapshot = λ version resources. some (version, resources);
  get_resources = λ snapshot type_url.
      map (λ (r : Resource). (resource_name r, r)) (held (lookup type_url snapshot.1));
  set_snapshot = λ cache node snapshot. (insert node snapshot cache, true);
  get_snapshot = λ cache node. lookup node cache;
  clear_snapshot = λ cache node. delete node cache;
  set_resources = λ linear resources. resources;
  linear_resources = λ linear. linear;
  is_zero = λ rate. rate == 0;
  pack = pack_any;
}

abbrev pub new_server : Snapshotter map_library
new_server = new_snapshotter {lib = map_library} "" 0 0 false [] [] [] [] [] []
