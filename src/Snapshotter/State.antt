-- ===== src/Snapshotter/State.antt =====
-- The types of xds/snapshotter.go, and what depends on no state: the maps of type URLs,
-- aggregateNodeResources, makeEmptyNodeResources and waitForRequestLimit; resourcesMatch of
-- xds/utils.go. An int64 stream id is a ℕ: gRPC's server counts streams from 1.
use semaphore_xds.Prelude.{
  ℕ, String, Bool, true, false, ◌||◌, Option, none, some, List, [], ◌∷◌, if◌then◌else◌, ◌==◌,
  string_eq, length, contains, nat_beq,
}
use semaphore_xds.Prelude.Decimal.{ℤ}
use semaphore_xds.Prelude.GoMap.{GoMap}
use semaphore_xds.Prelude.Groups.{push}
use semaphore_xds.Prelude.Result.{Result, ok, err}
use semaphore_xds.Resource.{
  Resource, listener_type, route_type, cluster_type, endpoint_type, virtual_host_type,
}
use semaphore_xds.Snapshotter.Library.{Library}

-- EmptyNodeID
abbrev pub empty_node_id : String
empty_node_id = ""

pub record NodeSnapshotResources : Type 0 where
  pub services : GoMap String (List Resource)
  pub services_names : GoMap String (List String)
  pub endpoints : GoMap String (List Resource)
  pub endpoints_names : GoMap String (List String)

pub record Node : Type 0 where
  pub address : String
  pub resources : GoMap ℕ NodeSnapshotResources
  pub service_snap_version : ℤ
  pub endpoints_snap_version : ℤ

-- A rate limiter is known by its limit.
pub record Stream (lib : Library) : Type 0 where
  pub peer_address : String
  pub request_rate_limit : lib.Rate

pub record Snapshotter (lib : Library) : Type 0 where
  pub authority : String
  pub services_cache : lib.Cache
  pub service_snap_version : ℤ
  pub endpoints_cache : lib.Cache
  pub endpoints_snap_version : ℤ
  pub delta_cds_cache : lib.Linear
  pub delta_eds_cache : lib.Linear
  pub delta_rds_cache : lib.Linear
  pub delta_vhds_cache : lib.Linear
  pub request_rate_limit : lib.Rate
  pub stream_request_per_second : lib.Rate
  pub streams : GoMap ℕ (Stream lib)
  pub nodes : GoMap String Node
  pub localhost_endpoints : Bool

-- mapTypeURL and mapDeltaTypeURL
unfoldable pub map_type_url : String → String
map_type_url type_url =
    if type_url == listener_type || (type_url == route_type || type_url == cluster_type)
    then "services"
    else if type_url == endpoint_type
    then "endpoints"
    else ""

unfoldable pub map_delta_type_url : String → String
map_delta_type_url type_url =
    if type_url == cluster_type
    then "deltaClusters"
    else if type_url == endpoint_type
    then "deltaEndpoints"
    else if type_url == route_type
    then "deltaRouteConfigurations"
    else if type_url == virtual_host_type
    then "deltaVirtualHosts"
    else ""

module _ {lib : Library} where
  -- `none` is nil
  unfoldable pub get_cache_for_type : Snapshotter lib → String → Option (lib.Cache)
  get_cache_for_type s type_url =
      if type_url == listener_type || (type_url == route_type || type_url == cluster_type)
      then some s.services_cache
      else if type_url == endpoint_type
      then some s.endpoints_cache
      else none

  unfoldable pub get_delta_cache_for_type : Snapshotter lib → String → Option (lib.Linear)
  get_delta_cache_for_type s type_url =
      if type_url == endpoint_type
      then some s.delta_eds_cache
      else if type_url == cluster_type
      then some s.delta_cds_cache
      else if type_url == route_type
      then some s.delta_rds_cache
      else if type_url == virtual_host_type
      then some s.delta_vhds_cache
      else none

unfoldable pub make_empty_node_resources : NodeSnapshotResources
make_empty_node_resources = record {
  services = (cluster_type, []) ∷ (listener_type, []) ∷ (route_type, []) ∷ [];
  services_names = (cluster_type, []) ∷ (listener_type, []) ∷ (route_type, []) ∷ [];
  endpoints = (endpoint_type, []) ∷ [];
  endpoints_names = (endpoint_type, []) ∷ [];
}

-- the loops of aggregateNodeResources, from the innermost out
unfoldable pub aggregate_resources :
    String → List Resource → GoMap String (List Resource) → GoMap String (List Resource)
aggregate_resources type_url [] aggr = aggr
aggregate_resources type_url (r ∷ resources) aggr =
    aggregate_resources type_url resources (push type_url r aggr)

unfoldable pub aggregate_types :
    GoMap String (List Resource) → GoMap String (List Resource) → GoMap String (List Resource)
unfolding aggregate_resources
aggregate_types [] aggr = aggr
aggregate_types ((type_url, resources) ∷ types) aggr =
    aggregate_types types (aggregate_resources type_url resources aggr)

unfoldable pub aggregate_streams :
    (NodeSnapshotResources → GoMap String (List Resource))
    → GoMap ℕ NodeSnapshotResources
    → GoMap String (List Resource)
    → GoMap String (List Resource)
unfolding aggregate_types
aggregate_streams field [] aggr = aggr
aggregate_streams field ((id, r) ∷ streams) aggr =
    aggregate_streams field streams (aggregate_types (field r) aggr)

unfoldable pub aggregate_node_resources :
    String → GoMap ℕ NodeSnapshotResources → GoMap String (List Resource)
unfolding aggregate_streams
aggregate_node_resources resource_type node_resources =
    let aggr_services : GoMap String (List Resource) =
      if resource_type == "services"
      then aggregate_streams (λ r. r.services) node_resources []
      else [] in
    if resource_type == "endpoints"
    then aggregate_streams (λ r. r.endpoints) node_resources aggr_services
    else aggr_services

-- Wait's answer within the second is an argument: `none` for nil, or the error's message. A limit
-- of 0 is no limit.
unfoldable pub wait_for_request_limit :
    (lib : Library) → lib.Rate → Option String → Result (Unit {0})
wait_for_request_limit lib limit answer =
    if lib.is_zero limit then ok tt else elim answer [ none ↦ ok tt | some message ↦ err message ]

-- the loop of resourcesMatch over `b`
unfoldable pub all_in : List String → List String → Bool
all_in a [] = true
all_in a (e ∷ b) = if contains a e then all_in a b else false

unfoldable pub resources_match : List String → List String → Bool
unfolding all_in
resources_match a b = if nat_beq (length a) (length b) then all_in a b else false
