-- ===== src/Endpoint.antt =====
-- Endpoints and their translation to xDS: xds/endpoints.go. A pointer that may be nil is an
-- Option, and following a nil pointer is a panic.
mod Build
unfoldable pub use Build.*
pub mod Panics
pub mod Store
pub mod Grouping
pub mod Assignments
pub mod Names
use semaphore_xds.Prelude.{
  ℕ, String, Bool, true, false, Option, none, some, List, [], ◌∷◌, ◌++◌, map, if◌then◌else◌, ◌==◌,
  string_eq,
}
use semaphore_xds.Prelude.Decimal.{ℤ}
use semaphore_xds.Prelude.GoMap.{GoMap, lookup, insert}
use semaphore_xds.Prelude.Result.{Result, ok, panic, ◌>>=◌}
use semaphore_xds.Names.{store_key, make_cluster_name, make_xdstp_cluster_load_assignment_name}
use semaphore_xds.Policy.{HealthStatus}
use semaphore_xds.Resource.{
  Address, LbEndpoint, Locality, LocalityLbEndpoints, ClusterLoadAssignment, Resource,
}

-- discoveryv1.Endpoint: what the program reads. `target_ref` is the name in TargetRef, and `ready`
-- is Conditions.Ready; both are optional in Kubernetes, as is the zone.
pub record KubeEndpoint : Type 0 where
  pub addresses : List String
  pub zone : Option String
  pub target_ref : Option String
  pub ready : Option Bool

-- discoveryv1.EndpointSlice; a port's number is optional in Kubernetes.
pub record EndpointSlice : Type 0 where
  pub name : String
  pub namespace : String
  pub labels : GoMap String String
  pub ports : List (Option ℤ)
  pub endpoints : List KubeEndpoint

pub record PriorityEndpointSlice : Type 0 where
  pub endpoint_slice : EndpointSlice
  pub priority : ℕ

pub record XdsEndpoint : Type 0 where
  pub endpoint_slices : List PriorityEndpointSlice
  pub namespace : String
  pub service : String

-- xdsEndpointStoreWrapper: its map, by `store_key`
abbrev pub XdsEndpointStore : Type 0
XdsEndpointStore = GoMap String XdsEndpoint

unfoldable pub new_xds_endpoint_store : XdsEndpointStore
new_xds_endpoint_store = []

unfoldable pub add : String → String → EndpointSlice → ℕ → XdsEndpointStore → XdsEndpointStore
add service namespace eps priority store =
    let item : PriorityEndpointSlice = record { endpoint_slice = eps; priority = priority } in
    elim (lookup (store_key service namespace) store) [
      | none ↦
          insert (store_key service namespace)
            (record { endpoint_slices = item ∷ []; namespace = namespace; service = service }) store
      | some se ↦
          insert (store_key service namespace)
            (record se { endpoint_slices = se.endpoint_slices ++ item ∷ [] }) store
    ]

-- A missing key gives Go's zero value.
unfoldable pub get : String → String → XdsEndpointStore → XdsEndpoint
get service namespace store = elim (lookup (store_key service namespace) store) [
  | none ↦ record { endpoint_slices = []; namespace = ""; service = "" }
  | some se ↦ se
]

pub record EdsClusterEndpoints : Type 0 where
  pub addresses : List String
  pub port : ℤ
  pub priority : ℕ
  pub zone : String
  pub subzone : String
  pub healthy : Bool

-- A map of EdsCluster, which holds just its endpoints.
abbrev pub EdsClusters : Type 0
EdsClusters = GoMap String (List EdsClusterEndpoints)

-- *p for a pointer
abbrev pub deref {ℓ} : {A : Type ℓ} → Option A → Result A
deref none = panic
deref (some a) = ok a

-- zone := "none", replaced where the endpoint has a zone
abbrev pub zone_or_none : Option String → String
zone_or_none none = "none"
zone_or_none (some z) = z

-- the body of the loop over endpoints
unfoldable pub cluster_endpoint : ℕ → Option ℤ → KubeEndpoint → Result EdsClusterEndpoints
cluster_endpoint priority port ep = do
  number ← deref port
  subzone ← deref ep.target_ref
  healthy ← deref ep.ready
  ok (record {
    addresses = ep.addresses;
    port = number;
    priority = priority;
    zone = zone_or_none ep.zone;
    subzone = subzone;
    healthy = healthy;
  })

-- the loop over endpoints
unfoldable pub endpoints_loop :
    ℕ → Option ℤ → List KubeEndpoint → List EdsClusterEndpoints → Result (List EdsClusterEndpoints)
unfolding cluster_endpoint
endpoints_loop priority port [] ceps = ok ceps
endpoints_loop priority port (ep ∷ eps) ceps =
    cluster_endpoint priority port ep >>= λ ce. endpoints_loop priority port eps (ceps ++ ce ∷ [])

-- the loop over ports
unfoldable pub slice_ports_loop :
    ℕ
    → List KubeEndpoint
    → List (Option ℤ)
    → List EdsClusterEndpoints
    → Result (List EdsClusterEndpoints)
unfolding endpoints_loop
slice_ports_loop priority eps [] ceps = ok ceps
slice_ports_loop priority eps (port ∷ ports) ceps =
    endpoints_loop priority port eps ceps >>= λ ceps'. slice_ports_loop priority eps ports ceps'

unfoldable pub endpoint_slice_to_cluster_endpoints :
    EndpointSlice → ℕ → Result (List EdsClusterEndpoints)
unfolding slice_ports_loop
endpoint_slice_to_cluster_endpoints e priority = slice_ports_loop priority e.endpoints e.ports []

-- the name of the cluster that an endpoint is filed under
abbrev pub eds_cluster_name : String → XdsEndpoint → ℤ → String
eds_cluster_name authority se port =
    if authority == ""
    then make_cluster_name se.service se.namespace port
    else make_xdstp_cluster_load_assignment_name se.service se.namespace authority port

unfoldable pub file_endpoint : String → EdsClusterEndpoints → EdsClusters → EdsClusters
file_endpoint cluster_name ce clusters = elim (lookup cluster_name clusters) [
  | none ↦ insert cluster_name (ce ∷ []) clusters
  | some endpoints ↦ insert cluster_name (endpoints ++ ce ∷ []) clusters
]

unfoldable pub file_endpoints :
    String → XdsEndpoint → List EdsClusterEndpoints → EdsClusters → EdsClusters
unfolding file_endpoint
file_endpoints authority se [] clusters = clusters
file_endpoints authority se (ce ∷ ces) clusters =
    file_endpoints authority se ces
      (file_endpoint (eds_cluster_name authority se ce.port) ce clusters)

unfoldable pub slices_loop :
    String → XdsEndpoint → List PriorityEndpointSlice → EdsClusters → Result EdsClusters
unfolding file_endpoints endpoint_slice_to_cluster_endpoints
slices_loop authority se [] clusters = ok clusters
slices_loop authority se (e ∷ es) clusters =
    endpoint_slice_to_cluster_endpoints e.endpoint_slice e.priority >>= λ ces.
    slices_loop authority se es (file_endpoints authority se ces clusters)

unfoldable pub endpoint_store_loop : String → XdsEndpointStore → EdsClusters → Result EdsClusters
unfolding slices_loop
endpoint_store_loop authority [] clusters = ok clusters
endpoint_store_loop authority ((key, se) ∷ store) clusters =
    slices_loop authority se se.endpoint_slices clusters >>= λ clusters'.
    endpoint_store_loop authority store clusters'

unfoldable pub create_clusters_from_endpoint_store : XdsEndpointStore → String → Result EdsClusters
unfolding endpoint_store_loop
create_clusters_from_endpoint_store store authority = endpoint_store_loop authority store []

-- the body of the loop over a cluster's endpoints
abbrev pub locality_of : EdsClusterEndpoints → LocalityLbEndpoints
locality_of endpoint =
    locality_endpoints (map (λ a. lb_endpoint a endpoint.port endpoint.healthy) endpoint.addresses)
      endpoint.zone endpoint.subzone endpoint.priority

abbrev pub assignment_of : String → List EdsClusterEndpoints → ClusterLoadAssignment
assignment_of name endpoints = cluster_load_assignment name (map locality_of endpoints)

unfoldable pub assignments_loop : EdsClusters → List Resource → List Resource
assignments_loop [] eds = eds
assignments_loop ((name, endpoints) ∷ clusters) eds =
    assignments_loop clusters (eds ++ Resource.endpoint (assignment_of name endpoints) ∷ [])

-- The error that it returns is always nil.
unfoldable pub endpoint_slices_to_cluster_load_assignments :
    XdsEndpointStore → String → Result (List Resource)
unfolding assignments_loop create_clusters_from_endpoint_store
endpoint_slices_to_cluster_load_assignments store authority = do
  clusters ← create_clusters_from_endpoint_store store authority
  ok (assignments_loop clusters [])

unfoldable pub named_assignments_loop : EdsClusters → GoMap String Resource → GoMap String Resource
named_assignments_loop [] eds = eds
named_assignments_loop ((name, endpoints) ∷ clusters) eds =
    named_assignments_loop clusters
      (insert name (Resource.endpoint (assignment_of name endpoints)) eds)

unfoldable pub endpoint_slices_to_cluster_load_assignments_with_names :
    XdsEndpointStore → String → Result (GoMap String Resource)
unfolding named_assignments_loop create_clusters_from_endpoint_store
endpoint_slices_to_cluster_load_assignments_with_names store authority = do
  clusters ← create_clusters_from_endpoint_store store authority
  ok (named_assignments_loop clusters [])
