-- ===== src/Endpoint/Build.antt =====
-- The builders of load assignments in xds/endpoints.go.
use semaphore_xds.Prelude.{ℕ, String, Bool, true, List, [], ◌∷◌, if◌then◌else◌, string_eq}
use semaphore_xds.Prelude.Decimal.{ℤ, pos, to_uint32}
use semaphore_xds.Policy.{HealthStatus}
use semaphore_xds.Resource.{Address, LbEndpoint, LocalityLbEndpoints, ClusterLoadAssignment}

unfoldable pub endpoint_address : String → ℤ → Address
endpoint_address address port = record { address = address; port_value = to_uint32 port }

unfoldable pub lb_endpoint : String → ℤ → Bool → LbEndpoint
unfolding endpoint_address
lb_endpoint address port is_healthy = record {
  address = endpoint_address address port;
  health_status = if is_healthy then HealthStatus.healthy else HealthStatus.unhealthy;
}

unfoldable pub locality_endpoints : List LbEndpoint → String → String → ℕ → LocalityLbEndpoints
locality_endpoints lb_endpoints zone subzone priority = record {
  locality = record { zone = zone; sub_zone = subzone };
  priority = priority;
  load_balancing_weight = 100;
  lb_endpoints = lb_endpoints;
}

unfoldable pub cluster_load_assignment : String → List LocalityLbEndpoints → ClusterLoadAssignment
cluster_load_assignment cluster_name endpoints = record {
  cluster_name = cluster_name;
  endpoints = endpoints;
}

unfoldable pub localhost_cluster_load_assignment : String → ClusterLoadAssignment
unfolding lb_endpoint locality_endpoints cluster_load_assignment
localhost_cluster_load_assignment cluster_name = cluster_load_assignment cluster_name (
    locality_endpoints (lb_endpoint "127.0.0.1" (pos 18001) true ∷ []) "localhost" "localhost" 0
    ∷ [])
