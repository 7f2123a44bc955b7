-- ===== src/Policy.antt =====
-- Enumerations and their texts: the `Parse…` functions of xds/utils.go and types/types.go.
pub mod RoundTrip
use semaphore_xds.Prelude.{String, ◌≡◌, refl, Bool, if◌then◌else◌, ◌==◌, string_eq}
use semaphore_xds.Prelude.Decimal.{ℤ}

-- clusterv3.Cluster_LbPolicy is an int32; `unknown` is a number with no name.
pub data LbPolicy : Type 0 where
  round_robin least_request ring_hash random maglev cluster_provided : LbPolicy
  load_balancing_policy_config : LbPolicy
  unknown : ℤ → LbPolicy

unfoldable pub parse_cluster_lb_policy : LbPolicy → String
parse_cluster_lb_policy LbPolicy.round_robin = "round_robin"
parse_cluster_lb_policy LbPolicy.least_request = "least_request"
parse_cluster_lb_policy LbPolicy.ring_hash = "ring_hash"
parse_cluster_lb_policy LbPolicy.random = "random"
parse_cluster_lb_policy LbPolicy.maglev = "maglev"
parse_cluster_lb_policy LbPolicy.cluster_provided = "cluster_provided"
parse_cluster_lb_policy LbPolicy.load_balancing_policy_config = "load_balancing_policy_config"
parse_cluster_lb_policy (LbPolicy.unknown n) = ""

-- The default case logs a warning and falls back to round robin.
unfoldable pub parse_to_cluster_lb_policy : String → LbPolicy
parse_to_cluster_lb_policy policy =
    if policy == "round_robin"
    then LbPolicy.round_robin
    else if policy == "least_request"
    then LbPolicy.least_request
    else if policy == "ring_hash"
    then LbPolicy.ring_hash
    else if policy == "random"
    then LbPolicy.random
    else if policy == "maglev"
    then LbPolicy.maglev
    else if policy == "cluster_provided"
    then LbPolicy.cluster_provided
    else if policy == "load_balancing_policy_config"
    then LbPolicy.load_balancing_policy_config
    else LbPolicy.round_robin

-- policy == clusterv3.Cluster_RING_HASH
abbrev pub is_ring_hash : LbPolicy → Bool
is_ring_hash LbPolicy.ring_hash = Bool.true
is_ring_hash _ = Bool.false

-- clusterv3.Cluster_DiscoveryType
pub data DiscoveryType : Type 0 where
  static strict_dns logical_dns eds original_dst : DiscoveryType
  unknown : ℤ → DiscoveryType

unfoldable pub parse_cluster_discovery_type : DiscoveryType → String
parse_cluster_discovery_type DiscoveryType.static = "static"
parse_cluster_discovery_type DiscoveryType.strict_dns = "strict_dns"
parse_cluster_discovery_type DiscoveryType.logical_dns = "logical_dns"
parse_cluster_discovery_type DiscoveryType.eds = "eds"
parse_cluster_discovery_type DiscoveryType.original_dst = "original_dst"
parse_cluster_discovery_type (DiscoveryType.unknown n) = ""

-- corev3.HealthStatus; `other` is a number with no name.
pub data HealthStatus : Type 0 where
  unknown healthy unhealthy draining timeout degraded : HealthStatus
  other : ℤ → HealthStatus

unfoldable pub parse_lb_endpoint_health_status : HealthStatus → String
parse_lb_endpoint_health_status HealthStatus.unknown = "unknown"
parse_lb_endpoint_health_status HealthStatus.healthy = "healthy"
parse_lb_endpoint_health_status HealthStatus.unhealthy = "unhealthy"
parse_lb_endpoint_health_status HealthStatus.draining = "draining"
parse_lb_endpoint_health_status HealthStatus.timeout = "timeout"
parse_lb_endpoint_health_status HealthStatus.degraded = "degraded"
parse_lb_endpoint_health_status (HealthStatus.other n) = ""

-- PolicyStrategy of types/types.go is a text with two named values.
abbrev pub no_policy_strategy : String
no_policy_strategy = "none"

abbrev pub local_first_policy_strategy : String
local_first_policy_strategy = "local-first"

unfoldable pub parse_priority_strategy : String → String
parse_priority_strategy strategy =
    if strategy == no_policy_strategy
    then no_policy_strategy
    else if strategy == local_first_policy_strategy
    then local_first_policy_strategy
    else no_policy_strategy

unfoldable pub prioritize_local : String → Bool
prioritize_local strategy = strategy == local_first_policy_strategy
