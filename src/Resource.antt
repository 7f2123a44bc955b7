-- ===== src/Resource.antt =====
-- The xDS messages that the program builds, with the fields that it sets. They are Go structs of
-- go-control-plane; a field that the program leaves at Go's zero value is left out.
use semaphore_xds.Prelude.{ℕ, String, Option, List}
use semaphore_xds.Prelude.GoMap.{GoMap}
use semaphore_xds.Policy.{LbPolicy, DiscoveryType, HealthStatus}
use semaphore_xds.Retry.{RetryPolicy}

-- anypb.Any: a packed message
pub record Any : Type 0 where
  pub type_url : String
  pub value : String

-- corev3.SocketAddress, over TCP
pub record Address : Type 0 where
  pub address : String
  pub port_value : ℕ

pub record LbEndpoint : Type 0 where
  pub address : Address
  pub health_status : HealthStatus

pub record Locality : Type 0 where
  pub zone : String
  pub sub_zone : String

pub record LocalityLbEndpoints : Type 0 where
  pub locality : Locality
  pub priority : ℕ
  pub load_balancing_weight : ℕ
  pub lb_endpoints : List LbEndpoint

pub record ClusterLoadAssignment : Type 0 where
  pub cluster_name : String
  pub endpoints : List LocalityLbEndpoints

-- corev3.ApiVersion
pub data ApiVersion : Type 0 where
  auto v3 : ApiVersion

-- corev3.ApiConfigSource with ApiType DELTA_GRPC; the services are EnvoyGrpc cluster names.
pub record ApiConfigSource : Type 0 where
  pub transport_api_version : ApiVersion
  pub grpc_services : List String

pub data ConfigSourceSpecifier : Type 0 where
  ads : ConfigSourceSpecifier
  api_config_source : ApiConfigSource → ConfigSourceSpecifier

pub record ConfigSource : Type 0 where
  pub resource_api_version : ApiVersion
  pub config_source_specifier : ConfigSourceSpecifier

pub record EdsClusterConfig : Type 0 where
  pub eds_config : ConfigSource
  pub service_name : String

-- clusterv3.Cluster_RingHashLbConfig
pub record RingHashLbConfig : Type 0 where
  pub minimum_ring_size : Option ℕ
  pub maximum_ring_size : Option ℕ

-- The cluster's LbConfig; the pointer in it may be nil.
pub data LbConfig : Type 0 where
  unset : LbConfig
  ring_hash_lb_config : Option RingHashLbConfig → LbConfig

pub record Cluster : Type 0 where
  pub name : String
  pub cluster_discovery_type : DiscoveryType
  pub lb_policy : LbPolicy
  pub eds_cluster_config : EdsClusterConfig
  pub lb_config : LbConfig
  -- Http2ProtocolOptions: the empty message, or nil
  pub http2_protocol_options : Option (Unit {0})

-- routev3.RouteAction_HashPolicy on a request header
pub record HashPolicy : Type 0 where
  pub header_name : String

-- A route that matches a prefix and goes to a cluster.
pub record Route : Type 0 where
  pub match_prefix : String
  pub cluster : String
  pub hash_policy : List HashPolicy
  pub typed_per_filter_config : GoMap String Any

pub record VirtualHost : Type 0 where
  pub name : String
  pub domains : List String
  pub routes : List Route
  pub retry_policy : Option RetryPolicy

pub record RouteConfiguration : Type 0 where
  pub name : String
  pub virtual_hosts : List VirtualHost
  pub vhds : Option ConfigSource

-- managerv3.HttpFilter; its TypedConfig may be nil
pub record HttpFilter : Type 0 where
  pub name : String
  pub typed_config : Option Any

pub record HttpConnectionManager : Type 0 where
  pub http_filters : List HttpFilter
  pub route_config : RouteConfiguration

pub record Listener : Type 0 where
  pub name : String
  pub api_listener : Any

-- The interface types.Resource. A virtual host may be a nil pointer in a non-nil interface.
pub data Resource : Type 0 where
  cluster : Cluster → Resource
  route : RouteConfiguration → Resource
  listener : Listener → Resource
  endpoint : ClusterLoadAssignment → Resource
  virtual_host : Option VirtualHost → Resource

-- The messages that the program packs by anypb.New.
pub data Message : Type 0 where
  router : Message
  http_connection_manager : HttpConnectionManager → Message
  -- on_demandv3.PerRouteConfig, with the source of its OnDemandCds
  per_route_config : ConfigSource → Message

-- The type URLs of go-control-plane's resource package.
abbrev pub listener_type : String
listener_type = "type.googleapis.com/envoy.config.listener.v3.Listener"

abbrev pub route_type : String
route_type = "type.googleapis.com/envoy.config.route.v3.RouteConfiguration"

abbrev pub cluster_type : String
cluster_type = "type.googleapis.com/envoy.config.cluster.v3.Cluster"

abbrev pub endpoint_type : String
endpoint_type = "type.googleapis.com/envoy.config.endpoint.v3.ClusterLoadAssignment"

abbrev pub virtual_host_type : String
virtual_host_type = "type.googleapis.com/envoy.config.route.v3.VirtualHost"
