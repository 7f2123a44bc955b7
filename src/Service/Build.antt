-- ===== src/Service/Build.antt =====
-- The builders of single resources: makeVirtualHost to patchVirtualHostForOnDemandDiscovery.
use semaphore_xds.Prelude.{
  String, Bool, Option, none, some, List, [], ◌∷◌, map, if◌then◌else◌, ◌==◌, string_eq,
}
use semaphore_xds.Prelude.Decimal.{ℤ}
use semaphore_xds.Names.{
  make_cluster_name, make_global_service_domain, make_listener_name, make_route_config_name,
  make_virtual_host_name, make_xdstp_cluster_name, make_xdstp_cluster_load_assignment_name,
  make_xdstp_listener_name, make_xdstp_route_config_name, make_xdstp_virtual_host_name,
}
use semaphore_xds.Policy.{LbPolicy, DiscoveryType}
use semaphore_xds.Retry.{RetryPolicy}
use semaphore_xds.Resource.{
  Any, ApiVersion, ConfigSource, ads, api_config_source, RingHashLbConfig, LbConfig,
  ring_hash_lb_config, Cluster, HashPolicy, Route, VirtualHost, RouteConfiguration, Listener,
  Message, router, http_connection_manager, per_route_config,
}

-- anypb.New
abbrev pub Pack : Type 0
Pack = Message → Option Any

unfoldable pub make_virtual_host :
    String → String → String → ℤ → Option RetryPolicy → List HashPolicy → VirtualHost
make_virtual_host name namespace authority port retry hash_policies =
    let local : Bool = authority == "" in
    let cluster_name : String =
      if local
      then make_cluster_name name namespace port
      else make_xdstp_cluster_name name namespace authority port in
    let virtual_host_name : String =
      if local
      then make_virtual_host_name name namespace port
      else make_xdstp_virtual_host_name name namespace authority port in
    let domains : List String =
      make_global_service_domain name namespace port
      ∷ (if local then [] else virtual_host_name ∷ []) in
    record {
      name = virtual_host_name;
      domains = domains;
      routes =
          record {
            match_prefix = "";
            cluster = cluster_name;
            hash_policy = hash_policies;
            typed_per_filter_config = [];
          }
          ∷ [];
      retry_policy = retry;
    }

unfoldable pub make_route_config :
    String → String → String → ℤ → List VirtualHost → RouteConfiguration
make_route_config name namespace authority port virtual_hosts = record {
  name =
      if authority == ""
      then make_route_config_name name namespace port
      else make_xdstp_route_config_name name namespace authority port;
  virtual_hosts = virtual_hosts;
  vhds = none;
}

-- The config source of delta discovery from the cluster "xds_cluster", with the version that the
-- enclosing source states.
abbrev pub delta_source : ApiVersion → ConfigSource
delta_source version = record {
  resource_api_version = version;
  config_source_specifier =
      api_config_source
        (record { transport_api_version = ApiVersion.v3; grpc_services = "xds_cluster" ∷ [] });
}

unfoldable pub make_kube_dynamic_route_config : RouteConfiguration
make_kube_dynamic_route_config = record {
  name = "kube_dynamic";
  virtual_hosts = [];
  vhds = some (delta_source ApiVersion.v3);
}

-- An error in packing the router is ignored, and leaves its config nil.
unfoldable pub make_manager : Pack → RouteConfiguration → Option Any
make_manager pack route_config = pack (
    http_connection_manager (record {
      http_filters = record { name = "envoy.filters.http.router"; typed_config = pack router } ∷ [];
      route_config = route_config;
    }))

unfoldable pub listener : String → Any → Listener
listener listener_name manager = record { name = listener_name; api_listener = manager }

unfoldable pub make_listener : String → String → String → ℤ → Any → Listener
unfolding listener
make_listener name namespace authority port manager =
    listener
      (if authority == ""
        then make_listener_name name namespace port
        else make_xdstp_listener_name name namespace authority port)
      manager

unfoldable pub cluster : String → LbPolicy → Cluster
cluster cluster_name policy = record {
  name = cluster_name;
  cluster_discovery_type = DiscoveryType.eds;
  lb_policy = policy;
  eds_cluster_config = record {
    eds_config = record { resource_api_version = ApiVersion.auto; config_source_specifier = ads };
    service_name = "";
  };
  lb_config = LbConfig.unset;
  http2_protocol_options = none;
}

-- the switch on the policy
abbrev pub lb_config_for : LbPolicy → Option RingHashLbConfig → LbConfig
lb_config_for LbPolicy.ring_hash ring_hash = ring_hash_lb_config ring_hash
lb_config_for _ ring_hash = LbConfig.unset

unfoldable pub make_cluster :
    String → String → String → ℤ → LbPolicy → Option RingHashLbConfig → Cluster
unfolding cluster
make_cluster name namespace authority port policy ring_hash =
    let local : Bool = authority == "" in
    let c : Cluster =
      cluster
        (if local
          then make_cluster_name name namespace port
          else make_xdstp_cluster_name name namespace authority port)
        policy in
    record c {
      eds_cluster_config = record (c.eds_cluster_config) {
        service_name =
            if local
            then ""
            else make_xdstp_cluster_load_assignment_name name namespace authority port;
      };
      lb_config = lb_config_for policy ring_hash;
    }

unfoldable pub patch_cluster_delta_eds : Cluster → Cluster
patch_cluster_delta_eds cluster = record cluster {
  http2_protocol_options = some tt;
  eds_cluster_config = record { eds_config = delta_source ApiVersion.auto; service_name = "" };
}

-- `none` stands for the nil pointer that comes with an error.
unfoldable pub patch_virtual_host_for_on_demand_discovery : Pack → VirtualHost → Option VirtualHost
patch_virtual_host_for_on_demand_discovery pack vh =
    elim (pack (per_route_config (delta_source ApiVersion.v3))) [
      | none ↦ none
      | some typed_config ↦ some (record vh {
        routes =
            map
              (λ (route : Route). record route {
                typed_per_filter_config = ("envoy.filters.http.on_demand", typed_config) ∷ [];
              })
              vh.routes;
      })
    ]
