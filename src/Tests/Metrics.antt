-- ===== src/Tests/Metrics.antt =====
-- The metrics of a server with one node, where a message is packed as its name alone.
use mathlib.Core.List.{flat_map}
use mathlib.Core.Option
use semaphore_xds.Prelude.{String, ◌≡◌, none, some, [], ◌∷◌, ◌++◌, map, All, string_eq, nat_eq}
use semaphore_xds.Policy.{LbPolicy, DiscoveryType}
use semaphore_xds.Resource.{Any, ApiVersion, ConfigSourceSpecifier, LbConfig, Cluster}
use semaphore_xds.Metrics.{new_snap_metrics_collector}
use semaphore_xds.Metrics.Unmarshal.{Protobuf}
use semaphore_xds.Metrics.Collect.{collect_metrics, node_metric}
use semaphore_xds.Metrics.Complete.{collect_metrics-all, snapshot_metrics}
use semaphore_xds.Metrics.Labels.{collect_metrics-IsConsistent, IsConsistent}
use semaphore_xds.Snapshotter.State.{Snapshotter, Node, empty_node_id}
use semaphore_xds.Snapshotter.Handlers.{nodes_map, new_snapshotter}
use semaphore_xds.Tests.Values.{map_library, resource_name}
use semaphore_xds.Tests.Fresh.{full_endpoints}
use semaphore_xds.Tests.Snapshots.{asking, asking-IsWellFormed, full_snapshot}

abbrev named_cluster : String → Cluster
named_cluster name = record {
  name = name;
  cluster_discovery_type = DiscoveryType.eds;
  lb_policy = LbPolicy.round_robin;
  eds_cluster_config = record {
    eds_config = record {
      resource_api_version = ApiVersion.v3;
      config_source_specifier = ConfigSourceSpecifier.ads;
    };
    service_name = "";
  };
  lb_config = LbConfig.unset;
  http2_protocol_options = none;
}

abbrev by_name : Protobuf
by_name = record {
  new_any = λ r. some (record { type_url = ""; value = resource_name r });
  unmarshal_listener = λ a. none;
  unmarshal_route_configuration = λ a. none;
  unmarshal_cluster = λ a. Option.map (λ (x : Any). named_cluster x.value) a;
  unmarshal_cluster_load_assignment = λ a. none;
  unmarshal_http_connection_manager = λ a. none;
  get_path = λ r. "";
}

abbrev pub reporting : Snapshotter map_library
reporting = record asking {
  services_cache = ("", full_snapshot) ∷ [];
  endpoints_cache = ("", full_endpoints) ∷ [];
}

collect_metrics-all_example :
    collect_metrics new_snap_metrics_collector by_name reporting
    ≡ flat_map
        (snapshot_metrics new_snap_metrics_collector by_name reporting)
        (empty_node_id ∷ map (λ (x : String × Node). x.0) reporting.nodes)
      ++ map (node_metric new_snap_metrics_collector by_name reporting) (nodes_map reporting)
unfolding new_snapshotter
collect_metrics-all_example =
    collect_metrics-all new_snap_metrics_collector by_name reporting asking-IsWellFormed

collect_metrics-IsConsistent_example :
    All IsConsistent (collect_metrics new_snap_metrics_collector by_name reporting)
unfolding new_snapshotter
collect_metrics-IsConsistent_example =
    collect_metrics-IsConsistent by_name reporting asking-IsWellFormed
