-- ===== src/Metrics.antt =====
-- The collector of xds/snapshotter_metrics.go, which reports the snapshots as gauges of value 1. The
-- counters of stream callbacks in that file are left out: nothing reads them.
pub mod Unmarshal
pub mod Collect
pub mod Parts
pub mod Complete
pub mod Labels
use semaphore_xds.Prelude.{String, List, [], ◌∷◌}

-- prometheus.Desc, with its variable labels
pub record Desc : Type 0 where
  pub fq_name : String
  pub variable_labels : List String

-- The arguments of prometheus.MustNewConstMetric, beside the kind and the value.
pub record Metric : Type 0 where
  pub desc : Desc
  pub label_values : List String

-- snapMetricsCollector; the snapshotter that it points to is passed beside it.
pub record SnapMetricsCollector : Type 0 where
  pub cluster_info : Desc
  pub endpoint_info : Desc
  pub listener_info : Desc
  pub route_info : Desc
  pub node_info : Desc

unfoldable pub new_snap_metrics_collector : SnapMetricsCollector
new_snap_metrics_collector = record {
  cluster_info = record {
    fq_name = "semaphore_xds_snapshot_cluster";
    variable_labels = "node_id" ∷ "type" ∷ "name" ∷ "lb_policy" ∷ "discovery_type" ∷ [];
  };
  listener_info = record {
    fq_name = "semaphore_xds_snapshot_listener";
    variable_labels = "node_id" ∷ "type" ∷ "name" ∷ "route_config" ∷ [];
  };
  endpoint_info = record {
    fq_name = "semaphore_xds_snapshot_endpoint";
    variable_labels =
        "node_id" ∷ "type" ∷ "cluster_name" ∷ "locality_zone" ∷ "locality_subzone" ∷ "lb_address"
        ∷ "health_status" ∷ "priority" ∷ [];
  };
  route_info = record {
    fq_name = "semaphore_xds_snapshot_route";
    variable_labels =
        "node_id" ∷ "type" ∷ "name" ∷ "path_prefix" ∷ "domains" ∷ "virtual_host" ∷ "cluster_name"
        ∷ [];
  };
  node_info = record {
    fq_name = "semaphore_xds_node_info";
    variable_labels = "node_id" ∷ "address" ∷ [];
  };
}

-- what Describe sends
unfoldable pub describe : SnapMetricsCollector → List Desc
describe c = c.cluster_info ∷ c.endpoint_info ∷ c.listener_info ∷ c.route_info ∷ c.node_info ∷ []
