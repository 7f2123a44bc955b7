-- ===== src/Metrics/Collect.antt =====
-- Collect of xds/snapshotter_metrics.go, with its loops. `ch` is what has been sent to the channel.
use Prim.Native.String.{◌++◌ as concat}
use semaphore_xds.Prelude.{String, none, some, List, [], ◌∷◌, ◌++◌, if◌then◌else◌, ◌==◌, string_eq}
use semaphore_xds.Prelude.Decimal.{format}
use semaphore_xds.Prelude.GoMap.{GoMap}
use semaphore_xds.Prelude.Text.{join}
use semaphore_xds.Resource.{
  Resource, listener_type, route_type, cluster_type, endpoint_type, Listener, HttpConnectionManager,
  RouteConfiguration, VirtualHost, Route, Cluster, ClusterLoadAssignment, LocalityLbEndpoints,
  LbEndpoint,
}
use semaphore_xds.Policy.{
  parse_cluster_lb_policy, parse_cluster_discovery_type, parse_lb_endpoint_health_status,
}
use semaphore_xds.Metrics.{SnapMetricsCollector, Metric}
use semaphore_xds.Metrics.Unmarshal.{
  Protobuf, unmarshal_resource_to_listener, unmarshal_resource_to_route_configuration,
  unmarshal_resource_to_cluster, unmarshal_resource_to_endpoint, extract_manager_from_listener,
}
use semaphore_xds.Snapshotter.Library.{Library}
use semaphore_xds.Snapshotter.State.{Snapshotter, empty_node_id}
use semaphore_xds.Snapshotter.Handlers.{nodes_map, services_snapshot, endpoints_snapshot}

module _ (c : SnapMetricsCollector) (pb : Protobuf) (node_id : String) where
  unfoldable pub listener_metric : Listener → HttpConnectionManager → Metric
  listener_metric listener manager = record {
    desc = c.listener_info;
    label_values = node_id ∷ listener_type ∷ listener.name ∷ manager.route_config.name ∷ [];
  }

  unfoldable pub listeners_loop : GoMap String Resource → List Metric → List Metric
  unfolding listener_metric unmarshal_resource_to_listener extract_manager_from_listener
  listeners_loop [] ch = ch
  listeners_loop ((name, l) ∷ listeners) ch =
      listeners_loop listeners (elim (unmarshal_resource_to_listener pb l) [
        | none ↦ ch
        | some listener ↦ elim (extract_manager_from_listener pb listener) [
          | none ↦ ch
          | some manager ↦ ch ++ listener_metric listener manager ∷ []
        ]
      ])

  unfoldable pub route_metric : RouteConfiguration → VirtualHost → Route → Metric
  route_metric route_config vhost route = record {
    desc = c.route_info;
    label_values =
        node_id
        ∷ route_type
        ∷ route_config.name
        ∷ pb.get_path route
        ∷ join vhost.domains ","
        ∷ vhost.name
        ∷ route.cluster
        ∷ [];
  }

  unfoldable pub vhost_routes_loop :
      RouteConfiguration → VirtualHost → List Route → List Metric → List Metric
  unfolding route_metric
  vhost_routes_loop route_config vhost [] ch = ch
  vhost_routes_loop route_config vhost (route ∷ routes) ch =
      vhost_routes_loop route_config vhost routes (ch ++ route_metric route_config vhost route ∷ [])

  unfoldable pub vhosts_loop : RouteConfiguration → List VirtualHost → List Metric → List Metric
  unfolding vhost_routes_loop
  vhosts_loop route_config [] ch = ch
  vhosts_loop route_config (vhost ∷ vhosts) ch =
      vhosts_loop route_config vhosts (vhost_routes_loop route_config vhost vhost.routes ch)

  unfoldable pub routes_loop : GoMap String Resource → List Metric → List Metric
  unfolding vhosts_loop unmarshal_resource_to_route_configuration
  routes_loop [] ch = ch
  routes_loop ((name, r) ∷ routes) ch =
      routes_loop routes (elim (unmarshal_resource_to_route_configuration pb r) [
        | none ↦ ch
        | some route_config ↦ vhosts_loop route_config route_config.virtual_hosts ch
      ])

  unfoldable pub cluster_metric : Cluster → Metric
  cluster_metric cluster = record {
    desc = c.cluster_info;
    label_values =
        node_id
        ∷ cluster_type
        ∷ cluster.name
        ∷ parse_cluster_lb_policy cluster.lb_policy
        ∷ parse_cluster_discovery_type cluster.cluster_discovery_type
        ∷ [];
  }

  unfoldable pub clusters_loop : GoMap String Resource → List Metric → List Metric
  unfolding cluster_metric unmarshal_resource_to_cluster
  clusters_loop [] ch = ch
  clusters_loop ((name, cl) ∷ clusters) ch =
      clusters_loop clusters (elim (unmarshal_resource_to_cluster pb cl) [
        | none ↦ ch
        | some cluster ↦ ch ++ cluster_metric cluster ∷ []
      ])

  unfoldable pub endpoint_metric : ClusterLoadAssignment → LocalityLbEndpoints → LbEndpoint → Metric
  endpoint_metric endpoint lb_endpoints lb_endpoint = record {
    desc = c.endpoint_info;
    label_values =
        node_id
        ∷ endpoint_type
        ∷ endpoint.cluster_name
        ∷ lb_endpoints.locality.zone
        ∷ lb_endpoints.locality.sub_zone
        ∷ concat lb_endpoint.address.address (concat ":" (format lb_endpoint.address.port_value))
        ∷ parse_lb_endpoint_health_status lb_endpoint.health_status
        ∷ format lb_endpoints.priority
        ∷ [];
  }

  unfoldable pub lb_endpoints_loop :
      ClusterLoadAssignment → LocalityLbEndpoints → List LbEndpoint → List Metric → List Metric
  unfolding endpoint_metric
  lb_endpoints_loop endpoint lb_endpoints [] ch = ch
  lb_endpoints_loop endpoint lb_endpoints (lb_endpoint ∷ rest) ch =
      lb_endpoints_loop endpoint lb_endpoints rest
        (ch ++ endpoint_metric endpoint lb_endpoints lb_endpoint ∷ [])

  unfoldable pub localities_loop :
      ClusterLoadAssignment → List LocalityLbEndpoints → List Metric → List Metric
  unfolding lb_endpoints_loop
  localities_loop endpoint [] ch = ch
  localities_loop endpoint (lb_endpoints ∷ rest) ch =
      localities_loop endpoint rest
        (lb_endpoints_loop endpoint lb_endpoints lb_endpoints.lb_endpoints ch)

  unfoldable pub endpoints_metrics_loop : GoMap String Resource → List Metric → List Metric
  unfolding localities_loop unmarshal_resource_to_endpoint
  endpoints_metrics_loop [] ch = ch
  endpoints_metrics_loop ((name, e) ∷ endpoints) ch =
      endpoints_metrics_loop endpoints (elim (unmarshal_resource_to_endpoint pb e) [
        | none ↦ ch
        | some endpoint ↦ localities_loop endpoint endpoint.endpoints ch
      ])

-- The nodes that are visited after the empty node.
unfoldable pub visited_loop : GoMap String String → List String → List String
visited_loop [] nodes = nodes
visited_loop ((n, address) ∷ nmap) nodes =
    visited_loop nmap (if n == empty_node_id then nodes else nodes ++ n ∷ [])

module _ {lib : Library} (c : SnapMetricsCollector) (pb : Protobuf) (s : Snapshotter lib) where
  unfoldable pub collect_listener_metrics : lib.Snapshot → String → List Metric → List Metric
  unfolding listeners_loop
  collect_listener_metrics snapshot node_id ch =
      listeners_loop c pb node_id (lib.get_resources snapshot listener_type) ch

  unfoldable pub collect_route_metrics : lib.Snapshot → String → List Metric → List Metric
  unfolding routes_loop
  collect_route_metrics snapshot node_id ch =
      routes_loop c pb node_id (lib.get_resources snapshot route_type) ch

  unfoldable pub collect_cluster_metrics : lib.Snapshot → String → List Metric → List Metric
  unfolding clusters_loop
  collect_cluster_metrics snapshot node_id ch =
      clusters_loop c pb node_id (lib.get_resources snapshot cluster_type) ch

  unfoldable pub collect_endpoints_metrics : lib.Snapshot → String → List Metric → List Metric
  unfolding endpoints_metrics_loop
  collect_endpoints_metrics snapshot node_id ch =
      endpoints_metrics_loop c pb node_id (lib.get_resources snapshot endpoint_type) ch

  -- the body of Collect's loop, where an error goes on to the next node
  unfoldable pub collect_node_snapshots : String → List Metric → List Metric
  unfolding collect_listener_metrics collect_route_metrics collect_cluster_metrics
      collect_endpoints_metrics services_snapshot endpoints_snapshot
  collect_node_snapshots node ch = elim (services_snapshot s node) [
    | none ↦ ch
    | some services_snap ↦
        let sent : List Metric = collect_cluster_metrics services_snap node (
          collect_route_metrics services_snap node
            (collect_listener_metrics services_snap node ch)) in
        elim (endpoints_snapshot s node) [
          | none ↦ sent
          | some endpoints_snap ↦ collect_endpoints_metrics endpoints_snap node sent
        ]
  ]

  unfoldable pub collect_nodes_loop : List String → List Metric → List Metric
  unfolding collect_node_snapshots
  collect_nodes_loop [] ch = ch
  collect_nodes_loop (node ∷ nodes) ch = collect_nodes_loop nodes (collect_node_snapshots node ch)

  unfoldable pub node_metric : String × String → Metric
  node_metric (node_id, address) = record {
    desc = c.node_info;
    label_values = node_id ∷ address ∷ [];
  }

  unfoldable pub collect_node_metrics : GoMap String String → List Metric → List Metric
  unfolding node_metric
  collect_node_metrics [] ch = ch
  collect_node_metrics (entry ∷ nmap) ch = collect_node_metrics nmap (ch ++ node_metric entry ∷ [])

  -- what Collect sends
  unfoldable pub collect_metrics : List Metric
  unfolding collect_nodes_loop collect_node_metrics visited_loop nodes_map
  collect_metrics =
      collect_node_metrics (nodes_map s)
        (collect_nodes_loop (visited_loop (nodes_map s) (empty_node_id ∷ [])) [])
