-- ===== src/Metrics/Labels.antt =====
-- MustNewConstMetric panics where the label values are not as many as the description's labels.
use semaphore_xds.Prelude.{
  map-All, flat_map-All, String, ◌≡◌, refl, All, All-append, inl, inr, Option-cases, length,
}
use semaphore_xds.Resource.{Resource}
use semaphore_xds.Metrics.{SnapMetricsCollector, Metric, new_snap_metrics_collector}
use semaphore_xds.Metrics.Unmarshal.{
  Protobuf, unmarshal_resource_to_listener, unmarshal_resource_to_route_configuration,
  unmarshal_resource_to_cluster, unmarshal_resource_to_endpoint, extract_manager_from_listener,
}
use semaphore_xds.Metrics.Collect.{
  listener_metric, route_metric, cluster_metric, endpoint_metric, node_metric, collect_metrics,
}
use semaphore_xds.Metrics.Parts.{listener_metrics, route_metrics, cluster_metrics, endpoint_metrics}
use semaphore_xds.Metrics.Complete.{collect_metrics-all, snapshot_metrics}
use semaphore_xds.Snapshotter.Library.{Library}
use semaphore_xds.Snapshotter.State.{Snapshotter}
use semaphore_xds.Snapshotter.Handlers.{nodes_map}
use semaphore_xds.Snapshotter.Invariant.{IsWellFormed}

-- As many label values as the description has labels.
abbrev pub IsConsistent : Metric → Type 0
IsConsistent m = length m.label_values ≡ length m.desc.variable_labels

module _ (pb : Protobuf) (n : String) where
  abbrev c : SnapMetricsCollector
  c = new_snap_metrics_collector

  listener_metrics-IsConsistent :
      (x : String × Resource) → All IsConsistent (listener_metrics c pb n x)
  unfolding new_snap_metrics_collector listener_metric
  listener_metrics-IsConsistent (name, l) =
      elim (Option-cases (unmarshal_resource_to_listener pb l)) [
        | inl e ↦ rw (e, listener_metrics) tt
        | inr (listener, e) ↦ elim (Option-cases (extract_manager_from_listener pb listener)) [
          | inl q ↦ rw (e, q, listener_metrics) tt
          | inr (manager, q) ↦ rw (e, q, listener_metrics) (refl, tt)
        ]
      ]

  route_metrics-IsConsistent : (x : String × Resource) → All IsConsistent (route_metrics c pb n x)
  unfolding new_snap_metrics_collector route_metric
  route_metrics-IsConsistent (name, r) =
      elim (Option-cases (unmarshal_resource_to_route_configuration pb r)) [
        | inl e ↦ rw (e, route_metrics) tt
        | inr (rc, e) ↦
            rw (e, route_metrics)
              (flat_map-All IsConsistent _ rc.virtual_hosts
                λ vhost. map-All IsConsistent _ vhost.routes λ route. refl)
      ]

  cluster_metrics-IsConsistent :
      (x : String × Resource) → All IsConsistent (cluster_metrics c pb n x)
  unfolding new_snap_metrics_collector cluster_metric
  cluster_metrics-IsConsistent (name, cl) =
      elim (Option-cases (unmarshal_resource_to_cluster pb cl)) [
        | inl e ↦ rw (e, cluster_metrics) tt
        | inr (cluster, e) ↦ rw (e, cluster_metrics) (refl, tt)
      ]

  endpoint_metrics-IsConsistent :
      (x : String × Resource) → All IsConsistent (endpoint_metrics c pb n x)
  unfolding new_snap_metrics_collector endpoint_metric
  endpoint_metrics-IsConsistent (name, e) =
      elim (Option-cases (unmarshal_resource_to_endpoint pb e)) [
        | inl q ↦ rw (q, endpoint_metrics) tt
        | inr (endpoint, q) ↦
            rw (q, endpoint_metrics)
              (flat_map-All IsConsistent _ endpoint.endpoints
                λ l. map-All IsConsistent _ l.lb_endpoints λ lb. refl)
      ]

module _ {lib : Library} (pb : Protobuf) (s : Snapshotter lib) where
  snapshot_metrics-IsConsistent :
      (n : String) → All IsConsistent (snapshot_metrics new_snap_metrics_collector pb s n)
  snapshot_metrics-IsConsistent n = elim (Option-cases (lib.get_snapshot s.services_cache n)) [
    | inl e ↦ rw (e, snapshot_metrics) tt
    | inr (services_snap, e) ↦
        rw (e, snapshot_metrics)
          (All-append IsConsistent _ _
            (flat_map-All IsConsistent _ _ (listener_metrics-IsConsistent pb n))
            (All-append IsConsistent _ _
              (flat_map-All IsConsistent _ _ (route_metrics-IsConsistent pb n))
              (All-append IsConsistent _ _
                (flat_map-All IsConsistent _ _ (cluster_metrics-IsConsistent pb n))
                (elim (Option-cases (lib.get_snapshot s.endpoints_cache n)) [
                  | inl q ↦ rw q tt
                  | inr (endpoints_snap, q) ↦
                      rw q (flat_map-All IsConsistent _ _ (endpoint_metrics-IsConsistent pb n))
                ]))))
  ]

  -- For a well-formed nodes map, every metric that Collect sends with the collector's own
  -- descriptions has exactly as many label values as its description has labels, so that no call of
  -- MustNewConstMetric panics for their number.
  pub collect_metrics-IsConsistent :
      IsWellFormed s.nodes → All IsConsistent (collect_metrics new_snap_metrics_collector pb s)
  unfolding new_snap_metrics_collector node_metric
  collect_metrics-IsConsistent w = rw (collect_metrics-all new_snap_metrics_collector pb s w) (
      All-append IsConsistent _ _ (flat_map-All IsConsistent _ _ snapshot_metrics-IsConsistent)
        (map-All IsConsistent _ (nodes_map s) λ entry. refl))
