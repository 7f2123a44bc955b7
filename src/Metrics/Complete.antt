-- ===== src/Metrics/Complete.antt =====
-- Collect sends what its loops are for: one metric for each thing in the snapshots.
use mathlib.Core.List.{flat_map, append_assoc, append-nil}
use semaphore_xds.Prelude.{
  ap, String, ◌≡◌, ◌∙◌, refl, sym, none, some, List, [], ◌∷◌, ◌++◌, map, All, inl, inr,
  Option-cases, string_eq, beq_of_ne,
}
use semaphore_xds.Prelude.GoMap.{GoMap}
use semaphore_xds.Resource.{listener_type, route_type, cluster_type, endpoint_type}
use semaphore_xds.Metrics.{SnapMetricsCollector, Metric}
use semaphore_xds.Metrics.Unmarshal.{Protobuf}
use semaphore_xds.Metrics.Collect.{
  visited_loop, collect_node_snapshots, collect_nodes_loop, node_metric, collect_node_metrics,
  collect_metrics, collect_listener_metrics, collect_route_metrics, collect_cluster_metrics,
  collect_endpoints_metrics,
}
use semaphore_xds.Snapshotter.Library.{Library}
use semaphore_xds.Snapshotter.State.{Snapshotter, Node, empty_node_id}
use semaphore_xds.Snapshotter.Handlers.{nodes_map}
use semaphore_xds.Snapshotter.Invariant.{IsWellFormed, IsNode}
use semaphore_xds.Metrics.Parts.{
  sent-append, sent-append_last, listener_metrics, route_metrics, cluster_metrics, endpoint_metrics,
  listeners_loop-all, routes_loop-all, clusters_loop-all, endpoints_metrics_loop-all,
}

-- The nodes other than the empty one are visited in order.
visited_loop_lem :
    (nodes : GoMap String Node) (visited : List String)
    → All IsNode nodes
    → visited_loop (map (λ (x : String × Node). (x.0, (x.1).address)) nodes) visited
      ≡ visited ++ map (λ (x : String × Node). x.0) nodes
unfolding visited_loop
visited_loop_lem [] visited h = sym (append-nil visited)
visited_loop_lem ((n, node) ∷ nodes) visited h =
    rw (beq_of_ne n empty_node_id (h.0).0, visited_loop)
      (visited_loop_lem nodes (visited ++ n ∷ []) h.1
        ∙ append_assoc visited (n ∷ []) (map (λ (x : String × Node). x.0) nodes))

module _ {lib : Library} (c : SnapMetricsCollector) (pb : Protobuf) (s : Snapshotter lib) where
  -- Nothing for a node without a snapshot of services; without one of endpoints, the others.
  abbrev pub snapshot_metrics : String → List Metric
  snapshot_metrics n = elim (lib.get_snapshot s.services_cache n) [
    | none ↦ []
    | some services_snap ↦
        flat_map (listener_metrics c pb n) (lib.get_resources services_snap listener_type)
        ++ (flat_map (route_metrics c pb n) (lib.get_resources services_snap route_type)
            ++ (flat_map (cluster_metrics c pb n) (lib.get_resources services_snap cluster_type)
                ++ elim (lib.get_snapshot s.endpoints_cache n) [
                  | none ↦ []
                  | some endpoints_snap ↦
                      flat_map (endpoint_metrics c pb n)
                        (lib.get_resources endpoints_snap endpoint_type)
                ]))
  ]

  services_sent :
      (n : String) (snap : lib.Snapshot) (ch : List Metric)
      → collect_cluster_metrics c pb s snap n
          (collect_route_metrics c pb s snap n (collect_listener_metrics c pb s snap n ch))
        ≡ ch
          ++ (flat_map (listener_metrics c pb n) (lib.get_resources snap listener_type)
              ++ (flat_map (route_metrics c pb n) (lib.get_resources snap route_type)
                  ++ flat_map (cluster_metrics c pb n) (lib.get_resources snap cluster_type)))
  unfolding collect_cluster_metrics collect_route_metrics collect_listener_metrics
  services_sent n snap ch =
      sent-append ch _ _ (listeners_loop-all c pb n (lib.get_resources snap listener_type) ch) (
        sent-append _ _ _ (routes_loop-all c pb n (lib.get_resources snap route_type) _)
          (clusters_loop-all c pb n (lib.get_resources snap cluster_type) _))

  collect_node_snapshots-all :
      (n : String) (ch : List Metric)
      → collect_node_snapshots c pb s n ch ≡ ch ++ snapshot_metrics n
  unfolding collect_node_snapshots collect_endpoints_metrics
  collect_node_snapshots-all n ch = elim (Option-cases (lib.get_snapshot s.services_cache n)) [
    | inl e ↦ rw (e, collect_node_snapshots, snapshot_metrics) (sym (append-nil ch))
    | inr (services_snap, e) ↦ elim (Option-cases (lib.get_snapshot s.endpoints_cache n)) [
      | inl q ↦
          rw (e, q, collect_node_snapshots, snapshot_metrics)
            (services_sent n services_snap ch ∙ simp append-nil)
      | inr (endpoints_snap, q) ↦
          rw (e, q, collect_node_snapshots, snapshot_metrics)
            (sent-append_last ch
              (flat_map (listener_metrics c pb n) (lib.get_resources services_snap listener_type))
              (flat_map (route_metrics c pb n) (lib.get_resources services_snap route_type))
              (flat_map (cluster_metrics c pb n) (lib.get_resources services_snap cluster_type)) _
              (services_sent n services_snap ch)
              (endpoints_metrics_loop-all c pb n (lib.get_resources endpoints_snap endpoint_type)
                _))
    ]
  ]

  collect_nodes_loop-all :
      (nodes : List String) (ch : List Metric)
      → collect_nodes_loop c pb s nodes ch ≡ ch ++ flat_map snapshot_metrics nodes
  unfolding collect_nodes_loop flat_map
  collect_nodes_loop-all [] ch = sym (append-nil ch)
  collect_nodes_loop-all (n ∷ nodes) ch =
      sent-append ch _ _ (collect_node_snapshots-all n ch) (collect_nodes_loop-all nodes _)

  collect_node_metrics-all :
      (nmap : GoMap String String) (ch : List Metric)
      → collect_node_metrics c pb s nmap ch ≡ ch ++ map (node_metric c pb s) nmap
  unfolding collect_node_metrics
  collect_node_metrics-all [] ch = sym (append-nil ch)
  collect_node_metrics-all (entry ∷ nmap) ch =
      sent-append ch (node_metric c pb s entry ∷ []) _ refl (collect_node_metrics-all nmap _)

  -- For a well-formed nodes map, Collect sends in this order: for the empty node and then for each
  -- node of the map, where its snapshot of services is found, one metric for each listener that can
  -- be read with its connection manager, one for each route of each virtual host of each route
  -- configuration that can be read and one for each cluster that can be read, and, where its
  -- snapshot of endpoints is found too, one for each endpoint of each locality of each load assignment
  -- that can be read; then for each node of the map one with its address.
  pub collect_metrics-all :
      IsWellFormed s.nodes
      → collect_metrics c pb s
        ≡ flat_map snapshot_metrics (empty_node_id ∷ map (λ (x : String × Node). x.0) s.nodes)
          ++ map (node_metric c pb s) (nodes_map s)
  unfolding collect_metrics nodes_map
  collect_metrics-all w =
      collect_node_metrics-all (nodes_map s) _
      ∙ ap (λ x. x ++ map (node_metric c pb s) (nodes_map s))
          (ap (λ nodes. collect_nodes_loop c pb s nodes [])
              (visited_loop_lem s.nodes (empty_node_id ∷ []) w.1)
            ∙ collect_nodes_loop-all (empty_node_id ∷ map (λ (x : String × Node). x.0) s.nodes) [])
