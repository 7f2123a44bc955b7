-- ===== src/Metrics/Parts.antt =====
-- What the loops over one kind of resource send: one metric for each thing in the snapshot.
use mathlib.Core.List.{flat_map, append_assoc, append-nil}
use semaphore_xds.Prelude.{
  ap, String, ◌≡◌, ◌∙◌, refl, sym, none, some, List, [], ◌∷◌, ◌++◌, map, inl, inr, Option-cases,
  string_eq,
}
use semaphore_xds.Prelude.GoMap.{GoMap}
use semaphore_xds.Resource.{
  Resource, RouteConfiguration, VirtualHost, Route, ClusterLoadAssignment, LocalityLbEndpoints,
  LbEndpoint,
}
use semaphore_xds.Metrics.{SnapMetricsCollector, Metric}
use semaphore_xds.Metrics.Unmarshal.{
  Protobuf, unmarshal_resource_to_listener, unmarshal_resource_to_route_configuration,
  unmarshal_resource_to_cluster, unmarshal_resource_to_endpoint, extract_manager_from_listener,
}
use semaphore_xds.Metrics.Collect.{
  listener_metric, route_metric, cluster_metric, endpoint_metric, listeners_loop, vhost_routes_loop,
  vhosts_loop, routes_loop, clusters_loop, lb_endpoints_loop, localities_loop,
  endpoints_metrics_loop,
}

-- A step of a loop that sends `out`, and then the rest of the loop.
pub sent-append :
    (ch out rest : List Metric) {step done : List Metric}
    → step ≡ ch ++ out
    → done ≡ step ++ rest
    → done ≡ ch ++ (out ++ rest)
sent-append ch out rest h k = k ∙ ap (λ x. x ++ rest) h ∙ append_assoc ch out rest

-- A last loop after a step that sends three parts.
pub sent-append_last :
    (ch x y z rest : List Metric) {step done : List Metric}
    → step ≡ ch ++ (x ++ (y ++ z))
    → done ≡ step ++ rest
    → done ≡ ch ++ (x ++ (y ++ (z ++ rest)))
sent-append_last ch x y z rest h k = k ∙ ap (λ m. m ++ rest) h ∙ simp append_assoc

module _ (c : SnapMetricsCollector) (pb : Protobuf) (node_id : String) where
  -- one for each listener that can be read with its manager
  abbrev pub listener_metrics : String × Resource → List Metric
  listener_metrics (name, l) = elim (unmarshal_resource_to_listener pb l) [
    | none ↦ []
    | some listener ↦ elim (extract_manager_from_listener pb listener) [
      | none ↦ []
      | some manager ↦ listener_metric c pb node_id listener manager ∷ []
    ]
  ]

  -- one for each route of each virtual host
  abbrev pub route_metrics : String × Resource → List Metric
  route_metrics (name, r) = elim (unmarshal_resource_to_route_configuration pb r) [
    | none ↦ []
    | some route_config ↦
        flat_map (λ vhost. map (route_metric c pb node_id route_config vhost) vhost.routes)
          route_config.virtual_hosts
  ]

  abbrev pub cluster_metrics : String × Resource → List Metric
  cluster_metrics (name, cl) = elim (unmarshal_resource_to_cluster pb cl) [
    | none ↦ []
    | some cluster ↦ cluster_metric c pb node_id cluster ∷ []
  ]

  -- one for each endpoint of each locality
  abbrev pub endpoint_metrics : String × Resource → List Metric
  endpoint_metrics (name, e) = elim (unmarshal_resource_to_endpoint pb e) [
    | none ↦ []
    | some endpoint ↦
        flat_map (λ l. map (endpoint_metric c pb node_id endpoint l) l.lb_endpoints)
          endpoint.endpoints
  ]

  pub listeners_loop-all :
      (listeners : GoMap String Resource) (ch : List Metric)
      → listeners_loop c pb node_id listeners ch ≡ ch ++ flat_map listener_metrics listeners
  unfolding listeners_loop flat_map
  listeners_loop-all [] ch = sym (append-nil ch)
  listeners_loop-all ((name, l) ∷ listeners) ch =
      sent-append ch (listener_metrics (name, l)) (flat_map listener_metrics listeners)
        (elim (Option-cases (unmarshal_resource_to_listener pb l)) [
          | inl e ↦ rw (e, listener_metrics) (sym (append-nil ch))
          | inr (listener, e) ↦ elim (Option-cases (extract_manager_from_listener pb listener)) [
            | inl none_there ↦ rw (e, none_there, listener_metrics) (sym (append-nil ch))
            | inr (manager, there) ↦ rw (e, there, listener_metrics) refl
          ]
        ])
        (listeners_loop-all listeners _)

  vhost_routes_loop-all :
      (rc : RouteConfiguration) (vhost : VirtualHost) (routes : List Route) (ch : List Metric)
      → vhost_routes_loop c pb node_id rc vhost routes ch
        ≡ ch ++ map (route_metric c pb node_id rc vhost) routes
  unfolding vhost_routes_loop
  vhost_routes_loop-all rc vhost [] ch = sym (append-nil ch)
  vhost_routes_loop-all rc vhost (route ∷ routes) ch =
      sent-append ch (route_metric c pb node_id rc vhost route ∷ []) _ refl
        (vhost_routes_loop-all rc vhost routes _)

  vhosts_loop-all :
      (rc : RouteConfiguration) (vhosts : List VirtualHost) (ch : List Metric)
      → vhosts_loop c pb node_id rc vhosts ch
        ≡ ch ++ flat_map (λ vhost. map (route_metric c pb node_id rc vhost) vhost.routes) vhosts
  unfolding vhosts_loop flat_map
  vhosts_loop-all rc [] ch = sym (append-nil ch)
  vhosts_loop-all rc (vhost ∷ vhosts) ch =
      sent-append ch _ _ (vhost_routes_loop-all rc vhost vhost.routes ch)
        (vhosts_loop-all rc vhosts _)

  pub routes_loop-all :
      (routes : GoMap String Resource) (ch : List Metric)
      → routes_loop c pb node_id routes ch ≡ ch ++ flat_map route_metrics routes
  unfolding routes_loop flat_map
  routes_loop-all [] ch = sym (append-nil ch)
  routes_loop-all ((name, r) ∷ routes) ch =
      sent-append ch (route_metrics (name, r)) (flat_map route_metrics routes)
        (elim (Option-cases (unmarshal_resource_to_route_configuration pb r)) [
          | inl e ↦ rw (e, route_metrics) (sym (append-nil ch))
          | inr (rc, e) ↦ rw (e, route_metrics) (vhosts_loop-all rc rc.virtual_hosts ch)
        ])
        (routes_loop-all routes _)

  pub clusters_loop-all :
      (clusters : GoMap String Resource) (ch : List Metric)
      → clusters_loop c pb node_id clusters ch ≡ ch ++ flat_map cluster_metrics clusters
  unfolding clusters_loop flat_map
  clusters_loop-all [] ch = sym (append-nil ch)
  clusters_loop-all ((name, cl) ∷ clusters) ch =
      sent-append ch (cluster_metrics (name, cl)) (flat_map cluster_metrics clusters)
        (elim (Option-cases (unmarshal_resource_to_cluster pb cl)) [
          | inl e ↦ rw (e, cluster_metrics) (sym (append-nil ch))
          | inr (cluster, e) ↦ rw (e, cluster_metrics) refl
        ])
        (clusters_loop-all clusters _)

  lb_endpoints_loop-all :
      (endpoint : ClusterLoadAssignment) (l : LocalityLbEndpoints) (es : List LbEndpoint)
      (ch : List Metric)
      → lb_endpoints_loop c pb node_id endpoint l es ch
        ≡ ch ++ map (endpoint_metric c pb node_id endpoint l) es
  unfolding lb_endpoints_loop
  lb_endpoints_loop-all endpoint l [] ch = sym (append-nil ch)
  lb_endpoints_loop-all endpoint l (e ∷ es) ch =
      sent-append ch (endpoint_metric c pb node_id endpoint l e ∷ []) _ refl
        (lb_endpoints_loop-all endpoint l es _)

  localities_loop-all :
      (endpoint : ClusterLoadAssignment) (ls : List LocalityLbEndpoints) (ch : List Metric)
      → localities_loop c pb node_id endpoint ls ch
        ≡ ch ++ flat_map (λ l. map (endpoint_metric c pb node_id endpoint l) l.lb_endpoints) ls
  unfolding localities_loop flat_map
  localities_loop-all endpoint [] ch = sym (append-nil ch)
  localities_loop-all endpoint (l ∷ ls) ch =
      sent-append ch _ _ (lb_endpoints_loop-all endpoint l l.lb_endpoints ch)
        (localities_loop-all endpoint ls _)

  pub endpoints_metrics_loop-all :
      (endpoints : GoMap String Resource) (ch : List Metric)
      → endpoints_metrics_loop c pb node_id endpoints ch ≡ ch ++ flat_map endpoint_metrics endpoints
  unfolding endpoints_metrics_loop flat_map
  endpoints_metrics_loop-all [] ch = sym (append-nil ch)
  endpoints_metrics_loop-all ((name, e) ∷ endpoints) ch =
      sent-append ch (endpoint_metrics (name, e)) (flat_map endpoint_metrics endpoints)
        (elim (Option-cases (unmarshal_resource_to_endpoint pb e)) [
          | inl q ↦ rw (q, endpoint_metrics) (sym (append-nil ch))
          | inr (endpoint, q) ↦
              rw (q, endpoint_metrics) (localities_loop-all endpoint endpoint.endpoints ch)
        ])
        (endpoints_metrics_loop-all endpoints _)
