-- ===== src/Service/Routed.antt =====
-- The linear caches are complete: a virtual host routes to clusters that are there.
use semaphore_xds.Prelude.{
  inr, inl, Option-cases, Bool-cases, List, All, String, ◌≡◌, refl, true, is_some, none, some, [],
  ◌∷◌, string_eq, ◌==◌,
}
use semaphore_xds.Prelude.GoMap.{
  GoMap, lookup, insert, insert-All, lookup-insert, lookup-insert_self,
}
use semaphore_xds.Prelude.Decimal.{ℤ}
use semaphore_xds.Resource.{ApiVersion, per_route_config, Resource, Route}
use semaphore_xds.Service.{XdsServiceStore, Service}
use semaphore_xds.Service.Build.{
  delta_source, patch_virtual_host_for_on_demand_discovery, patch_cluster_delta_eds, Pack,
  make_virtual_host, make_cluster,
}
use semaphore_xds.Service.Translate.{
  dynamic_virtual_host_of, services_to_resources_with_names, port_resources_with_names,
  ports_loop_with_names, services_loop_with_names, NamedResources, cluster_of,
}

-- The map has a cluster of the route's name.
abbrev pub HasCluster : GoMap String Resource → Route → Type 0
HasCluster clusters route = is_some (lookup route.cluster clusters) ≡ true

-- Every route of a virtual host goes to a cluster in the map.
abbrev pub IsRouted : GoMap String Resource → String × Resource → Type 0
IsRouted clusters (key, Resource.virtual_host (some vh)) = All (HasCluster clusters) vh.routes
IsRouted clusters (key, _) = Unit

HasCluster-insert :
    (key : String) (c : Resource) (clusters : GoMap String Resource) (route : Route)
    → HasCluster clusters route
    → HasCluster (insert key c clusters) route
HasCluster-insert key c clusters route h =
    rw (lookup-insert key route.cluster c clusters)
      (elim (Bool-cases (key == route.cluster)) [ inl e ↦ rw e refl | inr e ↦ rw e h ])

All-HasCluster :
    (key : String) (c : Resource) (clusters : GoMap String Resource) (routes : List Route)
    → All (HasCluster clusters) routes
    → All (HasCluster (insert key c clusters)) routes
All-HasCluster key c clusters [] h = tt
All-HasCluster key c clusters (route ∷ routes) h =
    (HasCluster-insert key c clusters route h.0, All-HasCluster key c clusters routes h.1)

IsRouted-insert :
    (key : String) (c : Resource) (clusters : GoMap String Resource) (x : String × Resource)
    → IsRouted clusters x
    → IsRouted (insert key c clusters) x
IsRouted-insert key c clusters (k, Resource.virtual_host (some vh)) h =
    All-HasCluster key c clusters vh.routes h
IsRouted-insert key c clusters (k, Resource.virtual_host none) h = tt
IsRouted-insert key c clusters (k, Resource.cluster x) h = tt
IsRouted-insert key c clusters (k, Resource.route x) h = tt
IsRouted-insert key c clusters (k, Resource.listener x) h = tt
IsRouted-insert key c clusters (k, Resource.endpoint x) h = tt

All-IsRouted :
    (key : String) (c : Resource) (clusters hosts : GoMap String Resource)
    → All (IsRouted clusters) hosts
    → All (IsRouted (insert key c clusters)) hosts
All-IsRouted key c clusters [] h = tt
All-IsRouted key c clusters (x ∷ hosts) h =
    (IsRouted-insert key c clusters x h.0, All-IsRouted key c clusters hosts h.1)

module _ (pack : Pack) (authority : String) where
  patched-IsRouted :
      (s : Service) (port : ℤ) (key : String) (c : Resource) (clusters : GoMap String Resource)
      → IsRouted (insert (cluster_of authority s port).name c clusters) (
        key,
        Resource.virtual_host (
            patch_virtual_host_for_on_demand_discovery pack
              (dynamic_virtual_host_of authority s port)),
      )
  unfolding patch_virtual_host_for_on_demand_discovery make_virtual_host make_cluster
  patched-IsRouted s port key c clusters =
      elim (Option-cases (pack (per_route_config (delta_source ApiVersion.v3)))) [
        | inl e ↦ rw (e, patch_virtual_host_for_on_demand_discovery, IsRouted) tt
        | inr (a, e) ↦
            rw (e, patch_virtual_host_for_on_demand_discovery, IsRouted)
              (rw (lookup-insert_self (cluster_of authority s port).name c clusters) refl, tt)
      ]

  abbrev AllRouted : NamedResources → Type 0
  AllRouted r = All (IsRouted r.named_cls) r.named_vhds

  port-AllRouted :
      (s : Service) (port : ℤ) (r : NamedResources)
      → AllRouted r
      → AllRouted (port_resources_with_names pack authority s port r)
  unfolding port_resources_with_names
  port-AllRouted s port r h =
      let c : Resource = Resource.cluster (patch_cluster_delta_eds (cluster_of authority s port)) in
      insert-All (IsRouted (insert (cluster_of authority s port).name c r.named_cls)) _ _
        r.named_vhds
        (patched-IsRouted s port (dynamic_virtual_host_of authority s port).name c r.named_cls)
        (All-IsRouted (cluster_of authority s port).name c r.named_cls r.named_vhds h)

  ports-AllRouted :
      (s : Service) (ports : List ℤ) (r : NamedResources)
      → AllRouted r
      → AllRouted (ports_loop_with_names pack authority s ports r)
  unfolding ports_loop_with_names
  ports-AllRouted s [] r h = h
  ports-AllRouted s (port ∷ ports) r h =
      ports-AllRouted s ports (port_resources_with_names pack authority s port r)
        (port-AllRouted s port r h)

  services-AllRouted :
      (store : XdsServiceStore) (r : NamedResources)
      → AllRouted r
      → AllRouted (services_loop_with_names pack authority store r)
  unfolding services_loop_with_names
  services-AllRouted [] r h = h
  services-AllRouted ((key, s) ∷ store) r h =
      services-AllRouted store (ports_loop_with_names pack authority s s.service.ports r)
        (ports-AllRouted s s.service.ports r h)

  -- Every route of every virtual host in the map for VHDS goes to a cluster that the map for CDS has
  -- under the route's cluster name.
  pub services_to_resources_with_names-IsRouted :
      (store : XdsServiceStore)
      → All
          (IsRouted (services_to_resources_with_names pack store authority).named_cls)
          (services_to_resources_with_names pack store authority).named_vhds
  unfolding services_to_resources_with_names
  services_to_resources_with_names-IsRouted store = services-AllRouted store _ tt
