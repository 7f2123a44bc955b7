-- ===== src/Service/WithNames.antt =====
-- What the maps of the linear caches are keyed by.
use semaphore_xds.Prelude.{
  inr, inl, Option-cases, List, All, String, ◌≡◌, refl, none, some, [], ◌∷◌, string_eq,
}
use semaphore_xds.Prelude.Decimal.{ℤ}
use semaphore_xds.Resource.{ApiVersion, per_route_config, VirtualHost, Resource}
use semaphore_xds.Service.{XdsServiceStore, Service}
use semaphore_xds.Service.Build.{
  delta_source, make_kube_dynamic_route_config, patch_cluster_delta_eds,
  patch_virtual_host_for_on_demand_discovery, Pack,
}
use semaphore_xds.Prelude.GoMap.{insert-All}
use semaphore_xds.Service.Translate.{
  dynamic_virtual_host_of, services_to_resources_with_names, port_resources_with_names,
  ports_loop_with_names, services_loop_with_names, NamedResources,
}

-- A cluster under its own name, and no resource of another type.
abbrev pub IsNamedCluster : String × Resource → Type 0
IsNamedCluster (key, Resource.cluster c) = c.name ≡ key
IsNamedCluster (key, _) = ⊥

-- A virtual host under its own name, or a nil pointer to a virtual host.
abbrev pub IsNamedVirtualHost : String × Resource → Type 0
IsNamedVirtualHost (key, Resource.virtual_host (some vh)) = vh.name ≡ key
IsNamedVirtualHost (key, Resource.virtual_host none) = Unit
IsNamedVirtualHost (key, _) = ⊥

-- A route configuration under its own name.
abbrev pub IsNamedRoute : String × Resource → Type 0
IsNamedRoute (key, Resource.route r) = r.name ≡ key
IsNamedRoute (key, _) = ⊥

record AllNamed (r : NamedResources) : Type 0 where
  in_cls : All IsNamedCluster r.named_cls
  in_vhds : All IsNamedVirtualHost r.named_vhds
  in_rds : All IsNamedRoute r.named_rds

module _ (pack : Pack) (authority : String) where
  patched-IsNamedVirtualHost :
      (vh : VirtualHost)
      → IsNamedVirtualHost
          (vh.name, Resource.virtual_host (patch_virtual_host_for_on_demand_discovery pack vh))
  unfolding patch_virtual_host_for_on_demand_discovery
  patched-IsNamedVirtualHost vh =
      elim (Option-cases (pack (per_route_config (delta_source ApiVersion.v3)))) [
        | inl e ↦ rw (e, patch_virtual_host_for_on_demand_discovery, IsNamedVirtualHost) tt
        | inr (a, e) ↦ rw (e, patch_virtual_host_for_on_demand_discovery, IsNamedVirtualHost) refl
      ]

  port-AllNamed :
      (s : Service) (port : ℤ) (r : NamedResources)
      → AllNamed r
      → AllNamed (port_resources_with_names pack authority s port r)
  unfolding port_resources_with_names patch_cluster_delta_eds
  port-AllNamed s port r h = record {
    in_cls = insert-All IsNamedCluster _ _ r.named_cls refl h.in_cls;
    in_vhds =
        insert-All IsNamedVirtualHost _ _ r.named_vhds
          (patched-IsNamedVirtualHost (dynamic_virtual_host_of authority s port)) h.in_vhds;
    in_rds = h.in_rds;
  }

  ports-AllNamed :
      (s : Service) (ports : List ℤ) (r : NamedResources)
      → AllNamed r
      → AllNamed (ports_loop_with_names pack authority s ports r)
  unfolding ports_loop_with_names
  ports-AllNamed s [] r h = h
  ports-AllNamed s (port ∷ ports) r h =
      ports-AllNamed s ports (port_resources_with_names pack authority s port r)
        (port-AllNamed s port r h)

  services-AllNamed :
      (store : XdsServiceStore) (r : NamedResources)
      → AllNamed r
      → AllNamed (services_loop_with_names pack authority store r)
  unfolding services_loop_with_names
  services-AllNamed [] r h = h
  services-AllNamed ((key, s) ∷ store) r h =
      services-AllNamed store (ports_loop_with_names pack authority s s.service.ports r)
        (ports-AllNamed s s.service.ports r h)

  -- The three maps for the linear caches hold clusters, virtual hosts and route configurations, in
  -- turn and nothing else, each under its own name; of a virtual host that could not be patched, which
  -- is a nil pointer, nothing is said but its type.
  pub services_to_resources_with_names-IsNamed :
      (store : XdsServiceStore)
      → All IsNamedCluster (services_to_resources_with_names pack store authority).named_cls
        × All IsNamedVirtualHost (services_to_resources_with_names pack store authority).named_vhds
        × All IsNamedRoute (services_to_resources_with_names pack store authority).named_rds
  unfolding services_to_resources_with_names make_kube_dynamic_route_config
  services_to_resources_with_names-IsNamed store =
      let h = services-AllNamed store _ (record { in_cls = tt; in_vhds = tt; in_rds = tt }) in
      (h.in_cls, h.in_vhds, insert-All IsNamedRoute "kube_dynamic" _ _ refl h.in_rds)
