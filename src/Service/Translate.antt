-- ===== src/Service/Translate.antt =====
-- servicesToResources and servicesToResourcesWithNames of xds/service.go.
use Prim.Native.String.{◌++◌ as concat}
use semaphore_xds.Prelude.{String, none, some, List, [], ◌∷◌, ◌++◌, string_eq}
use semaphore_xds.Prelude.Decimal.{ℤ}
use semaphore_xds.Prelude.GoMap.{GoMap, insert}
use semaphore_xds.Prelude.Result.{Result, ok}
use semaphore_xds.Resource.{Cluster, VirtualHost, RouteConfiguration, Resource}
use semaphore_xds.Service.{Service, XdsServiceStore}
use semaphore_xds.Service.Build.{
  Pack, make_virtual_host, make_route_config, make_kube_dynamic_route_config, make_manager,
  make_listener, make_cluster, patch_cluster_delta_eds, patch_virtual_host_for_on_demand_discovery,
}

-- The three slices that servicesToResources returns.
pub record Resources : Type 0 where
  pub cls : List Resource
  pub rds : List Resource
  pub lsnr : List Resource

-- the builders at a service and one of its ports
abbrev pub virtual_host_of : String → Service → ℤ → VirtualHost
virtual_host_of authority s port =
    make_virtual_host s.service.name s.service.namespace authority port s.retry s.ring_hash_policies

abbrev pub route_config_of : String → Service → ℤ → RouteConfiguration
route_config_of authority s port =
    make_route_config s.service.name s.service.namespace authority port
      (virtual_host_of authority s port ∷ [])

abbrev pub cluster_of : String → Service → ℤ → Cluster
cluster_of authority s port =
    make_cluster s.service.name s.service.namespace authority port s.policy s.ring_hash

-- One round of the loop over ports. An error in makeManager skips the listener and the cluster.
unfoldable pub port_resources : Pack → String → Service → ℤ → Resources → Resources
port_resources pack authority s port r =
    elim (make_manager pack (route_config_of authority s port)) [
      | none ↦ record r { rds = r.rds ++ Resource.route (route_config_of authority s port) ∷ [] }
      | some manager ↦ record {
        cls = r.cls ++ Resource.cluster (cluster_of authority s port) ∷ [];
        rds = r.rds ++ Resource.route (route_config_of authority s port) ∷ [];
        lsnr =
            r.lsnr
            ++ Resource.listener
                (make_listener s.service.name s.service.namespace authority port manager)
              ∷ [];
      }
    ]

unfoldable pub ports_loop : Pack → String → Service → List ℤ → Resources → Resources
unfolding port_resources
ports_loop pack authority s [] r = r
ports_loop pack authority s (port ∷ ports) r =
    ports_loop pack authority s ports (port_resources pack authority s port r)

unfoldable pub services_loop : Pack → String → XdsServiceStore → Resources → Resources
unfolding ports_loop
services_loop pack authority [] r = r
services_loop pack authority ((key, s) ∷ store) r =
    services_loop pack authority store (ports_loop pack authority s s.service.ports r)

-- The error that it returns is always nil.
unfoldable pub services_to_resources : Pack → XdsServiceStore → String → Result Resources
unfolding services_loop
services_to_resources pack store authority =
    ok (services_loop pack authority store (record { cls = []; rds = []; lsnr = [] }))

-- The three maps that servicesToResourcesWithNames returns.
pub record NamedResources : Type 0 where
  pub named_cls : GoMap String Resource
  pub named_vhds : GoMap String Resource
  pub named_rds : GoMap String Resource

-- vh, with the name that VHDS requests are expected to use
abbrev pub dynamic_virtual_host_of : String → Service → ℤ → VirtualHost
dynamic_virtual_host_of authority s port =
    let vh : VirtualHost = virtual_host_of authority s port in
    record vh { name = concat "kube_dynamic/" vh.name }

-- One round of the loop over ports. A virtual host that cannot be patched is stored as nil.
unfoldable pub port_resources_with_names :
    Pack → String → Service → ℤ → NamedResources → NamedResources
port_resources_with_names pack authority s port r =
    let vh : VirtualHost = dynamic_virtual_host_of authority s port in
    let cluster : Cluster = cluster_of authority s port in
    record r {
      named_vhds =
          insert vh.name
            (Resource.virtual_host (patch_virtual_host_for_on_demand_discovery pack vh))
            r.named_vhds;
      named_cls =
          insert cluster.name (Resource.cluster (patch_cluster_delta_eds cluster)) r.named_cls;
    }

unfoldable pub ports_loop_with_names :
    Pack → String → Service → List ℤ → NamedResources → NamedResources
unfolding port_resources_with_names
ports_loop_with_names pack authority s [] r = r
ports_loop_with_names pack authority s (port ∷ ports) r =
    ports_loop_with_names pack authority s ports (port_resources_with_names pack authority s port r)

unfoldable pub services_loop_with_names :
    Pack → String → XdsServiceStore → NamedResources → NamedResources
unfolding ports_loop_with_names
services_loop_with_names pack authority [] r = r
services_loop_with_names pack authority ((key, s) ∷ store) r =
    services_loop_with_names pack authority store
      (ports_loop_with_names pack authority s s.service.ports r)

unfoldable pub services_to_resources_with_names : Pack → XdsServiceStore → String → NamedResources
unfolding services_loop_with_names
services_to_resources_with_names pack store authority =
    let r : NamedResources =
      services_loop_with_names pack authority store
        (record { named_cls = []; named_vhds = []; named_rds = [] }) in
    record r {
      named_rds = insert "kube_dynamic" (Resource.route make_kube_dynamic_route_config) r.named_rds;
    }
