-- ===== src/Tests/Services.antt =====
-- The theorems on services at concrete inputs.
use semaphore_xds.Service.Unique.{Apart, cluster_name, IsKeyed, services_to_resources-Apart}
use semaphore_xds.Prelude.Text.{Free}
use semaphore_xds.Names.{store_key}
use semaphore_xds.Prelude.Decimal.{pos}
use semaphore_xds.Service.Translate.{
  Resources, services_to_resources_with_names, services_to_resources,
}
use semaphore_xds.Tests.Values.{api, api_service, service_store, pack_any}
use semaphore_xds.Service.WithNames.{
  services_to_resources_with_names-IsNamed, IsNamedCluster, IsNamedVirtualHost, IsNamedRoute,
}
use semaphore_xds.Prelude.Result.{ok}
use mathlib.Core.List.{filter_map}
use semaphore_xds.Service.{add_or_update, get}
use semaphore_xds.Service.Complete.{
  services_to_resources_lem, listener_at, route_at, service_ports, cluster_at,
}
use semaphore_xds.Service.Store.{get-add_or_update_ne}
use semaphore_xds.Service.Routed.{services_to_resources_with_names-IsRouted, IsRouted}
use semaphore_xds.Prelude.{arith, ℕ, refl, String, string_eq, ne_of_beq, ◌≡◌, map, All, String}

services_to_resources_lem_example :
    services_to_resources pack_any service_store ""
    ≡ ok (record {
      cls = filter_map (cluster_at pack_any "") (service_ports service_store);
      rds = map (route_at pack_any "") (service_ports service_store);
      lsnr = filter_map (listener_at pack_any "") (service_ports service_store);
    })
services_to_resources_lem_example = services_to_resources_lem pack_any "" service_store

services_to_resources_with_names-IsNamed_example :
    All IsNamedCluster (services_to_resources_with_names pack_any service_store "").named_cls
    × All IsNamedVirtualHost (services_to_resources_with_names pack_any service_store "").named_vhds
    × All IsNamedRoute (services_to_resources_with_names pack_any service_store "").named_rds
services_to_resources_with_names-IsNamed_example =
    services_to_resources_with_names-IsNamed pack_any "" service_store

services_to_resources_with_names-IsRouted_example :
    All
      (IsRouted (services_to_resources_with_names pack_any service_store "uw.systems").named_cls)
      (services_to_resources_with_names pack_any service_store "uw.systems").named_vhds
services_to_resources_with_names-IsRouted_example =
    services_to_resources_with_names-IsRouted pack_any "uw.systems" service_store

get-add_or_update_ne_example :
    get "web" "shop" (add_or_update api api_service service_store) ≡ get "web" "shop" service_store
get-add_or_update_ne_example =
    get-add_or_update_ne api api_service service_store "web" "shop"
      ((λ e. cc), ((λ e. cc), ((λ e. cc), tt))) ((λ e. cc), ((λ e. cc), ((λ e. cc), tt)))
      (λ h. ne_of_beq {A = String} "api" "web" refl h.0)

abbrev stored : Resources
stored = record {
  cls = filter_map (cluster_at pack_any "") (service_ports service_store);
  rds = map (route_at pack_any "") (service_ports service_store);
  lsnr = filter_map (listener_at pack_any "") (service_ports service_store);
}

api-Free : Free "." "api"
api-Free = ((λ e. cc), ((λ e. cc), ((λ e. cc), tt)))

shop-Free : Free "." "shop"
shop-Free = ((λ e. cc), ((λ e. cc), ((λ e. cc), ((λ e. cc), tt))))

pos_inj : {m n : ℕ} → pos m ≡ pos n → m ≡ n
pos_inj h = cc

api-IsKeyed : IsKeyed service_store
unfolding store_key
api-IsKeyed = (refl, tt)

services_to_resources-Apart_example : Apart cluster_name stored.cls
services_to_resources-Apart_example =
    services_to_resources-Apart pack_any service_store stored api-IsKeyed (tt, tt)
      ((api-Free, shop-Free, (((λ e. omega (arith, pos_inj e)), tt), (tt, tt))), tt)
      (services_to_resources_lem pack_any "" service_store)
