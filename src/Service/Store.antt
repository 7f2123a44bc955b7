-- ===== src/Service/Store.antt =====
-- The service store: what AddOrUpdate puts in is what Get and All give back.
use semaphore_xds.Prelude.{String, ◌≡◌, refl, string_eq, beq_of_ne}
use semaphore_xds.Prelude.GoMap.{lookup-insert, lookup-insert_self}
use semaphore_xds.Prelude.Text.{Free}
use semaphore_xds.Prelude.Result.{ok}
use semaphore_xds.Names.Injective.{store_key-injective}
use semaphore_xds.Service.{KubeService, Service, XdsServiceStore, add_or_update, get}

-- Get after AddOrUpdate finds the service that was put in, with the Kubernetes Service in it.
pub get-add_or_update_self :
    (svc : KubeService) (x : Service) (store : XdsServiceStore)
    → get svc.name svc.namespace (add_or_update svc x store) ≡ ok (record x { service = svc })
unfolding get add_or_update
get-add_or_update_self svc x store = rw (lookup-insert_self _ _ store, get, add_or_update) refl

-- AddOrUpdate leaves alone every service of another name or namespace, if names have no dot.
pub get-add_or_update_ne :
    (svc : KubeService) (x : Service) (store : XdsServiceStore) (name namespace : String)
    → Free "." svc.name
    → Free "." name
    → ¬ ((svc.name ≡ name) × (svc.namespace ≡ namespace))
    → get name namespace (add_or_update svc x store) ≡ get name namespace store
unfolding get add_or_update
get-add_or_update_ne svc x store name namespace fa fb h =
    rw
      (
        lookup-insert _ _ _ store,
        beq_of_ne _ _ (λ e. h (store_key-injective svc.name name _ _ fa fb e)),
        get,
        add_or_update,
      )
      refl
