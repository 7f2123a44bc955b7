-- ===== src/Controller/Stores.antt =====
-- The stores that the controller computes from what Kubernetes holds: servicesToXdsServiceStore,
-- endpointsStoreForXdsServiceStore and what they are asked for.
use Prim.Native.String.{◌++◌ as concat}
use semaphore_xds.Prelude.{
  String, ℕ, Bool, true, false, ◌&&◌, Option, none, some, List, [], ◌∷◌, if◌then◌else◌, string_eq,
}
use semaphore_xds.Controller.Kube.{not_found}
use semaphore_xds.Prelude.GoMap.{lookup}
use semaphore_xds.Endpoint.{
  KubeEndpoint, XdsEndpointStore, add, new_xds_endpoint_store, EndpointSlice,
}
use semaphore_xds.Service.{
  XdsServiceStore, add_or_update, get, new_xds_service_store, KubeService, Service,
}
use semaphore_xds.Controller.Kube.{
  XdsService, failed, XdsServiceSpec, found, kubernetes_io_service_name_label, Fetched, Client,
  Controller,
}
use semaphore_xds.Controller.Extract.{
  extract_retry_policy, extract_ring_hash_policies, extract_ring_hash_config,
  extract_cluster_lb_policy_from_service_label,
}
use semaphore_xds.Policy.{
  parse_priority_strategy, prioritize_local, LbPolicy, parse_to_cluster_lb_policy,
}
use semaphore_xds.Prelude.Result.{Result, ok, err, panic, ◌>>=◌}

-- an error of a client as an error
abbrev pub fetched {ℓ} : {A : Type ℓ} → String → Fetched A → Result A
fetched message (found a) = ok a
fetched message not_found = err (concat message "not found")
fetched message (failed e) = err (concat message e)

-- The Service of an entry is set by AddOrUpdate.
abbrev pub labelled_service : Controller → KubeService → Service
labelled_service c svc = record {
  enable_remote_endpoints = false;
  policy = extract_cluster_lb_policy_from_service_label c svc;
  ring_hash = none;
  ring_hash_policies = [];
  prioritize_local_endpoints = false;
  service = svc;
  retry = none;
}

unfoldable pub labelled_loop : Controller → List KubeService → XdsServiceStore → XdsServiceStore
unfolding add_or_update extract_cluster_lb_policy_from_service_label
labelled_loop c [] store = store
labelled_loop c (svc ∷ svcs) store =
    labelled_loop c svcs (add_or_update svc (labelled_service c svc) store)

-- pointer.BoolDeref(p, false)
abbrev pub bool_deref : Option Bool → Bool
bool_deref none = false
bool_deref (some b) = b

abbrev pub configured_service : Controller → XdsServiceSpec → KubeService → Service
configured_service c spec svc =
    let policy : LbPolicy = parse_to_cluster_lb_policy spec.load_balancing.policy in
    record {
      enable_remote_endpoints = bool_deref spec.enable_remote_endpoints;
      policy = policy;
      ring_hash = extract_ring_hash_config policy spec.load_balancing.ring_hash;
      ring_hash_policies = extract_ring_hash_policies policy spec.load_balancing.ring_hash;
      prioritize_local_endpoints =
          prioritize_local (parse_priority_strategy spec.priority_strategy);
      service = svc;
      retry = extract_retry_policy c spec.retry;
    }

-- An XdsService whose Service is not found, or fails, is skipped.
abbrev pub store_configured :
    Controller → XdsServiceSpec → Fetched KubeService → XdsServiceStore → XdsServiceStore
store_configured c spec (found svc) store = add_or_update svc (configured_service c spec svc) store
store_configured c spec not_found store = store
store_configured c spec (failed e) store = store

unfoldable pub xds_services_loop : Controller → List XdsService → XdsServiceStore → XdsServiceStore
unfolding add_or_update parse_to_cluster_lb_policy extract_ring_hash_config
    extract_ring_hash_policies prioritize_local parse_priority_strategy extract_retry_policy
xds_services_loop c [] store = store
xds_services_loop c (x ∷ xs) store =
    xds_services_loop c xs
      (store_configured c x.spec (c.local_client.service x.spec.service_name x.namespace) store)

unfoldable pub services_to_xds_service_store : Controller → Result XdsServiceStore
unfolding labelled_loop xds_services_loop new_xds_service_store
services_to_xds_service_store c =
    fetched "Failed to list Services from watcher: " c.labelled_services >>= λ labelled.
    fetched "Failed to list XdsServices from watcher: " c.local_client.xds_service_list >>= λ xs.
    ok (xds_services_loop c xs (labelled_loop c labelled new_xds_service_store))

-- one round of the loop over the slices of the local cluster, on the slice's endpoints: the store
-- and foundLocalEndpoints
abbrev pub add_local :
    String
    → String
    → EndpointSlice
    → List KubeEndpoint
    → XdsEndpointStore × Bool
    → XdsEndpointStore × Bool
add_local service namespace e [] (store, found_local) = (store, found_local)
add_local service namespace e (ep ∷ eps) (store, found_local) =
    (add service namespace e 0 store, true)

unfoldable pub local_slices_loop :
    String → String → List EndpointSlice → XdsEndpointStore × Bool → XdsEndpointStore × Bool
unfolding add
local_slices_loop service namespace [] r = r
local_slices_loop service namespace (e ∷ es) r =
    local_slices_loop service namespace es (add_local service namespace e e.endpoints r)

unfoldable pub remote_slices_loop :
    String → String → ℕ → List EndpointSlice → XdsEndpointStore → XdsEndpointStore
unfolding add
remote_slices_loop service namespace priority [] store = store
remote_slices_loop service namespace priority (e ∷ es) store =
    remote_slices_loop service namespace priority es (add service namespace e priority store)

abbrev pub selector : String → String
selector service = concat kubernetes_io_service_name_label (concat "=" service)

unfoldable pub remote_clients_loop :
    String → String → ℕ → List Client → XdsEndpointStore → Result XdsEndpointStore
unfolding remote_slices_loop
remote_clients_loop service namespace priority [] store = ok store
remote_clients_loop service namespace priority (client ∷ clients) store =
    fetched "" (client.endpoint_slice_list (selector service) namespace) >>= λ es.
    remote_clients_loop service namespace priority clients
      (remote_slices_loop service namespace priority es store)

-- what follows the local slices of a service, with foundLocalEndpoints
unfoldable pub remote_endpoints :
    Controller → Service → XdsEndpointStore × Bool → Result XdsEndpointStore
unfolding remote_clients_loop
remote_endpoints c s (store, found_local) =
    if s.enable_remote_endpoints
    then remote_clients_loop s.service.name s.service.namespace
        (if s.prioritize_local_endpoints && found_local then 1 else 0) c.remote_clients store
    else ok store

unfoldable pub endpoints_store_loop :
    Controller → XdsServiceStore → XdsEndpointStore → Result XdsEndpointStore
unfolding local_slices_loop remote_endpoints
endpoints_store_loop c [] store = ok store
endpoints_store_loop c ((key, s) ∷ svcs) store =
    fetched "" (c.local_client.endpoint_slice_list (selector s.service.name) s.service.namespace)
    >>= λ es.
        remote_endpoints c s
          (local_slices_loop s.service.name s.service.namespace es (store, false))
        >>= λ store'. endpoints_store_loop c svcs store'

unfoldable pub endpoints_store_for_xds_service_store :
    Controller → XdsServiceStore → Result XdsEndpointStore
unfolding endpoints_store_loop new_xds_endpoint_store
endpoints_store_for_xds_service_store c svcs = endpoints_store_loop c svcs new_xds_endpoint_store

-- err == nil
abbrev pub is_ok {ℓ} : {A : Type ℓ} → Result A → Bool
is_ok (ok a) = true
is_ok (err e) = false
is_ok panic = false

unfoldable pub is_service_in_xds_service_store : String → String → XdsServiceStore → Bool
unfolding get
is_service_in_xds_service_store name namespace store = is_ok (get name namespace store)

unfoldable pub need_to_reconcile_endpoint_slice : EndpointSlice → XdsServiceStore → Bool
unfolding is_service_in_xds_service_store
need_to_reconcile_endpoint_slice e store = elim (lookup kubernetes_io_service_name_label e.labels) [
  | none ↦ false
  | some parent ↦ is_service_in_xds_service_store parent e.namespace store
]
