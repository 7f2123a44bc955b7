-- ===== src/Controller/Skipped.antt =====
-- When reconcileEndpointSlice does nothing: the slice belongs to a service that is not served.
use semaphore_xds.Prelude.{String, ◌≡◌, ◌⊎◌, refl, sym, some, [], inl, inr, Option-cases, string_eq}
use semaphore_xds.Prelude.GoMap.{lookup}
use semaphore_xds.Prelude.Result.{ok, ok_inj}
use semaphore_xds.Endpoint.{EndpointSlice, XdsEndpointStore}
use semaphore_xds.Service.{XdsServiceStore, get}
use semaphore_xds.Names.{store_key}
use semaphore_xds.Snapshotter.Library.{Library}
use semaphore_xds.Snapshotter.State.{Snapshotter}
use semaphore_xds.Controller.Kube.{Controller, kubernetes_io_service_name_label}
use semaphore_xds.Controller.Stores.{
  need_to_reconcile_endpoint_slice, is_service_in_xds_service_store, services_to_xds_service_store,
  endpoints_store_for_xds_service_store,
}
use semaphore_xds.Controller.Reconcile.{reconcile_endpoint_slice, snap_all, with_services}
use semaphore_xds.Controller.Contents.{endpoints_store_lem, expected_slices}
use semaphore_xds.Controller.Extends.{slices_at}

-- Where both stores can be computed and the slice has the label with its service's name: either
-- reconcileEndpointSlice snaps the stores anew, or it changes nothing and returns no error, and then
-- the endpoint store has no slice at all under the key of that service in the slice's namespace.
pub reconcile_endpoint_slice-skipped :
    {lib : Library} (c : Controller) (s : Snapshotter lib) (e : EndpointSlice) (parent : String)
    (svcs : XdsServiceStore) (store : XdsEndpointStore)
    → lookup kubernetes_io_service_name_label e.labels ≡ some parent
    → services_to_xds_service_store c ≡ ok svcs
    → endpoints_store_for_xds_service_store c svcs ≡ ok store
    → (reconcile_endpoint_slice c s e ≡ snap_all c s svcs)
      ⊎ ((reconcile_endpoint_slice c s e ≡ (s, ok tt))
          × (slices_at (store_key parent e.namespace) store ≡ []))
unfolding reconcile_endpoint_slice need_to_reconcile_endpoint_slice is_service_in_xds_service_store
    with_services get
reconcile_endpoint_slice-skipped c s e parent svcs store label h q =
    let expected = endpoints_store_lem c svcs store (store_key parent e.namespace) h q in
    elim (Option-cases (lookup (store_key parent e.namespace) svcs)) [
      | inr (svc, k) ↦ inl (
          rw
            (
              h, reconcile_endpoint_slice, with_services, need_to_reconcile_endpoint_slice, label,
              is_service_in_xds_service_store, get, k,
            )
            refl)
      | inl k ↦ inr (
        rw
            (
              h, reconcile_endpoint_slice, with_services, need_to_reconcile_endpoint_slice, label,
              is_service_in_xds_service_store, get, k,
            )
            refl,
        sym (ok_inj (rw (k, expected_slices) at expected)),
      )
    ]
