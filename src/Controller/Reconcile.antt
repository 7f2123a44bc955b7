-- ===== src/Controller/Reconcile.antt =====
-- The reconcile functions of the controller. Each changes the server's state by SnapServices and
-- SnapEndpoints alone; what it returns is beside the state.
use Prim.Native.String.{◌++◌ as concat}
use semaphore_xds.Prelude.{String, List, [], ◌∷◌, if◌then◌else◌}
use semaphore_xds.Controller.Kube.{not_found}
use semaphore_xds.Snapshotter.Library.{Library}
use semaphore_xds.Snapshotter.State.{Snapshotter}
use semaphore_xds.Controller.Kube.{failed, found, Fetched, Client, Controller}
use semaphore_xds.Endpoint.{XdsEndpointStore, EndpointSlice}
use semaphore_xds.Service.{XdsServiceStore}
use semaphore_xds.Controller.Stores.{
  need_to_reconcile_endpoint_slice, endpoints_store_for_xds_service_store,
  services_to_xds_service_store,
}
use semaphore_xds.Snapshotter.Snap.{snap_endpoints, snap_services}
use semaphore_xds.Prelude.Result.{Result, ok, err, panic}

-- fmt.Errorf("Cannot list EndpointSlices for snapshotting: %v", err)
abbrev pub listing_error : String → String
listing_error e = concat "Cannot list EndpointSlices for snapshotting: " e

abbrev pub Outcome : Library → Type 0
Outcome lib = Snapshotter lib × Result (Unit {0})

module _ {lib : Library} where
  -- the end of snapAll and of snapEndpoints
  unfoldable pub snap_listed : Snapshotter lib → Result XdsEndpointStore → Outcome lib
  snap_listed s (ok store) = snap_endpoints s store
  snap_listed s (err e) = (s, err (listing_error e))
  snap_listed s panic = (s, panic)

  -- the rest of snapAll after SnapServices
  unfoldable pub snap_all_endpoints : Controller → XdsServiceStore → Outcome lib → Outcome lib
  snap_all_endpoints c store (s, ok u) =
      snap_listed s (endpoints_store_for_xds_service_store c store)
  snap_all_endpoints c store (s, err e) = (s, err e)
  snap_all_endpoints c store (s, panic) = (s, panic)

  unfoldable pub snap_all : Controller → Snapshotter lib → XdsServiceStore → Outcome lib
  snap_all c s store = snap_all_endpoints c store (snap_services s store)

  -- an operation on the services, where there is no error in finding them
  unfoldable pub with_services :
      Snapshotter lib → (XdsServiceStore → Outcome lib) → Result XdsServiceStore → Outcome lib
  with_services s f (ok svcs) = f svcs
  with_services s f (err e) = (s, err e)
  with_services s f panic = (s, panic)

  -- snapEndpoints; the name snap_endpoints is the snapshotter's
  unfoldable pub refresh_endpoints : Controller → Snapshotter lib → Outcome lib
  refresh_endpoints c s =
      with_services s (λ svcs. snap_listed s (endpoints_store_for_xds_service_store c svcs))
        (services_to_xds_service_store c)

  unfoldable pub reconcile_services : Controller → Snapshotter lib → Outcome lib
  reconcile_services c s = with_services s (snap_all c s) (services_to_xds_service_store c)

  unfoldable pub reconcile_endpoint_slice :
      Controller → Snapshotter lib → EndpointSlice → Outcome lib
  reconcile_endpoint_slice c s e =
      with_services s
        (λ svcs. if need_to_reconcile_endpoint_slice e svcs then snap_all c s svcs else (s, ok tt))
        (services_to_xds_service_store c)

  -- the branches of reconcileLocalEndpointSlice; the error names the slice as the code does
  unfoldable pub reconcile_local :
      Controller → Snapshotter lib → String → String → Fetched EndpointSlice → Outcome lib
  reconcile_local c s name namespace (found e) = reconcile_endpoint_slice c s e
  reconcile_local c s name namespace not_found = refresh_endpoints c s
  reconcile_local c s name namespace (failed e) = (
    s,
    err (
        concat "Failed to get EndpointSlice: "
          (concat name (concat " in namespace " (concat namespace (concat ": " e))))),
  )

  unfoldable pub reconcile_local_endpoint_slice :
      Controller → Snapshotter lib → String → String → Outcome lib
  reconcile_local_endpoint_slice c s name namespace =
      reconcile_local c s name namespace (c.local_client.endpoint_slice name namespace)

  -- one round of the loop over the remote clients, with what the rest of the loop comes to: the
  -- first client that has the slice decides, and any error goes on to the next
  abbrev pub remote_answer :
      Controller → Snapshotter lib → Fetched EndpointSlice → Outcome lib → Outcome lib
  remote_answer c s (found e) rest = reconcile_endpoint_slice c s e
  remote_answer c s not_found rest = rest
  remote_answer c s (failed e) rest = rest

  unfoldable pub remote_reconcile_loop :
      Controller → Snapshotter lib → String → String → List Client → Outcome lib
  remote_reconcile_loop c s name namespace [] = refresh_endpoints c s
  remote_reconcile_loop c s name namespace (client ∷ clients) =
      remote_answer c s (client.endpoint_slice name namespace)
        (remote_reconcile_loop c s name namespace clients)

  unfoldable pub reconcile_remote_endpoint_slice :
      Controller → Snapshotter lib → String → String → Outcome lib
  reconcile_remote_endpoint_slice c s name namespace =
      remote_reconcile_loop c s name namespace c.remote_clients
