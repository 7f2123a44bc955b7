-- ===== src/Controller/Wrapper.antt =====
-- The client of kube/client.go that wraps the informers of client-go, which are parameters: what it
-- answers before its informers are started and after.
use semaphore_xds.Prelude.{
  String, ℕ, Bool, true, not, ◌≡◌, refl, Option, none, some, List, [], ◌∷◌, ◌==◌, string_eq,
}
use semaphore_xds.Controller.Kube.{
  failed, XdsService, found, Fetched, Client, Controller, not_found,
}
use semaphore_xds.Snapshotter.Library.{Library}
use semaphore_xds.Endpoint.{XdsEndpointStore, EndpointSlice}
use semaphore_xds.Service.{KubeService}
use semaphore_xds.Controller.Stores.{remote_slices_loop, remote_clients_loop}
use semaphore_xds.Controller.Reconcile.{remote_reconcile_loop}
use semaphore_xds.Snapshotter.State.{Snapshotter}

-- The listers of EndpointSlices of a started factory.
pub record Listers : Type 0 where
  -- EndpointSlices(namespace).Get(name)
  pub get_slice : String → String → Fetched EndpointSlice
  -- EndpointSlices(namespace).List(selector), with the selector that was parsed
  pub list_slices : String → String → Fetched (List EndpointSlice)
  -- labels.Parse; `none` is an error
  pub parse_labels : String → Option String

-- clientWrapper: its factory is nil until a Watch function has made it. The listers of Services and
-- XdsServices are not looked into.
pub record ClientWrapper : Type 0 where
  pub factory_kube : Option Listers
  pub get_service : String → String → Fetched KubeService
  pub list_xds_services : Fetched (List XdsService)

unfoldable pub filter_kube_not_found : Fetched (List EndpointSlice) → Fetched (List EndpointSlice)
filter_kube_not_found (found es) = found es
filter_kube_not_found not_found = found []
filter_kube_not_found (failed e) = failed e

-- EndpointSlice(name, namespace)
unfoldable pub wrapped_endpoint_slice : ClientWrapper → String → String → Fetched EndpointSlice
wrapped_endpoint_slice w name namespace = elim w.factory_kube [
  | none ↦ not_found
  | some listers ↦ listers.get_slice namespace name
]

-- EndpointSliceList(labelSelector, namespace)
unfoldable pub wrapped_endpoint_slice_list :
    ClientWrapper → String → String → Fetched (List EndpointSlice)
unfolding filter_kube_not_found
wrapped_endpoint_slice_list w label_selector namespace = elim w.factory_kube [
  | none ↦ found []
  | some listers ↦ elim (listers.parse_labels label_selector) [
    | none ↦ failed "unable to parse the selector"
    | some selector ↦ filter_kube_not_found (listers.list_slices namespace selector)
  ]
]

-- the wrapper as the interface's implementation
abbrev pub client_of : ClientWrapper → Client
client_of w = record {
  service = w.get_service;
  endpoint_slice = wrapped_endpoint_slice w;
  endpoint_slice_list = wrapped_endpoint_slice_list w;
  xds_service_list = w.list_xds_services;
}

-- The resource versions of the two objects, `none` for nil.
unfoldable pub obj_changed : Option String → Option String → Bool
obj_changed none _ = true
obj_changed (some old) none = true
obj_changed (some old) (some new) = not (old == new)

module _ {lib : Library} (c : Controller) (s : Snapshotter lib) (w : ClientWrapper)
    (clients : List Client) where
  -- A remote client whose informers are not started is as good as none: it adds nothing to the
  -- endpoint store, and the reconciliation of a remote slice goes on to the other clients.
  pub unstarted_client_lem :
      (name namespace : String) (priority : ℕ) (store : XdsEndpointStore)
      → w.factory_kube ≡ none
      → (remote_clients_loop name namespace priority (client_of w ∷ clients) store
          ≡ remote_clients_loop name namespace priority clients store)
        × (remote_reconcile_loop c s name namespace (client_of w ∷ clients)
            ≡ remote_reconcile_loop c s name namespace clients)
  unfolding remote_clients_loop remote_reconcile_loop remote_slices_loop wrapped_endpoint_slice
      wrapped_endpoint_slice_list
  unstarted_client_lem name namespace priority store unstarted =
      (rw unstarted refl, rw unstarted refl)
