-- ===== src/Watcher.antt =====
-- The watcher of labelled Services in kube/service_watcher.go, with the handler that the controller
-- gives it and with newEventHandlerFunc of kube/client.go. Metrics and the start of informers are
-- left out.
pub mod Events
use semaphore_xds.Prelude.{String, Bool, Option, none, some, List, [], ◌∷◌, ◌++◌, if◌then◌else◌}
use Prim.Native.String.{◌++◌ as concat}
use semaphore_xds.Prelude.Result.{Result, ok, err, panic, ◌>>=◌}
use semaphore_xds.Service.{KubeService}
use semaphore_xds.Endpoint.{deref}
use semaphore_xds.Queue.{WorkQueue, Queue, add_object}
use semaphore_xds.Controller.Kube.{Fetched, found, not_found, failed}
use semaphore_xds.Controller.Wrapper.{obj_changed}

-- What client-go gives to a handler: a Service, a cache.DeletedFinalStateUnknown with its key, or an
-- object of another type with its text.
pub data Object : Type 0 where
  service : KubeService → Object
  deleted_final_state_unknown : String → Object
  other_object : String → Object

-- watch.EventType
pub data EventType : Type 0 where
  added modified deleted : EventType
  other_type : String → EventType

-- What it uses of client-go: cache.DeletionHandlingMetaNamespaceKeyFunc, `none` for an error, and
-- an object's resource version.
pub record Informers : Type 0 where
  pub key_of : Object → Option String
  pub resource_version : Object → String

-- obj.(*v1.Service)
unfoldable pub assert_service : Object → Result KubeService
assert_service (service svc) = ok svc
assert_service (deleted_final_state_unknown key) = panic
assert_service (other_object text) = panic

module _ (informers : Informers) {wq : WorkQueue} where
  -- Controller.serviceEventHandler on its queue
  unfoldable pub service_event_handler :
      EventType → Option KubeService → Option KubeService → Queue wq → Result (Queue wq)
  unfolding add_object
  service_event_handler added old new q =
      deref new >>= λ svc. ok (add_object q (informers.key_of (service svc)))
  service_event_handler modified old new q =
      deref new >>= λ svc. ok (add_object q (informers.key_of (service svc)))
  service_event_handler deleted old new q =
      deref old >>= λ svc. ok (add_object q (informers.key_of (service svc)))
  service_event_handler (other_type t) old new q = ok q

  -- handleEvent, with the controller's handler
  unfoldable pub handle_event :
      EventType → Option KubeService → Option KubeService → Queue wq → Result (Queue wq)
  unfolding service_event_handler
  handle_event event_type old_obj new_obj q = service_event_handler event_type old_obj new_obj q

  -- AddFunc, UpdateFunc and DeleteFunc of Init
  unfoldable pub watcher_add : Object → Queue wq → Result (Queue wq)
  unfolding handle_event assert_service
  watcher_add obj q = assert_service obj >>= λ new. handle_event added none (some new) q

  unfoldable pub watcher_update : Object → Object → Queue wq → Result (Queue wq)
  unfolding handle_event assert_service
  watcher_update old_obj new_obj q = assert_service old_obj >>= λ old.
      assert_service new_obj >>= λ new. handle_event modified (some old) (some new) q

  unfoldable pub watcher_delete : Object → Queue wq → Result (Queue wq)
  unfolding handle_event assert_service
  watcher_delete obj q = assert_service obj >>= λ old. handle_event deleted (some old) none q

  -- AddFunc, UpdateFunc and DeleteFunc of newEventHandlerFunc
  unfoldable pub client_add : Object → Queue wq → Queue wq
  unfolding add_object
  client_add obj q = add_object q (informers.key_of obj)

  unfoldable pub client_update : Object → Object → Queue wq → Queue wq
  unfolding add_object obj_changed
  client_update old_obj new_obj q =
      if obj_changed (some (informers.resource_version old_obj))
        (some (informers.resource_version new_obj))
      then add_object q (informers.key_of new_obj)
      else q

  unfoldable pub client_delete : Object → Queue wq → Queue wq
  unfolding add_object
  client_delete obj q = add_object q (informers.key_of obj)

-- cache.Store: GetByKey, with no object where the key is not there, and List
pub record Store : Type 0 where
  pub get_by_key : String → Result (Option Object)
  pub list : List Object

-- Get, where the outer result is a panic if the object is of another type
unfoldable pub watcher_get : Store → String → String → Result (Fetched KubeService)
unfolding assert_service
watcher_get store name namespace = elim (store.get_by_key (concat namespace (concat "/" name))) [
  | err e ↦ ok (failed e)
  | panic ↦ panic
  | ok none ↦ ok not_found
  | ok (some obj) ↦ assert_service obj >>= λ svc. ok (found svc)
]

-- the loop of List
unfoldable pub watcher_list_loop : List Object → List KubeService → Fetched (List KubeService)
watcher_list_loop [] svcs = found svcs
watcher_list_loop (service svc ∷ objects) svcs = watcher_list_loop objects (svcs ++ svc ∷ [])
watcher_list_loop (deleted_final_state_unknown key ∷ objects) svcs =
    failed (concat "unexpected object in store: " key)
watcher_list_loop (other_object text ∷ objects) svcs =
    failed (concat "unexpected object in store: " text)

unfoldable pub watcher_list : Store → Fetched (List KubeService)
unfolding watcher_list_loop
watcher_list store = watcher_list_loop store.list []
