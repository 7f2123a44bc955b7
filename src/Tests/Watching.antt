-- ===== src/Tests/Watching.antt =====
-- The watcher's handlers at concrete events.
use semaphore_xds.Prelude.{String, ◌≡◌, refl, Option, none, some, List, [], ◌∷◌}
use semaphore_xds.Prelude.Result.{ok, panic}
use semaphore_xds.Watcher.{
  watcher_delete, Object, service, deleted_final_state_unknown, other_object, Informers,
  watcher_list,
}
use semaphore_xds.Watcher.Events.{
  Event, add, update, delete, handle_all, handle_all_lem, outcome, event_services,
  meta_namespace_key,
}
use semaphore_xds.Controller.Kube.{found}
use semaphore_xds.Queue.{Queue}
use semaphore_xds.Tests.Control.{list_queue}
use semaphore_xds.Tests.Values.{api}

abbrev key_of_object : Object → Option String
key_of_object (service svc) = some (meta_namespace_key svc)
key_of_object (deleted_final_state_unknown key) = some key
key_of_object (other_object text) = none

abbrev test_informers : Informers
test_informers = record { key_of = key_of_object; resource_version = λ obj. "1" }

abbrev events : List Event
events = add (service api) ∷ update (service api) (service api) ∷ delete (service api) ∷ []

abbrev idle : Queue list_queue
idle = record { items = []; requeued = [] }

handle_all_lem_example :
    handle_all test_informers events idle ≡ outcome (event_services events) idle
handle_all_lem_example = handle_all_lem test_informers events idle (λ svc. refl)

-- an object without a namespace has its name alone for a key
bare_name : meta_namespace_key (record api { namespace = "" }) ≡ "api"
bare_name = refl

keys_in_order :
    outcome (event_services events) idle
    ≡ ok (record idle { items = "shop/api" ∷ "shop/api" ∷ "shop/api" ∷ [] })
keys_in_order = refl

missed_delete_panics :
    handle_all test_informers (delete (deleted_final_state_unknown "shop/api") ∷ []) idle ≡ panic
unfolding watcher_delete
missed_delete_panics = refl

listed :
    watcher_list (record { get_by_key = λ key. ok none; list = service api ∷ [] })
    ≡ found (api ∷ [])
unfolding watcher_list
listed = refl
