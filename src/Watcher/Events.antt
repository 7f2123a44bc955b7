-- ===== src/Watcher/Events.antt =====
-- What a sequence of events comes to, handler by handler.
use semaphore_xds.Prelude.{
  String, ◌≡◌, refl, ◌==◌, string_eq, if◌then◌else◌, Option, none, some, List, [], ◌∷◌, inl, inr,
  Option-cases,
}
use Prim.Native.String.{◌++◌ as concat}
use mathlib.Core.Option
use semaphore_xds.Prelude.Result.{Result, ok, panic, ◌>>=◌}
use semaphore_xds.Service.{KubeService}
use semaphore_xds.Queue.{WorkQueue, Queue}
use semaphore_xds.Watcher.{
  Object, service, deleted_final_state_unknown, other_object, Informers, watcher_add,
  watcher_update, watcher_delete,
}

-- A call of one of the three handlers.
pub data Event : Type 0 where
  add : Object → Event
  update : Object → Object → Event
  delete : Object → Event

-- The Service in an object.
abbrev pub service_in : Object → Option KubeService
service_in (service svc) = some svc
service_in (deleted_final_state_unknown key) = none
service_in (other_object text) = none

-- The Service that an event is about, where all of its objects are Services.
abbrev pub event_service : Event → Option KubeService
event_service (add obj) = service_in obj
event_service (delete obj) = service_in obj
event_service (update (service old) obj) = service_in obj
event_service (update (deleted_final_state_unknown key) obj) = none
event_service (update (other_object text) obj) = none

abbrev pub event_services : List Event → Option (List KubeService)
event_services [] = some []
event_services (e ∷ es) = elim (event_service e) [
  | none ↦ none
  | some svc ↦ Option.map (λ svcs. svc ∷ svcs) (event_services es)
]

-- The key that client-go documents for an object: <namespace>/<name>, or <name> where the namespace
-- is empty.
abbrev pub meta_namespace_key : KubeService → String
meta_namespace_key svc =
    if svc.namespace == "" then svc.name else concat svc.namespace (concat "/" svc.name)

module _ (informers : Informers) {wq : WorkQueue} where
  abbrev pub handle : Event → Queue wq → Result (Queue wq)
  handle (add obj) q = watcher_add informers obj q
  handle (update old_obj new_obj) q = watcher_update informers old_obj new_obj q
  handle (delete obj) q = watcher_delete informers obj q

  -- one event after the other
  abbrev pub handle_all : List Event → Queue wq → Result (Queue wq)
  handle_all [] q = ok q
  handle_all (e ∷ es) q = handle e q >>= λ q'. handle_all es q'

-- The keys of the Services are put into the queue, in order.
abbrev pub enqueue_all : {wq : WorkQueue} → List KubeService → Queue wq → Queue wq
enqueue_all [] q = q
enqueue_all {wq} (svc ∷ svcs) q =
    enqueue_all svcs (record q { items = wq.enqueue q.items (meta_namespace_key svc) })

-- What the events come to: a panic where one of them has an object that is no Service.
abbrev pub outcome : {wq : WorkQueue} → Option (List KubeService) → Queue wq → Result (Queue wq)
outcome none q = panic
outcome (some svcs) q = ok (enqueue_all svcs q)

module _ (informers : Informers) {wq : WorkQueue} where
  handle_lem :
      (e : Event) (q : Queue wq)
      → ((svc : KubeService) → informers.key_of (service svc) ≡ some (meta_namespace_key svc))
      → handle informers e q ≡ elim (event_service e) [
        | none ↦ panic
        | some svc ↦ ok (record q { items = wq.enqueue q.items (meta_namespace_key svc) })
      ]
  unfolding watcher_add watcher_update watcher_delete
  handle_lem (add (service svc)) q keyed = rw (keyed svc) refl
  handle_lem (add (deleted_final_state_unknown key)) q keyed = refl
  handle_lem (add (other_object text)) q keyed = refl
  handle_lem (delete (service svc)) q keyed = rw (keyed svc) refl
  handle_lem (delete (deleted_final_state_unknown key)) q keyed = refl
  handle_lem (delete (other_object text)) q keyed = refl
  handle_lem (update (service old) (service svc)) q keyed = rw (keyed svc) refl
  handle_lem (update (service old) (deleted_final_state_unknown key)) q keyed = refl
  handle_lem (update (service old) (other_object text)) q keyed = refl
  handle_lem (update (deleted_final_state_unknown key) obj) q keyed = refl
  handle_lem (update (other_object text) obj) q keyed = refl

  -- With client-go's keys of Services, their namespace and name, or the name alone where the namespace
  -- is empty: any sequence of calls of the watcher's
  -- three handlers panics if one of them is given an object that is not a Service, such as
  -- client-go's stand-in for an object whose deletion was missed; otherwise it puts, for each event
  -- in order, the key of its new Service into the controller's queue, or of the deleted one, and
  -- changes nothing else of the queue.
  pub handle_all_lem :
      (es : List Event) (q : Queue wq)
      → ((svc : KubeService) → informers.key_of (service svc) ≡ some (meta_namespace_key svc))
      → handle_all informers es q ≡ outcome (event_services es) q
  handle_all_lem [] q keyed = refl
  handle_all_lem (e ∷ es) q keyed = elim (Option-cases (event_service e)) [
    | inl n ↦ rw (handle_lem e q keyed, n, event_services) refl
    | inr (svc, n) ↦
        let rest =
          handle_all_lem es (record q { items = wq.enqueue q.items (meta_namespace_key svc) })
            keyed in
        elim (Option-cases (event_services es)) [
          | inl m ↦ rw (handle_lem e q keyed, n, event_services, rest, m) refl
          | inr (svcs, m) ↦ rw (handle_lem e q keyed, n, event_services, rest, m) refl
        ]
  ]
