-- ===== src/Queue.antt =====
-- The queue of queue/queue.go: its bookkeeping of requeued keys around client-go's rate-limited
-- work queue. Logging and metrics are left out.
pub mod Requeued
use semaphore_xds.Prelude.{
  String, Bool, true, false, ℕ, Option, none, some, List, [], ◌∷◌, ◌++◌, if◌then◌else◌, ◌==◌,
  string_eq, contains,
}

-- workqueue.RateLimitingInterface and the keys of client-go's cache package
pub record WorkQueue : Type 1 where
  pub Items : Type 0
  -- Get: the next key and the queue without it; `none` after a shutdown
  pub get_next : Items → Option (String × Items)
  pub enqueue : Items → String → Items
  pub add_rate_limited : Items → String → Items
  pub forget_key : Items → String → Items
  pub done : Items → String → Items
  pub shut_down : Items → Items
  -- SplitMetaNamespaceKey: the namespace and the name; `none` is an error
  pub split_key : String → Option (String × String)

pub record Queue (wq : WorkQueue) : Type 0 where
  pub items : wq.Items
  pub requeued : List String

unfoldable pub add_requeued : String → List String → List String
add_requeued key requeued = if contains requeued key then requeued else requeued ++ key ∷ []

-- removes the first one that is there
unfoldable pub remove_requeued : String → List String → List String
remove_requeued key [] = []
remove_requeued key (k ∷ ks) = if k == key then ks else k ∷ remove_requeued key ks

-- reconcileFunc(name, namespace), with the state that it changes; true for a nil error
abbrev pub Reconcile : Type 0 → Type 0
Reconcile State = State → String → String → State × Bool

module _ {wq : WorkQueue} where
  -- the empty queue of NewQueue is client-go's
  unfoldable pub new_queue : wq.Items → Queue wq
  new_queue items = record { items = items; requeued = [] }

  -- Add, with the object's key; `none` where the object has none
  unfoldable pub add_object : Queue wq → Option String → Queue wq
  add_object q none = q
  add_object q (some key) = record q { items = wq.enqueue q.items key }

  unfoldable pub requeue : Queue wq → String → Queue wq
  unfolding add_requeued
  requeue q key = record {
    items = wq.add_rate_limited q.items key;
    requeued = add_requeued key q.requeued;
  }

  unfoldable pub forget : Queue wq → String → Queue wq
  unfolding remove_requeued
  forget q key = record {
    items = wq.forget_key q.items key;
    requeued = remove_requeued key q.requeued;
  }

  unfoldable pub stop : Queue wq → Queue wq
  stop q = record q { items = wq.shut_down q.items }

  -- what follows the call of reconcileFunc
  abbrev pub settle : Queue wq → String → Bool → Queue wq
  settle q key true = forget q key
  settle q key false = requeue q key

  -- the rest of processItem behind Get, before the deferred Done
  unfoldable pub process_key :
      {State : Type 0}
      → Reconcile State
      → State
      → Queue wq
      → String
      → Option (String × String)
      → State × Queue wq
  unfolding requeue forget
  process_key reconcile state q key none = (state, forget q key)
  process_key reconcile state q key (some (namespace, name)) =
      let (state', is_nil) = reconcile state name namespace in (state', settle q key is_nil)

  -- the state, the queue and the result: false after a shutdown
  unfoldable pub process_item :
      {State : Type 0} → Reconcile State → State → Queue wq → State × Queue wq × Bool
  unfolding process_key
  process_item reconcile state q = elim (wq.get_next q.items) [
    | none ↦ (state, q, false)
    | some (key, items) ↦
        let (state', q') =
          process_key reconcile state (record q { items = items }) key (wq.split_key key) in
        (state', record q' { items = wq.done q'.items key }, true)
  ]
