-- ===== src/Snapshotter/Safe.antt =====
-- Results that are no panic, and whose value has a property: which updates of a node's resources
-- are such.
use semaphore_xds.Prelude.{
  ◌⊎◌, String, ◌≡◌, List, [], ◌∷◌, Option, none, some, Option-cases, Bool-cases, inl, inr, ◌==◌,
  string_eq, nat_eq,
}
use semaphore_xds.Prelude.Result.{Result, ok, err, panic, ◌>>=◌}
use semaphore_xds.Resource.{Resource, listener_type}
use semaphore_xds.Service.Build.{Pack, make_manager}
use semaphore_xds.Dummy.{dummy_listeners, make_dummy_resources, dummy_route_for}
use semaphore_xds.Snapshotter.Library.{Library}
use semaphore_xds.Snapshotter.State.{Node, Snapshotter, map_type_url}
use semaphore_xds.Snapshotter.Nodes.{
  wrap, from_snapshot, get_resources_from_cache, new_snap_resources,
}
use semaphore_xds.Snapshotter.Snap.{or_logged}

-- The result is no panic, and a value that is returned has the property.
abbrev pub Safe : {A : Type 0} → (A → Type 0) → Result A → Type 0
Safe P (ok a) = P a
Safe P (err e) = Unit
Safe P panic = ⊥

abbrev pub Anything : {A : Type 0} → A → Type 0
Anything a = Unit

pub bind-Safe :
    {A B : Type 0} (P : A → Type 0) (Q : B → Type 0) (m : Result A) (f : A → Result B)
    → Safe P m
    → ((a : A) → P a → Safe Q (f a))
    → Safe Q (m >>= f)
bind-Safe P Q (ok a) f h k = k a h
bind-Safe P Q (err e) f h k = tt
bind-Safe P Q panic f h k = h

-- There is a value, and it has the property.
abbrev pub Returns : {A : Type 0} → (A → Type 0) → Result A → Type 0
Returns P (ok a) = P a
Returns P (err e) = ⊥
Returns P panic = ⊥

pub bind-Returns :
    {A B : Type 0} (P : A → Type 0) (Q : B → Type 0) (m : Result A) (f : A → Result B)
    → Returns P m
    → ((a : A) → P a → Returns Q (f a))
    → Returns Q (m >>= f)
bind-Returns P Q (ok a) f h k = k a h
bind-Returns P Q (err e) f h k = h
bind-Returns P Q panic f h k = h

pub Returns-map :
    {A : Type 0} (P Q : A → Type 0) (m : Result A)
    → Returns P m
    → ((a : A) → P a → Q a)
    → Returns Q m
Returns-map P Q (ok a) h k = k a h
Returns-map P Q (err e) h k = h
Returns-map P Q panic h k = h

wrap-Safe :
    {A : Type 0} (message : String) (m : Result A)
    → Safe Anything m
    → Safe Anything (wrap message m)
wrap-Safe message (ok a) h = tt
wrap-Safe message (err e) h = tt
wrap-Safe message panic h = h

pub or_logged-Safe :
    (P : Node → Type 0) (node : Node) (m : Result Node)
    → P node
    → Safe P m
    → Safe P (or_logged node m)
or_logged-Safe P node (ok n) p h = h
or_logged-Safe P node (err e) p h = p
or_logged-Safe P node panic p h = h

dummy_listeners-Safe :
    (pack : Pack) (names : List String) (res : List Resource)
    → Safe Anything (dummy_listeners pack names res)
unfolding dummy_listeners
dummy_listeners-Safe pack [] res = tt
dummy_listeners-Safe pack (r ∷ names) res =
    elim (Option-cases (make_manager pack (dummy_route_for r))) [
      | inl e ↦ rw (e, dummy_listeners) tt
      | inr (m, e) ↦ rw (e, dummy_listeners) (dummy_listeners-Safe pack names _)
    ]

pub make_dummy_resources-Safe :
    (pack : Pack) (type_url : String) (names : List String)
    → Safe Anything (make_dummy_resources pack type_url names)
unfolding make_dummy_resources
make_dummy_resources-Safe pack type_url names = elim (Bool-cases (type_url == listener_type)) [
  | inl e ↦ rw e (bind-Safe Anything Anything _ _ (dummy_listeners-Safe pack names []) (λ a _. tt))
  | inr e ↦ rw e tt
]

-- The type is of one of the two kinds.
abbrev pub IsTyped : String → Type 0
IsTyped type_url = (map_type_url type_url ≡ "services") ⊎ (map_type_url type_url ≡ "endpoints")

from_snapshot-Safe :
    (lib : Library) (type_url : String) (names : List String) (o : Option (lib.Snapshot))
    → Safe Anything (from_snapshot lib type_url names o)
from_snapshot-Safe lib type_url names none = tt
from_snapshot-Safe lib type_url names (some s) = tt

module _ {lib : Library} (s : Snapshotter lib) where
  get_resources_from_cache-Safe :
      (type_url : String) (names : List String)
      → IsTyped type_url
      → Safe Anything (get_resources_from_cache s type_url names)
  unfolding get_resources_from_cache
  get_resources_from_cache-Safe type_url names (inl e) =
      rw e (from_snapshot-Safe lib type_url names _)
  get_resources_from_cache-Safe type_url names (inr e) =
      rw e (from_snapshot-Safe lib type_url names _)

  pub new_snap_resources-Safe :
      (type_url : String) (names : List String)
      → IsTyped type_url
      → Safe Anything (new_snap_resources s type_url names)
  unfolding new_snap_resources
  new_snap_resources-Safe type_url names h = elim (Bool-cases s.localhost_endpoints) [
    | inl e ↦ rw e (wrap-Safe _ _ (make_dummy_resources-Safe lib.pack type_url names))
    | inr e ↦ rw e (wrap-Safe _ _ (get_resources_from_cache-Safe type_url names h))
  ]
