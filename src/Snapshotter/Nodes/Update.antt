-- ===== src/Snapshotter/Nodes/Update.antt =====
-- getResourcesFromCache and the two updates of a node's stream in xds/snapshotter.go: what is found
-- for the names that a stream asks for, and where it is kept.
use semaphore_xds.Prelude.{
  ℕ, String, Option, none, some, List, [], ◌∷◌, ◌++◌, if◌then◌else◌, ◌==◌, string_eq, nat_eq,
}
use Prim.Native.String.{◌++◌ as concat}
use semaphore_xds.Prelude.GoMap.{GoMap, lookup, insert}
use semaphore_xds.Prelude.Result.{Result, ok, err, panic, ◌>>=◌}
use semaphore_xds.Resource.{Resource}
use semaphore_xds.Dummy.{make_dummy_resources}
use semaphore_xds.Snapshotter.Library.{Library}
use semaphore_xds.Snapshotter.State.{empty_node_id, Node, Snapshotter, map_type_url}

-- the loop over names: those that are not found are skipped with a warning
unfoldable pub collect : GoMap String Resource → List String → List Resource → List Resource
collect full_resources [] res = res
collect full_resources (name ∷ names) res =
    collect full_resources names
      (elim (lookup name full_resources) [ none ↦ res | some r ↦ res ++ r ∷ [] ])

-- An error in Go beside another message: fmt.Errorf("…: %s", err)
abbrev pub wrap {ℓ} : {A : Type ℓ} → String → Result A → Result A
wrap message (ok a) = ok a
wrap message (err e) = err (concat message e)
wrap message panic = panic

-- the rest of getResourcesFromCache, once the full snapshot is there or not
abbrev pub from_snapshot :
    (lib : Library) → String → List String → Option (lib.Snapshot) → Result (List Resource)
from_snapshot lib type_url names none = err "Cannot get full resources snaphot from cache"
from_snapshot lib type_url names (some snap) =
    ok (collect (lib.get_resources snap type_url) names [])

module _ {lib : Library} where
  -- The snapshot is a nil interface, and to call it is a panic, if the type is of neither kind.
  unfoldable pub get_resources_from_cache :
      Snapshotter lib → String → List String → Result (List Resource)
  unfolding collect
  get_resources_from_cache s type_url names =
      if map_type_url type_url == "services"
      then from_snapshot lib type_url names (lib.get_snapshot s.services_cache empty_node_id)
      else if map_type_url type_url == "endpoints"
      then from_snapshot lib type_url names (lib.get_snapshot s.endpoints_cache empty_node_id)
      else panic

  -- the resources that both update functions store for the requested names
  unfoldable pub new_snap_resources :
      Snapshotter lib → String → List String → Result (List Resource)
  unfolding get_resources_from_cache
  new_snap_resources s type_url names =
      if s.localhost_endpoints
      then wrap "Cannot make dummy resources for localhost mode: "
          (make_dummy_resources lib.pack type_url names)
      else wrap "Cannot get resources from cache: " (get_resources_from_cache s type_url names)

  unfoldable pub update_node_stream_service_resources :
      Snapshotter lib → String → String → Node → ℕ → List String → Result Node
  unfolding new_snap_resources
  update_node_stream_service_resources s node_id type_url node stream_id names =
      elim (lookup stream_id node.resources) [
        | none ↦ err "Cannot find service resources to update for node in stream context"
        | some res ↦ do
          new ← new_snap_resources s type_url names
          ok (record node {
            resources =
                insert stream_id
                  (record res {
                    services = insert type_url new res.services;
                    services_names = insert type_url names res.services_names;
                  })
                  node.resources;
          })
      ]

  unfoldable pub update_node_stream_endpoints_resources :
      Snapshotter lib → String → String → Node → ℕ → List String → Result Node
  unfolding new_snap_resources
  update_node_stream_endpoints_resources s node_id type_url node stream_id names =
      elim (lookup stream_id node.resources) [
        | none ↦ err "Cannot find endpoint resources to update for node in stream context"
        | some res ↦ do
          new ← new_snap_resources s type_url names
          ok (record node {
            resources =
                insert stream_id
                  (record res {
                    endpoints = insert type_url new res.endpoints;
                    endpoints_names = insert type_url names res.endpoints_names;
                  })
                  node.resources;
          })
      ]
