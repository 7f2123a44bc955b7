-- ===== src/Snapshotter/Nodes.antt =====
-- The operations of xds/snapshotter.go on nodes. Go changes a node through its pointer; here an
-- operation returns the node, or the state with the node in it, and errors come beside the state
-- as it is when they occur.
mod Update
unfoldable pub use Update.*
use semaphore_xds.Prelude.{
  ℕ, String, Bool, true, false, not, Option, none, some, List, [], ◌∷◌, ◌++◌, if◌then◌else◌, ◌==◌,
  string_eq, nat_eq,
}
use Prim.Native.String.{◌++◌ as concat}
use semaphore_xds.Prelude.Decimal.{pos, inc32, itoa}
use semaphore_xds.Prelude.GoMap.{GoMap, lookup, insert, delete}
use semaphore_xds.Prelude.Result.{Result, ok, err, panic, ◌>>=◌}
use semaphore_xds.Resource.{Resource}
use semaphore_xds.Dummy.{make_dummy_resources}
use semaphore_xds.Snapshotter.Library.{Library}
use semaphore_xds.Snapshotter.State.{
  empty_node_id, Node, Snapshotter, map_type_url, make_empty_node_resources,
  aggregate_node_resources, resources_match,
}

abbrev pub is_nil {ℓ} : {A : Type ℓ} → List A → Bool
is_nil [] = true
is_nil (x ∷ xs) = false

-- The names of a type that is not in the map are Go's nil slice.
abbrev pub names_of : Option (List String) → List String
names_of none = []
names_of (some names) = names

-- The error of a snapshot, where it is not nil, is the library's.
abbrev pub snapshot_error : Bool → Result (Unit {0})
snapshot_error true = ok tt
snapshot_error false = err "snapshot"

module _ {lib : Library} where
  -- The node with its new version, the cache, and whether the error is nil.
  unfoldable pub node_service_snapshot : Snapshotter lib → String → Node → Node × lib.Cache × Bool
  node_service_snapshot s node_id node =
      let node' : Node = record node { service_snap_version = inc32 node.service_snap_version } in
      elim (lib.new_snapshot (itoa node'.service_snap_version)
        (aggregate_node_resources "services" node.resources)) [
          | none ↦ (node', s.services_cache, false)
          | some snapshot ↦
              let (cache, is_ok) = lib.set_snapshot s.services_cache node_id snapshot in
              (node', cache, is_ok)
        ]

  unfoldable pub node_endpoints_snapshot : Snapshotter lib → String → Node → Node × lib.Cache × Bool
  node_endpoints_snapshot s node_id node =
      let node' : Node = record node {
        endpoints_snap_version = inc32 node.endpoints_snap_version;
      } in
      elim (lib.new_snapshot (itoa node'.endpoints_snap_version)
        (aggregate_node_resources "endpoints" node.resources)) [
          | none ↦ (node', s.endpoints_cache, false)
          | some snapshot ↦
              let (cache, is_ok) = lib.set_snapshot s.endpoints_cache node_id snapshot in
              (node', cache, is_ok)
        ]

  -- the state after a snapshot of a node, with the node put back
  abbrev pub put_service_snapshot :
      Snapshotter lib → String → Node × lib.Cache × Bool → Snapshotter lib
  put_service_snapshot s node_id (node, cache, is_ok) = record s {
    nodes = insert node_id node s.nodes;
    services_cache = cache;
  }

  abbrev pub put_endpoints_snapshot :
      Snapshotter lib → String → Node × lib.Cache × Bool → Snapshotter lib
  put_endpoints_snapshot s node_id (node, cache, is_ok) = record s {
    nodes = insert node_id node s.nodes;
    endpoints_cache = cache;
  }

  unfoldable pub clear_node_cache : Snapshotter lib → String → Snapshotter lib
  clear_node_cache s node_id = record s {
    services_cache = lib.clear_snapshot s.services_cache node_id;
    endpoints_cache = lib.clear_snapshot s.endpoints_cache node_id;
  }

  unfoldable pub add_or_update_node : Snapshotter lib → String → String → ℕ → Snapshotter lib
  add_or_update_node s node_id address stream_id =
      if node_id == empty_node_id then s else elim (lookup node_id s.nodes) [
        | none ↦ record s {
          nodes =
              insert node_id
                (record {
                  address = address;
                  resources = (stream_id, make_empty_node_resources) ∷ [];
                  service_snap_version = pos 0;
                  endpoints_snap_version = pos 0;
                })
                s.nodes;
        }
        | some node ↦ elim (lookup stream_id node.resources) [
          | some _ ↦ s
          | none ↦ record s {
            nodes =
                insert node_id
                  (record node {
                    resources = insert stream_id make_empty_node_resources node.resources;
                  })
                  s.nodes;
          }
        ]
      ]

  -- the snapshots of a node that keeps other streams; their errors are logged
  unfoldable pub resnap_node : Snapshotter lib → String → Node → Snapshotter lib
  unfolding node_service_snapshot node_endpoints_snapshot
  resnap_node s node_id node =
      let r : Node × lib.Cache × Bool = node_service_snapshot s node_id node in
      let s' : Snapshotter lib = put_service_snapshot s node_id r in
      put_endpoints_snapshot s' node_id (node_endpoints_snapshot s' node_id r.0)

  unfoldable pub delete_node_stream : Snapshotter lib → String → ℕ → Snapshotter lib
  unfolding clear_node_cache resnap_node
  delete_node_stream s node_id stream_id =
      if node_id == empty_node_id then s else elim (lookup node_id s.nodes) [
        | none ↦ s
        | some node ↦
            let node' : Node = record node { resources = delete stream_id node.resources } in
            if is_nil node'.resources
            then clear_node_cache (record s { nodes = delete node_id s.nodes }) node_id
            else resnap_node s node_id node'
      ]

  unfoldable pub delete_node : Snapshotter lib → String → Snapshotter lib
  unfolding clear_node_cache
  delete_node s node_id =
      if node_id == empty_node_id
      then s
      else clear_node_cache (record s { nodes = delete node_id s.nodes }) node_id

  unfoldable pub need_to_update_snapshot :
      Snapshotter lib → String → String → ℕ → List String → Result Bool
  need_to_update_snapshot s node_id type_url stream_id names = elim (lookup node_id s.nodes) [
    | none ↦ ok false
    | some node ↦ elim (lookup stream_id node.resources) [
      | none ↦ err "Stream not found for node"
      | some r ↦
          if map_type_url type_url == "services"
          then ok (not (resources_match (names_of (lookup type_url r.services_names)) names))
          else if map_type_url type_url == "endpoints"
          then ok (not (resources_match (names_of (lookup type_url r.endpoints_names)) names))
          else ok false
    ]
  ]

  abbrev pub services_updated :
      Snapshotter lib → String → Result Node → Snapshotter lib × Result (Unit {0})
  services_updated s node_id (ok node) =
      let r : Node × lib.Cache × Bool = node_service_snapshot s node_id node in
      (put_service_snapshot s node_id r, snapshot_error r.2)
  services_updated s node_id (err e) = (s, err e)
  services_updated s node_id panic = (s, panic)

  abbrev pub endpoints_updated :
      Snapshotter lib → String → Result Node → Snapshotter lib × Result (Unit {0})
  endpoints_updated s node_id (ok node) =
      let r : Node × lib.Cache × Bool = node_endpoints_snapshot s node_id node in
      (put_endpoints_snapshot s node_id r, snapshot_error r.2)
  endpoints_updated s node_id (err e) = (s, err e)
  endpoints_updated s node_id panic = (s, panic)

  unfoldable pub update_stream_node_resources :
      Snapshotter lib → String → String → ℕ → List String → Snapshotter lib × Result (Unit {0})
  unfolding update_node_stream_service_resources update_node_stream_endpoints_resources
      node_service_snapshot node_endpoints_snapshot
  update_stream_node_resources s node_id type_url stream_id names = elim (lookup node_id s.nodes) [
    | none ↦ (s, err "Node not found for updating snapshot resources")
    | some node ↦
        if map_type_url type_url == "services"
        then services_updated s node_id
            (update_node_stream_service_resources s node_id type_url node stream_id names)
        else if map_type_url type_url == "endpoints"
        then endpoints_updated s node_id
            (update_node_stream_endpoints_resources s node_id type_url node stream_id names)
        else (s, ok tt)
  ]
