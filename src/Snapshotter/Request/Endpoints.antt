-- ===== src/Snapshotter/Request/Endpoints.antt =====
-- What a request for endpoints comes to: the node's own snapshot has what the stream asks for.
use semaphore_xds.Prelude.{ℕ, String, ◌≡◌, refl, true, some, List, [], string_eq, nat_eq}
use semaphore_xds.Prelude.Decimal.{inc32, itoa}
use semaphore_xds.Prelude.GoMap.{GoMap, lookup, insert, lookup-insert_self}
use semaphore_xds.Prelude.Groups.{held, values_of, held-pushes}
use semaphore_xds.Prelude.Result.{ok}
use semaphore_xds.Resource.{Resource}
use semaphore_xds.Snapshotter.Library.{Library, IsLawful}
use semaphore_xds.Snapshotter.State.{
  Snapshotter, Node, NodeSnapshotResources, map_type_url, aggregate_node_resources,
}
use semaphore_xds.Snapshotter.Nodes.{
  node_endpoints_snapshot, update_node_stream_endpoints_resources, update_stream_node_resources,
}
use semaphore_xds.Snapshotter.Aggregate.{
  Within, typed_of_streams, typed_of_streams-Within, aggregate_streams-pushes,
}
use semaphore_xds.Snapshotter.Fresh.Found.{found_in}
use semaphore_xds.Snapshotter.Fresh.Endpoints.{HasEndpoints, new_resources-found}

-- The streams of a node, where one of them now holds what it asks for.
abbrev pub with_endpoints :
    (lib : Library)
    → lib.Snapshot
    → Node
    → ℕ
    → NodeSnapshotResources
    → String
    → List String
    → GoMap ℕ NodeSnapshotResources
with_endpoints lib full node id r t names =
    insert id
      (record r {
        endpoints = insert t (found_in lib full t names) r.endpoints;
        endpoints_names = insert t names r.endpoints_names;
      })
      node.resources

-- What a snapshot of endpoints is made of, for such streams.
abbrev pub endpoints_with :
    (lib : Library)
    → lib.Snapshot
    → Node
    → ℕ
    → NodeSnapshotResources
    → String
    → List String
    → GoMap String (List Resource)
endpoints_with lib full node id r t names =
    aggregate_node_resources "endpoints" (with_endpoints lib full node id r t names)

aggregate-held :
    (t : String) (streams : GoMap ℕ NodeSnapshotResources)
    → held (lookup t (aggregate_node_resources "endpoints" streams))
      ≡ values_of t (typed_of_streams (λ r. r.endpoints) streams)
unfolding aggregate_node_resources lookup
aggregate-held t streams =
    rw (aggregate_streams-pushes (λ r. r.endpoints) streams [])
      (held-pushes t (typed_of_streams (λ r. r.endpoints) streams) [])

module _ {lib : Library} (law : IsLawful lib) (full snapshot : lib.Snapshot) where
  -- With a snapshot cache that keeps its nodes apart and outside the localhost mode, where the full
  -- snapshot of the endpoints is there: for a node with the stream and the type of the endpoints, if
  -- the resources of the node's streams, with the stream's new ones among them, can be made into a
  -- snapshot with the node's next version of endpoints and the cache takes it, then
  -- updateStreamNodeResources returns no error, that snapshot is the node's, the cache of services is
  -- as before, and in what the snapshot was made of the resources of the type have in one piece, in
  -- order, all those of the full snapshot under the names that are asked for.
  pub update_stream_node_resources-delivers_endpoints :
      (s : Snapshotter lib) (node_id t : String) (id : ℕ) (names : List String) (node : Node)
      (r : NodeSnapshotResources)
      → HasEndpoints full s
      → map_type_url t ≡ "endpoints"
      → lookup node_id s.nodes ≡ some node
      → lookup id node.resources ≡ some r
      → lib.new_snapshot
          (itoa (inc32 node.endpoints_snap_version))
          (endpoints_with lib full node id r t names)
        ≡ some snapshot
      → (lib.set_snapshot s.endpoints_cache node_id snapshot).1 ≡ true
      → ((update_stream_node_resources s node_id t id names).1 ≡ ok tt)
        × (lib.get_snapshot
              (update_stream_node_resources s node_id t id names).0.endpoints_cache
              node_id
            ≡ some snapshot)
        × ((update_stream_node_resources s node_id t id names).0.services_cache ≡ s.services_cache)
        × Within
            (found_in lib full t names)
            (held (lookup t (endpoints_with lib full node id r t names)))
  unfolding update_stream_node_resources update_node_stream_endpoints_resources
      node_endpoints_snapshot
  update_stream_node_resources-delivers_endpoints s node_id t id names node r has kind here stream
        made set =
      (
        rw
            (
              here,
              kind,
              stream,
              new_resources-found full s has t names kind,
              made,
              set,
              update_stream_node_resources,
              update_node_stream_endpoints_resources,
              node_endpoints_snapshot,
            )
            refl,
        rw
            (
              here,
              kind,
              stream,
              new_resources-found full s has t names kind,
              made,
              update_stream_node_resources,
              update_node_stream_endpoints_resources,
              node_endpoints_snapshot,
            )
            (law.get_set_self s.endpoints_cache node_id snapshot set),
        rw
            (
              here,
              kind,
              stream,
              new_resources-found full s has t names kind,
              update_stream_node_resources,
              update_node_stream_endpoints_resources,
              node_endpoints_snapshot,
            )
            refl,
        rw (aggregate-held t (with_endpoints lib full node id r t names)) (
            typed_of_streams-Within (λ x. x.endpoints) id t _ (found_in lib full t names)
              (with_endpoints lib full node id r t names) (lookup-insert_self id _ node.resources)
              (lookup-insert_self t (found_in lib full t names) r.endpoints)),
      )
