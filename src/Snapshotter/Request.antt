-- ===== src/Snapshotter/Request.antt =====
-- What a request for services comes to: the node's own snapshot has what the stream asks for.
pub mod Endpoints
use semaphore_xds.Prelude.{ℕ, String, ◌≡◌, refl, true, some, List, [], string_eq, nat_eq}
use semaphore_xds.Prelude.Decimal.{inc32, itoa}
use semaphore_xds.Prelude.GoMap.{GoMap, lookup, insert, lookup-insert_self}
use semaphore_xds.Prelude.Groups.{held, values_of, held-pushes}
use semaphore_xds.Prelude.Result.{ok}
use semaphore_xds.Resource.{Resource}
use semaphore_xds.Snapshotter.Library.{Library, IsLawful}
use semaphore_xds.Snapshotter.State.{
  Snapshotter, Node, NodeSnapshotResources, map_type_url, aggregate_node_resources,
}
use semaphore_xds.Snapshotter.Nodes.{
  node_service_snapshot, update_node_stream_service_resources, update_stream_node_resources,
}
use semaphore_xds.Snapshotter.Aggregate.{
  Within, typed_of_streams, typed_of_streams-Within, aggregate_streams-pushes,
}
use semaphore_xds.Snapshotter.Fresh.Services.{HasServices, new_resources-found}
use semaphore_xds.Snapshotter.Fresh.Found.{found_in}

-- The streams of a node, where one of them now holds what it asks for.
abbrev pub with_services :
    (lib : Library)
    → lib.Snapshot
    → Node
    → ℕ
    → NodeSnapshotResources
    → String
    → List String
    → GoMap ℕ NodeSnapshotResources
with_services lib full node id r t names =
    insert id
      (record r {
        services = insert t (found_in lib full t names) r.services;
        services_names = insert t names r.services_names;
      })
      node.resources

-- What a snapshot of services is made of, for such streams.
abbrev pub services_with :
    (lib : Library)
    → lib.Snapshot
    → Node
    → ℕ
    → NodeSnapshotResources
    → String
    → List String
    → GoMap String (List Resource)
services_with lib full node id r t names =
    aggregate_node_resources "services" (with_services lib full node id r t names)

aggregate-held :
    (t : String) (streams : GoMap ℕ NodeSnapshotResources)
    → held (lookup t (aggregate_node_resources "services" streams))
      ≡ values_of t (typed_of_streams (λ r. r.services) streams)
unfolding aggregate_node_resources lookup
aggregate-held t streams =
    rw (aggregate_streams-pushes (λ r. r.services) streams [])
      (held-pushes t (typed_of_streams (λ r. r.services) streams) [])

module _ {lib : Library} (law : IsLawful lib) (full snapshot : lib.Snapshot) where
  -- With a snapshot cache that keeps its nodes apart and outside the localhost mode, where the full
  -- snapshot of the services is there: for a node with the stream and a type of the services, if
  -- the resources of the node's streams, with the stream's new ones among them, can be made into a
  -- snapshot with the node's next version and the cache takes it, then updateStreamNodeResources
  -- returns no error, that snapshot is the node's, and in what it was made of the resources of the type
  -- have in one piece, in order, all those of the full snapshot under the names that are asked for.
  pub update_stream_node_resources-delivers :
      (s : Snapshotter lib) (node_id t : String) (id : ℕ) (names : List String) (node : Node)
      (r : NodeSnapshotResources)
      → HasServices full s
      → map_type_url t ≡ "services"
      → lookup node_id s.nodes ≡ some node
      → lookup id node.resources ≡ some r
      → lib.new_snapshot
          (itoa (inc32 node.service_snap_version))
          (services_with lib full node id r t names)
        ≡ some snapshot
      → (lib.set_snapshot s.services_cache node_id snapshot).1 ≡ true
      → ((update_stream_node_resources s node_id t id names).1 ≡ ok tt)
        × (lib.get_snapshot
              (update_stream_node_resources s node_id t id names).0.services_cache
              node_id
            ≡ some snapshot)
        × Within
            (found_in lib full t names)
            (held (lookup t (services_with lib full node id r t names)))
  unfolding update_stream_node_resources update_node_stream_service_resources node_service_snapshot
  update_stream_node_resources-delivers s node_id t id names node r has kind here stream made set =
      (
        rw
            (
              here,
              kind,
              stream,
              new_resources-found full s has t names kind,
              made,
              set,
              update_stream_node_resources,
              update_node_stream_service_resources,
              node_service_snapshot,
            )
            refl,
        rw
            (
              here,
              kind,
              stream,
              new_resources-found full s has t names kind,
              made,
              update_stream_node_resources,
              update_node_stream_service_resources,
              node_service_snapshot,
            )
            (law.get_set_self s.services_cache node_id snapshot set),
        rw (aggregate-held t (with_services lib full node id r t names)) (
            typed_of_streams-Within (λ x. x.services) id t _ (found_in lib full t names)
              (with_services lib full node id r t names) (lookup-insert_self id _ node.resources)
              (lookup-insert_self t (found_in lib full t names) r.services)),
      )
