-- ===== src/Snapshotter/Fresh/Endpoints.antt =====
-- SnapEndpoints gives every stream the endpoints that it asks for.
use semaphore_xds.Prelude.{
  ◌≢◌, ℕ, String, ◌≡◌, refl, ◌∙◌, ap, true, false, some, List, [], ◌∷◌, All, inl, inr, Option-cases,
  string_eq, nat_eq,
}
use semaphore_xds.Prelude.GoMap.{GoMap, lookup, insert}
use semaphore_xds.Prelude.Result.{Result, ok, err, panic}
use semaphore_xds.Snapshotter.Library.{Library, IsLawful}
use semaphore_xds.Snapshotter.State.{
  Snapshotter, NodeSnapshotResources, Node, map_type_url, empty_node_id,
}
use semaphore_xds.Snapshotter.Snap.{
  all_endpoints, finish, snap_endpoints, snap_translated_endpoints, snap_endpoint_resources,
  endpoints_nodes_loop,
}
use semaphore_xds.Snapshotter.Fresh.{
  insert-Matches_self, insert-Matches, set_stream-Matches, NodeMatches, FreshUpdate, Fields,
}
use semaphore_xds.Snapshotter.Nodes.{
  put_endpoints_snapshot, node_endpoints_snapshot, get_resources_from_cache,
  update_node_stream_endpoints_resources, new_snap_resources,
}
use semaphore_xds.Snapshotter.Invariant.{IsWellFormed, node_endpoints_snapshot-node, IsNode}
use semaphore_xds.Snapshotter.Isolation.{node_endpoints_snapshot-get}
use semaphore_xds.Snapshotter.Fresh.Found.{found_in, collect_lem}
use semaphore_xds.Snapshotter.Fresh.Unchanged.{AllAskedOnce, SameAsks}
use semaphore_xds.Snapshotter.Fresh.Snaps.{snap_endpoints-KeepsAsks}
use semaphore_xds.Endpoint.{
  XdsEndpointStore, endpoint_slices_to_cluster_load_assignments_with_names,
}
use semaphore_xds.Snapshotter.Fresh.Nodes.{
  NodesMatch-all, EntryMatches, NodesMatch-cons, NodesMatch-nil, NodesMatch,
}
use semaphore_xds.Snapshotter.Fresh.Loops.{update_streams_lem}
use semaphore_xds.Snapshotter.Loops.{endpoints_of}
use semaphore_xds.Prelude.Decimal.{inc32, itoa}
use semaphore_xds.Resource.{Resource, endpoint_type}
use semaphore_xds.Snapshotter.Safe.{Returns, bind-Returns, Returns-map}

-- What the endpoints of a stream are.
abbrev pub endpoints_fields : Fields
endpoints_fields = record { asked = λ r. r.endpoints_names; holds = λ r. r.endpoints }

-- There is no error, and each stream of each node holds what it asks for.
abbrev pub EndpointsServed :
    {lib : Library} → lib.Snapshot → Snapshotter lib × Result (Unit {0}) → Type 0
EndpointsServed {lib} full (t, r) =
    (r ≡ ok tt)
    × ((n : String) → EntryMatches (found_in lib full) endpoints_fields (lookup n t.nodes))

-- The full snapshot of the endpoints is there, and the server is not in the localhost mode.
pub record HasEndpoints {lib : Library} (full : lib.Snapshot) (s : Snapshotter lib) : Type 0 where
  pub full_endpoints : lib.get_snapshot s.endpoints_cache empty_node_id ≡ some full
  pub not_localhost : s.localhost_endpoints ≡ false

module _ {lib : Library} (full : lib.Snapshot) (s : Snapshotter lib)
    (has : HasEndpoints full s) where
  pub new_resources-found :
      (t : String) (names : List String)
      → map_type_url t ≡ "endpoints"
      → new_snap_resources s t names ≡ ok (found_in lib full t names)
  unfolding new_snap_resources get_resources_from_cache
  new_resources-found t names k =
      rw (has.not_localhost, k, has.full_endpoints) (ap ok (collect_lem lib full t names))

  endpoints_update-Fresh :
      (node_id : String)
      → FreshUpdate
          (found_in lib full)
          endpoints_fields
          "endpoints"
          (update_node_stream_endpoints_resources s node_id)
  unfolding update_node_stream_endpoints_resources
  endpoints_update-Fresh node_id t node id names k =
      elim (Option-cases (lookup id node.resources)) [
        | inl e ↦ rw (e, update_node_stream_endpoints_resources) ((λ i u m. m), rw e tt)
        | inr (r, e) ↦
            let r' : NodeSnapshotResources = record r {
              endpoints = insert t (found_in lib full t names) r.endpoints;
              endpoints_names = insert t names r.endpoints_names;
            } in
            rw (e, update_node_stream_endpoints_resources, new_resources-found t names k)
              (set_stream-Matches (found_in lib full) endpoints_fields id t r r' node e
                (λ u m.
                  insert-Matches (found_in lib full) t u names r.endpoints_names r.endpoints m)
                (insert-Matches_self (found_in lib full) t names r.endpoints_names r.endpoints))
      ]

module _ {lib : Library} (law : IsLawful lib) (full : lib.Snapshot) where
  put-HasEndpoints :
      (s : Snapshotter lib) (n : String) (node : Node)
      → n ≢ empty_node_id
      → HasEndpoints full s
      → HasEndpoints full (put_endpoints_snapshot s n (node_endpoints_snapshot s n node))
  put-HasEndpoints s n node other has = record {
    full_endpoints =
        node_endpoints_snapshot-get law s n empty_node_id other node ∙ has.full_endpoints;
    not_localhost = has.not_localhost;
  }

  snapshot_node-Matches :
      (s : Snapshotter lib) (n : String) (node : Node)
      → ((id : ℕ) (t : String) → NodeMatches (found_in lib full) endpoints_fields node id t)
      → (id : ℕ) (t : String)
      → NodeMatches (found_in lib full) endpoints_fields (node_endpoints_snapshot s n node).0 id t
  snapshot_node-Matches s n node h id t = rw (node_endpoints_snapshot-node s n node) (h id t)

  -- The nodes of a list match after the loop over them.
  abbrev LoopMatches : GoMap String Node → Snapshotter lib → Snapshotter lib → Type 0
  LoopMatches nodes s t = NodesMatch (found_in lib full) endpoints_fields nodes s.nodes t.nodes

  endpoints_nodes_loop-Matches :
      (nodes : GoMap String Node) (s : Snapshotter lib)
      → All IsNode nodes
      → HasEndpoints full s
      → Returns (LoopMatches nodes s) (endpoints_nodes_loop nodes s)
  unfolding endpoints_nodes_loop
  endpoints_nodes_loop-Matches [] s h has =
      NodesMatch-nil (found_in lib full) endpoints_fields s.nodes
  endpoints_nodes_loop-Matches ((n, node) ∷ nodes) s h has =
      bind-Returns
        (λ node'.
          (id : ℕ) (t : String) → NodeMatches (found_in lib full) endpoints_fields node' id t)
        (LoopMatches ((n, node) ∷ nodes) s) _ _
        (update_streams_lem (found_in lib full) endpoints_fields "endpoints" _
          (endpoints_update-Fresh full s has n) node (endpoints_of node.resources (h.0).2))
        λ node' m.
          let s' : Snapshotter lib =
            put_endpoints_snapshot s n (node_endpoints_snapshot s n node') in
          Returns-map (LoopMatches nodes s') (LoopMatches ((n, node) ∷ nodes) s) _
            (endpoints_nodes_loop-Matches nodes s' h.1 (put-HasEndpoints s n node' (h.0).0 has))
            λ t rest.
              NodesMatch-cons (found_in lib full) endpoints_fields n node
                (node_endpoints_snapshot s n node').0 nodes s.nodes t.nodes
                (snapshot_node-Matches s n node' m) rest

  finish-EndpointsServed :
      (s s' : Snapshotter lib) (m : Result (Snapshotter lib))
      → Returns (LoopMatches s.nodes s) m
      → EndpointsServed full (finish s' m)
  finish-EndpointsServed s s' (ok t) h =
      (refl, NodesMatch-all (found_in lib full) endpoints_fields s.nodes t.nodes h)
  finish-EndpointsServed s s' (err e) h = absurd h
  finish-EndpointsServed s s' panic h = absurd h

  snap_endpoint_resources-Served :
      (s : Snapshotter lib) (named : GoMap String Resource) (eds : List Resource)
      → IsWellFormed s.nodes
      → s.localhost_endpoints ≡ false
      → lib.new_snapshot (itoa (inc32 s.endpoints_snap_version)) ((endpoint_type, eds) ∷ [])
        ≡ some full
      → (lib.set_snapshot s.endpoints_cache empty_node_id full).1 ≡ true
      → EndpointsServed full (snap_endpoint_resources s (ok named) eds)
  unfolding snap_endpoint_resources
  snap_endpoint_resources-Served s named eds w mode made set =
      let s2 : Snapshotter lib = record s {
        endpoints_snap_version = inc32 s.endpoints_snap_version;
        endpoints_cache = (lib.set_snapshot s.endpoints_cache empty_node_id full).0;
      } in
      let s3 : Snapshotter lib = record s2 {
        delta_eds_cache = lib.set_resources s.delta_eds_cache named;
      } in
      let has : HasEndpoints full s3 = record {
        full_endpoints = law.get_set_self s.endpoints_cache empty_node_id full set;
        not_localhost = mode;
      } in
      rw (made, set, snap_endpoint_resources)
        (finish-EndpointsServed s3 s2 (endpoints_nodes_loop s3.nodes s3)
          (endpoints_nodes_loop-Matches s3.nodes s3 w.1 has))

  -- The same without what is asked for.
  pub snap_endpoints-Matched :
      (s : Snapshotter lib) (store : XdsEndpointStore) (named : GoMap String Resource)
      (eds : List Resource)
      → IsWellFormed s.nodes
      → s.localhost_endpoints ≡ false
      → all_endpoints s store ≡ ok eds
      → endpoint_slices_to_cluster_load_assignments_with_names store "" ≡ ok named
      → lib.new_snapshot (itoa (inc32 s.endpoints_snap_version)) ((endpoint_type, eds) ∷ [])
        ≡ some full
      → (lib.set_snapshot s.endpoints_cache empty_node_id full).1 ≡ true
      → EndpointsServed full (snap_endpoints s store)
  unfolding snap_endpoints snap_translated_endpoints
  snap_endpoints-Matched s store named eds w mode translated names made set =
      rw (translated, names, snap_endpoints, snap_translated_endpoints)
        (snap_endpoint_resources-Served s named eds w mode made set)

  -- With a snapshot cache that keeps its nodes apart, a well-formed nodes map in which no node and no
  -- stream has a key twice, and outside the localhost mode: where a store's endpoint slices are
  -- translated without an error or a panic, the resources can be made into a snapshot with the next
  -- version and the cache takes it, SnapEndpoints returns no error, each stream of each node asks for
  -- the same names of the same types as before, and it then holds exactly the new snapshot's load
  -- assignments under the names of endpoints that it asks for, in their order.
  pub snap_endpoints-Served :
      (s : Snapshotter lib) (store : XdsEndpointStore) (named : GoMap String Resource)
      (eds : List Resource)
      → IsWellFormed s.nodes
      → AllAskedOnce s.nodes
      → s.localhost_endpoints ≡ false
      → all_endpoints s store ≡ ok eds
      → endpoint_slices_to_cluster_load_assignments_with_names store "" ≡ ok named
      → lib.new_snapshot (itoa (inc32 s.endpoints_snap_version)) ((endpoint_type, eds) ∷ [])
        ≡ some full
      → (lib.set_snapshot s.endpoints_cache empty_node_id full).1 ≡ true
      → EndpointsServed full (snap_endpoints s store)
        × SameAsks s.nodes (snap_endpoints s store).0.nodes
  snap_endpoints-Served s store named eds w once mode translated names made set = (
    snap_endpoints-Matched s store named eds w mode translated names made set,
    (snap_endpoints-KeepsAsks s w.0 once store).1,
  )
