-- ===== src/Snapshotter/Fresh/Services.antt =====
-- SnapServices gives every stream the services that it asks for.
use semaphore_xds.Prelude.{
  ◌≢◌, ℕ, String, ◌≡◌, refl, ◌∙◌, ap, true, false, some, List, [], ◌∷◌, All, inl, inr, Option-cases,
  string_eq, nat_eq,
}
use semaphore_xds.Prelude.GoMap.{GoMap, lookup, insert}
use semaphore_xds.Prelude.Result.{Result, ok, err, panic}
use semaphore_xds.Snapshotter.Library.{Library, IsLawful}
use semaphore_xds.Snapshotter.State.{
  Snapshotter, NodeSnapshotResources, Node, map_type_url, empty_node_id,
}
use semaphore_xds.Snapshotter.Snap.{
  sync_services, all_services, finish, snap_services, snap_service_resources, service_nodes_loop,
}
use semaphore_xds.Snapshotter.Fresh.{
  insert-Matches_self, insert-Matches, set_stream-Matches, NodeMatches, FreshUpdate, Fields,
}
use semaphore_xds.Snapshotter.Nodes.{
  put_service_snapshot, node_service_snapshot, get_resources_from_cache,
  update_node_stream_service_resources, new_snap_resources,
}
use semaphore_xds.Snapshotter.Invariant.{IsWellFormed, node_service_snapshot-node, IsNode}
use semaphore_xds.Snapshotter.Isolation.{node_service_snapshot-get}
use semaphore_xds.Snapshotter.Fresh.Nodes.{
  NodesMatch-all, EntryMatches, NodesMatch-cons, NodesMatch-nil, NodesMatch,
}
use semaphore_xds.Snapshotter.Fresh.Found.{found_in, collect_lem}
use semaphore_xds.Snapshotter.Fresh.Unchanged.{AllAskedOnce, SameAsks}
use semaphore_xds.Snapshotter.Fresh.Snaps.{snap_services-KeepsAsks}
use semaphore_xds.Snapshotter.Fresh.Loops.{update_streams_lem}
use semaphore_xds.Snapshotter.Loops.{services_of}
use semaphore_xds.Service.{XdsServiceStore}
use semaphore_xds.Service.Translate.{Resources}
use semaphore_xds.Prelude.Decimal.{inc32, itoa}
use semaphore_xds.Resource.{route_type, listener_type, cluster_type}
use semaphore_xds.Snapshotter.Safe.{Returns, bind-Returns, Returns-map}

-- What the services of a stream are.
abbrev pub services_fields : Fields
services_fields = record { asked = λ r. r.services_names; holds = λ r. r.services }

-- There is no error, and each stream of each node holds what it asks for.
abbrev pub Served : {lib : Library} → lib.Snapshot → Snapshotter lib × Result (Unit {0}) → Type 0
Served {lib} full (t, r) =
    (r ≡ ok tt)
    × ((n : String) → EntryMatches (found_in lib full) services_fields (lookup n t.nodes))

-- The full snapshot of the services is there, and the server is not in the localhost mode.
pub record HasServices {lib : Library} (full : lib.Snapshot) (s : Snapshotter lib) : Type 0 where
  pub full_services : lib.get_snapshot s.services_cache empty_node_id ≡ some full
  pub not_localhost : s.localhost_endpoints ≡ false

module _ {lib : Library} (full : lib.Snapshot) (s : Snapshotter lib)
    (has : HasServices full s) where
  pub new_resources-found :
      (t : String) (names : List String)
      → map_type_url t ≡ "services"
      → new_snap_resources s t names ≡ ok (found_in lib full t names)
  unfolding new_snap_resources get_resources_from_cache
  new_resources-found t names k =
      rw (has.not_localhost, k, has.full_services) (ap ok (collect_lem lib full t names))

  service_update-Fresh :
      (node_id : String)
      → FreshUpdate
          (found_in lib full)
          services_fields
          "services"
          (update_node_stream_service_resources s node_id)
  unfolding update_node_stream_service_resources
  service_update-Fresh node_id t node id names k = elim (Option-cases (lookup id node.resources)) [
    | inl e ↦ rw (e, update_node_stream_service_resources) ((λ i u m. m), rw e tt)
    | inr (r, e) ↦
        let r' : NodeSnapshotResources = record r {
          services = insert t (found_in lib full t names) r.services;
          services_names = insert t names r.services_names;
        } in
        rw (e, update_node_stream_service_resources, new_resources-found t names k)
          (set_stream-Matches (found_in lib full) services_fields id t r r' node e
            (λ u m. insert-Matches (found_in lib full) t u names r.services_names r.services m)
            (insert-Matches_self (found_in lib full) t names r.services_names r.services))
  ]

module _ {lib : Library} (law : IsLawful lib) (full : lib.Snapshot) where
  put-HasServices :
      (s : Snapshotter lib) (n : String) (node : Node)
      → n ≢ empty_node_id
      → HasServices full s
      → HasServices full (put_service_snapshot s n (node_service_snapshot s n node))
  put-HasServices s n node other has = record {
    full_services = node_service_snapshot-get law s n empty_node_id other node ∙ has.full_services;
    not_localhost = has.not_localhost;
  }

  snapshot_node-Matches :
      (s : Snapshotter lib) (n : String) (node : Node)
      → ((id : ℕ) (t : String) → NodeMatches (found_in lib full) services_fields node id t)
      → (id : ℕ) (t : String)
      → NodeMatches (found_in lib full) services_fields (node_service_snapshot s n node).0 id t
  snapshot_node-Matches s n node h id t = rw (node_service_snapshot-node s n node) (h id t)

  -- The nodes of a list match after the loop over them.
  abbrev LoopMatches : GoMap String Node → Snapshotter lib → Snapshotter lib → Type 0
  LoopMatches nodes s t = NodesMatch (found_in lib full) services_fields nodes s.nodes t.nodes

  service_nodes_loop-Matches :
      (nodes : GoMap String Node) (s : Snapshotter lib)
      → All IsNode nodes
      → HasServices full s
      → Returns (LoopMatches nodes s) (service_nodes_loop nodes s)
  unfolding service_nodes_loop
  service_nodes_loop-Matches [] s h has = NodesMatch-nil (found_in lib full) services_fields s.nodes
  service_nodes_loop-Matches ((n, node) ∷ nodes) s h has =
      bind-Returns
        (λ node'.
          (id : ℕ) (t : String) → NodeMatches (found_in lib full) services_fields node' id t)
        (LoopMatches ((n, node) ∷ nodes) s) _ _
        (update_streams_lem (found_in lib full) services_fields "services" _
          (service_update-Fresh full s has n) node (services_of node.resources (h.0).2))
        λ node' m.
          let s' : Snapshotter lib = put_service_snapshot s n (node_service_snapshot s n node') in
          Returns-map (LoopMatches nodes s') (LoopMatches ((n, node) ∷ nodes) s) _
            (service_nodes_loop-Matches nodes s' h.1 (put-HasServices s n node' (h.0).0 has))
            λ t rest.
              NodesMatch-cons (found_in lib full) services_fields n node
                (node_service_snapshot s n node').0 nodes s.nodes t.nodes
                (snapshot_node-Matches s n node' m) rest

  finish-Served :
      (s : Snapshotter lib) (m : Result (Snapshotter lib))
      → Returns (LoopMatches s.nodes s) m
      → Served full (finish s m)
  finish-Served s (ok t) h =
      (refl, NodesMatch-all (found_in lib full) services_fields s.nodes t.nodes h)
  finish-Served s (err e) h = absurd h
  finish-Served s panic h = absurd h

  snap_service_resources-Served :
      (s : Snapshotter lib) (store : XdsServiceStore) (r : Resources)
      → IsWellFormed s.nodes
      → s.localhost_endpoints ≡ false
      → lib.new_snapshot
          (itoa (inc32 s.service_snap_version))
          ((cluster_type, r.cls) ∷ (listener_type, r.lsnr) ∷ (route_type, r.rds) ∷ [])
        ≡ some full
      → (lib.set_snapshot s.services_cache empty_node_id full).1 ≡ true
      → Served full (snap_service_resources s store r)
  unfolding snap_service_resources
  snap_service_resources-Served s store r w mode made set =
      let s3 : Snapshotter lib =
        sync_services
          (record s {
            service_snap_version = inc32 s.service_snap_version;
            services_cache = (lib.set_snapshot s.services_cache empty_node_id full).0;
          })
          store in
      let has : HasServices full s3 = record {
        full_services = law.get_set_self s.services_cache empty_node_id full set;
        not_localhost = mode;
      } in
      rw (made, set, snap_service_resources)
        (finish-Served s3 (service_nodes_loop s3.nodes s3)
          (service_nodes_loop-Matches s3.nodes s3 w.1 has))

  -- The same without what is asked for.
  pub snap_services-Matched :
      (s : Snapshotter lib) (store : XdsServiceStore) (r : Resources)
      → IsWellFormed s.nodes
      → s.localhost_endpoints ≡ false
      → all_services s store ≡ ok r
      → lib.new_snapshot
          (itoa (inc32 s.service_snap_version))
          ((cluster_type, r.cls) ∷ (listener_type, r.lsnr) ∷ (route_type, r.rds) ∷ [])
        ≡ some full
      → (lib.set_snapshot s.services_cache empty_node_id full).1 ≡ true
      → Served full (snap_services s store)
  unfolding snap_services
  snap_services-Matched s store r w mode translated made set =
      rw (translated, snap_services) (snap_service_resources-Served s store r w mode made set)

  -- With a snapshot cache that keeps its nodes apart, a well-formed nodes map in which no node and no
  -- stream has a key twice, and outside the localhost mode: where the resources of a store can be made
  -- into a snapshot with the next version and the cache takes it, SnapServices returns no error, each
  -- stream of each node asks for the same names of the same types as before, and it then holds, for
  -- each type of the services that it asks for, exactly what the new snapshot has under these names, in
  -- their order.
  pub snap_services-Served :
      (s : Snapshotter lib) (store : XdsServiceStore) (r : Resources)
      → IsWellFormed s.nodes
      → AllAskedOnce s.nodes
      → s.localhost_endpoints ≡ false
      → all_services s store ≡ ok r
      → lib.new_snapshot
          (itoa (inc32 s.service_snap_version))
          ((cluster_type, r.cls) ∷ (listener_type, r.lsnr) ∷ (route_type, r.rds) ∷ [])
        ≡ some full
      → (lib.set_snapshot s.services_cache empty_node_id full).1 ≡ true
      → Served full (snap_services s store) × SameAsks s.nodes (snap_services s store).0.nodes
  snap_services-Served s store r w once mode translated made set = (
    snap_services-Matched s store r w mode translated made set,
    (snap_services-KeepsAsks s w.0 once store).1,
  )
