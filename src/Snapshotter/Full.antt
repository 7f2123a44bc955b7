-- ===== src/Snapshotter/Full.antt =====
-- The full snapshot, which is kept under the empty node id, after SnapServices.
use semaphore_xds.Prelude.{
  ap, String, ◌≡◌, ◌≢◌, ◌∙◌, refl, sym, true, some, [], ◌∷◌, All, string_eq,
}
use semaphore_xds.Prelude.GoMap.{GoMap}
use semaphore_xds.Prelude.Result.{ok_inj, Result, ok, err, panic, >>=-eq-ok}
use semaphore_xds.Snapshotter.Library.{Library, IsLawful}
use semaphore_xds.Snapshotter.Invariant.{IsWellFormed, IsNode}
use semaphore_xds.Snapshotter.Snap.{
  sync_services, all_services, update_streams, finish, service_nodes_loop, snap_service_resources,
  snap_services,
}
use semaphore_xds.Service.{XdsServiceStore}
use semaphore_xds.Snapshotter.Nodes.{
  node_service_snapshot, put_service_snapshot, update_node_stream_service_resources,
}
use semaphore_xds.Service.Translate.{Resources}
use semaphore_xds.Prelude.Decimal.{inc32, itoa}
use semaphore_xds.Resource.{route_type, listener_type, cluster_type}
use semaphore_xds.Snapshotter.Isolation.{node_service_snapshot-get}
use semaphore_xds.Snapshotter.State.{Snapshotter, Node, empty_node_id}

-- No node has the empty id.
abbrev Named : GoMap String Node → Type 0
Named nodes = All (λ (x : String × Node). x.0 ≢ empty_node_id) nodes

IsNode-Named : (nodes : GoMap String Node) → All IsNode nodes → Named nodes
IsNode-Named [] h = tt
IsNode-Named ((n, node) ∷ nodes) h = ((h.0).0, IsNode-Named nodes h.1)

module _ {lib : Library} (law : IsLawful lib) where
  service_nodes_loop-get :
      (nodes : GoMap String Node) (s t : Snapshotter lib)
      → Named nodes
      → service_nodes_loop nodes s ≡ ok t
      → lib.get_snapshot t.services_cache empty_node_id
        ≡ lib.get_snapshot s.services_cache empty_node_id
  unfolding service_nodes_loop
  service_nodes_loop-get [] s t h q =
      ap (λ (u : Snapshotter lib). lib.get_snapshot u.services_cache empty_node_id) (sym (ok_inj q))
  service_nodes_loop-get ((n, node) ∷ nodes) s t h q =
      let (node', updated, rest) =
        >>=-eq-ok
          (update_streams (update_node_stream_service_resources s n) (λ res. res.services_names)
            node.resources node)
          _ q in
      service_nodes_loop-get nodes (put_service_snapshot s n (node_service_snapshot s n node')) t
        h.1 rest
      ∙ node_service_snapshot-get law s n empty_node_id h.0 node'

  finish-get :
      (s : Snapshotter lib) (m : Result (Snapshotter lib)) (snapshot : lib.Snapshot)
      → lib.get_snapshot s.services_cache empty_node_id ≡ some snapshot
      → ((t : Snapshotter lib)
          → m ≡ ok t
          → lib.get_snapshot t.services_cache empty_node_id
            ≡ lib.get_snapshot s.services_cache empty_node_id)
      → lib.get_snapshot (finish s m).0.services_cache empty_node_id ≡ some snapshot
  finish-get s (ok t) snapshot h k = k t refl ∙ h
  finish-get s (err e) snapshot h k = h
  finish-get s panic snapshot h k = h

  snap_service_resources-get :
      (s : Snapshotter lib) (store : XdsServiceStore) (r : Resources) (snapshot : lib.Snapshot)
      → IsWellFormed s.nodes
      → lib.new_snapshot
          (itoa (inc32 s.service_snap_version))
          ((cluster_type, r.cls) ∷ (listener_type, r.lsnr) ∷ (route_type, r.rds) ∷ [])
        ≡ some snapshot
      → (lib.set_snapshot s.services_cache empty_node_id snapshot).1 ≡ true
      → lib.get_snapshot (snap_service_resources s store r).0.services_cache empty_node_id
        ≡ some snapshot
  unfolding snap_service_resources
  snap_service_resources-get s store r snapshot w made set =
      let s3 : Snapshotter lib =
        sync_services
          (record s {
            service_snap_version = inc32 s.service_snap_version;
            services_cache = (lib.set_snapshot s.services_cache empty_node_id snapshot).0;
          })
          store in
      rw (made, set, snap_service_resources)
        (finish-get s3 (service_nodes_loop s3.nodes s3) snapshot
          (law.get_set_self s.services_cache empty_node_id snapshot set)
          (λ t. service_nodes_loop-get s.nodes s3 t (IsNode-Named s.nodes w.1)))

  -- With a snapshot cache that keeps its nodes apart and a well-formed nodes map, where the store's resources can be made into a
  -- snapshot with the next version and the cache takes it, then after SnapServices this is the full
  -- snapshot, whatever becomes of the nodes' own snapshots.
  pub snap_services-get :
      (s : Snapshotter lib) (store : XdsServiceStore) (r : Resources) (snapshot : lib.Snapshot)
      → IsWellFormed s.nodes
      → all_services s store ≡ ok r
      → lib.new_snapshot
          (itoa (inc32 s.service_snap_version))
          ((cluster_type, r.cls) ∷ (listener_type, r.lsnr) ∷ (route_type, r.rds) ∷ [])
        ≡ some snapshot
      → (lib.set_snapshot s.services_cache empty_node_id snapshot).1 ≡ true
      → lib.get_snapshot (snap_services s store).0.services_cache empty_node_id ≡ some snapshot
  unfolding snap_services
  snap_services-get s store r snapshot w translated made set =
      rw (translated, snap_services) (snap_service_resources-get s store r snapshot w made set)
