-- ===== src/Snapshotter/Fresh/Frame.antt =====
-- What SnapServices does not change: the mode, the authority and the snapshots of endpoints.
use semaphore_xds.Prelude.{String, ◌≡◌, refl, subst, some, [], ◌∷◌, true, string_eq}
use semaphore_xds.Prelude.GoMap.{GoMap}
use semaphore_xds.Prelude.Result.{ok_inj, Result, ok, err, panic, >>=-eq-ok}
use semaphore_xds.Prelude.Decimal.{inc32, itoa}
use semaphore_xds.Resource.{cluster_type, listener_type, route_type}
use semaphore_xds.Service.{XdsServiceStore}
use semaphore_xds.Service.Translate.{Resources}
use semaphore_xds.Snapshotter.Library.{Library}
use semaphore_xds.Snapshotter.State.{Snapshotter, Node, empty_node_id}
use semaphore_xds.Snapshotter.Nodes.{
  node_service_snapshot, put_service_snapshot, update_node_stream_service_resources,
}
use semaphore_xds.Snapshotter.Snap.{
  update_streams, service_nodes_loop, finish, sync_services, snap_service_resources, snap_services,
  all_services,
}

-- Two states with the same mode, authority and snapshots of endpoints.
pub record Frame {lib : Library} (s t : Snapshotter lib) : Type 0 where
  pub same_mode : t.localhost_endpoints ≡ s.localhost_endpoints
  pub same_authority : t.authority ≡ s.authority
  pub same_version : t.endpoints_snap_version ≡ s.endpoints_snap_version
  pub same_cache : t.endpoints_cache ≡ s.endpoints_cache

module _ {lib : Library} where
  Frame-refl : (s : Snapshotter lib) → Frame s s
  Frame-refl s = record {
    same_mode = refl;
    same_authority = refl;
    same_version = refl;
    same_cache = refl;
  }

  service_nodes_loop-Frame :
      (s0 : Snapshotter lib) (nodes : GoMap String Node) (s t : Snapshotter lib)
      → Frame s0 s
      → service_nodes_loop nodes s ≡ ok t
      → Frame s0 t
  unfolding service_nodes_loop
  service_nodes_loop-Frame s0 [] s t f q = subst (Frame s0) (ok_inj q) f
  service_nodes_loop-Frame s0 ((n, node) ∷ nodes) s t f q =
      let (node', updated, rest) =
        >>=-eq-ok
          (update_streams (update_node_stream_service_resources s n) (λ res. res.services_names)
            node.resources node)
          _ q in
      service_nodes_loop-Frame s0 nodes (put_service_snapshot s n (node_service_snapshot s n node'))
        t
        (record {
          same_mode = f.same_mode;
          same_authority = f.same_authority;
          same_version = f.same_version;
          same_cache = f.same_cache;
        })
        rest

  finish-Frame :
      (s0 s : Snapshotter lib) (m : Result (Snapshotter lib))
      → Frame s0 s
      → service_nodes_loop s.nodes s ≡ m
      → Frame s0 (finish s m).0
  finish-Frame s0 s (ok t) f q = service_nodes_loop-Frame s0 s.nodes s t f q
  finish-Frame s0 s (err e) f q = f
  finish-Frame s0 s panic f q = f

  -- Where the services are translated and SnapServices takes a new snapshot of them.
  pub snap_services-Frame :
      (s : Snapshotter lib) (full : lib.Snapshot) (store : XdsServiceStore) (r : Resources)
      → all_services s store ≡ ok r
      → lib.new_snapshot
          (itoa (inc32 s.service_snap_version))
          ((cluster_type, r.cls) ∷ (listener_type, r.lsnr) ∷ (route_type, r.rds) ∷ [])
        ≡ some full
      → (lib.set_snapshot s.services_cache empty_node_id full).1 ≡ true
      → Frame s (snap_services s store).0
  unfolding snap_services snap_service_resources
  snap_services-Frame s full store r translated made set =
      let s3 : Snapshotter lib =
        sync_services
          (record s {
            service_snap_version = inc32 s.service_snap_version;
            services_cache = (lib.set_snapshot s.services_cache empty_node_id full).0;
          })
          store in
      rw (translated, made, set, snap_services, snap_service_resources)
        (finish-Frame s s3 (service_nodes_loop s3.nodes s3)
          (record {
            same_mode = refl;
            same_authority = refl;
            same_version = refl;
            same_cache = refl;
          })
          refl)
