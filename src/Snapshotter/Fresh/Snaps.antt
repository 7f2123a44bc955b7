-- ===== src/Snapshotter/Fresh/Snaps.antt =====
-- SnapServices and SnapEndpoints, whatever comes of them, do not change what the streams ask for.
use semaphore_xds.Prelude.{
  List, String, refl, [], ◌∷◌, inl, inr, Bool-cases, Option-cases, string_eq,
}
use semaphore_xds.Prelude.GoMap.{GoMap, Distinct}
use semaphore_xds.Prelude.Decimal.{inc32, itoa}
use semaphore_xds.Prelude.Result.{Result, Result-cases}
use semaphore_xds.Resource.{Resource, cluster_type, listener_type, route_type, endpoint_type}
use semaphore_xds.Service.{XdsServiceStore}
use semaphore_xds.Service.Translate.{Resources}
use semaphore_xds.Endpoint.{
  XdsEndpointStore, endpoint_slices_to_cluster_load_assignments_with_names,
}
use semaphore_xds.Snapshotter.Library.{Library}
use semaphore_xds.Snapshotter.State.{Snapshotter, empty_node_id}
use semaphore_xds.Snapshotter.Snap.{
  service_nodes_loop, endpoints_nodes_loop, snap_services, snap_service_resources, all_services,
  sync_services, snap_endpoints, snap_translated_endpoints, snap_endpoint_resources, all_endpoints,
}
use semaphore_xds.Snapshotter.Fresh.Unchanged.{
  AllAskedOnce, Keeps, Keeps-refl, finish_service-Keeps, finish_endpoints-Keeps,
}

module _ {lib : Library} (s : Snapshotter lib) (distinct : Distinct s.nodes)
    (once : AllAskedOnce s.nodes) where
  snap_service_resources-Keeps :
      (store : XdsServiceStore) (r : Resources)
      → Keeps s.nodes (snap_service_resources s store r).0.nodes
  unfolding snap_service_resources
  snap_service_resources-Keeps store r =
      elim (Option-cases (
        lib.new_snapshot (itoa (inc32 s.service_snap_version))
          ((cluster_type, r.cls) ∷ (listener_type, r.lsnr) ∷ (route_type, r.rds) ∷ []))) [
            | inl e ↦ rw (e, snap_service_resources) (Keeps-refl s.nodes once)
            | inr (full, e) ↦
                elim (Bool-cases (lib.set_snapshot s.services_cache empty_node_id full).1) [
                  | inr b ↦ rw (e, b, snap_service_resources) (Keeps-refl s.nodes once)
                  | inl b ↦
                      let s3 : Snapshotter lib =
                        sync_services
                          (record s {
                            service_snap_version = inc32 s.service_snap_version;
                            services_cache =
                                (lib.set_snapshot s.services_cache empty_node_id full).0;
                          })
                          store in
                      rw (e, b, snap_service_resources)
                        (finish_service-Keeps s3 s3 (service_nodes_loop s3.nodes s3) distinct once
                          refl refl)
                ]
          ]

  pub snap_services-KeepsAsks :
      (store : XdsServiceStore) → Keeps s.nodes (snap_services s store).0.nodes
  unfolding snap_services
  snap_services-KeepsAsks store = elim (Result-cases (all_services s store)) [
    | inl (r, e) ↦ rw (e, snap_services) (snap_service_resources-Keeps store r)
    | inr (inl (m, e)) ↦ rw (e, snap_services) (Keeps-refl s.nodes once)
    | inr (inr e) ↦ rw (e, snap_services) (Keeps-refl s.nodes once)
  ]

  snap_endpoint_resources-Keeps :
      (named : Result (GoMap String Resource)) (eds : List Resource)
      → Keeps s.nodes (snap_endpoint_resources s named eds).0.nodes
  unfolding snap_endpoint_resources
  snap_endpoint_resources-Keeps named eds =
      elim (Option-cases
        (lib.new_snapshot (itoa (inc32 s.endpoints_snap_version)) ((endpoint_type, eds) ∷ []))) [
          | inl e ↦ rw (e, snap_endpoint_resources) (Keeps-refl s.nodes once)
          | inr (full, e) ↦
              elim (Bool-cases (lib.set_snapshot s.endpoints_cache empty_node_id full).1) [
                | inr b ↦ rw (e, b, snap_endpoint_resources) (Keeps-refl s.nodes once)
                | inl b ↦ elim (Result-cases named) [
                  | inr (inl (m, q)) ↦
                      rw (e, b, q, snap_endpoint_resources) (Keeps-refl s.nodes once)
                  | inr (inr q) ↦ rw (e, b, q, snap_endpoint_resources) (Keeps-refl s.nodes once)
                  | inl (m, q) ↦
                      let s2 : Snapshotter lib = record s {
                        endpoints_snap_version = inc32 s.endpoints_snap_version;
                        endpoints_cache = (lib.set_snapshot s.endpoints_cache empty_node_id full).0;
                      } in
                      let s3 : Snapshotter lib = record s2 {
                        delta_eds_cache = lib.set_resources s.delta_eds_cache m;
                      } in
                      rw (e, b, q, snap_endpoint_resources)
                        (finish_endpoints-Keeps s2 s3 (endpoints_nodes_loop s3.nodes s3) distinct
                          once refl refl)
                ]
              ]
        ]

  pub snap_endpoints-KeepsAsks :
      (store : XdsEndpointStore) → Keeps s.nodes (snap_endpoints s store).0.nodes
  unfolding snap_endpoints snap_translated_endpoints
  snap_endpoints-KeepsAsks store = elim (Result-cases (all_endpoints s store)) [
    | inl (eds, e) ↦
        rw (e, snap_endpoints, snap_translated_endpoints)
          (snap_endpoint_resources-Keeps
            (endpoint_slices_to_cluster_load_assignments_with_names store "") eds)
    | inr (inl (m, e)) ↦ rw (e, snap_endpoints, snap_translated_endpoints) (Keeps-refl s.nodes once)
    | inr (inr e) ↦ rw (e, snap_endpoints, snap_translated_endpoints) (Keeps-refl s.nodes once)
  ]
