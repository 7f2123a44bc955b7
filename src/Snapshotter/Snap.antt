-- ===== src/Snapshotter/Snap.antt =====
-- NewSnapshotter, SnapServices and SnapEndpoints of xds/snapshotter.go. The locks are left out: the
-- operations are atomic steps, as `snapNodesMu` and `nodesMu` make them for the nodes.
use semaphore_xds.Prelude.{
  ℕ, String, none, some, List, [], ◌∷◌, ◌++◌, if◌then◌else◌, ◌==◌, string_eq, nat_eq,
}
use Prim.Native.String.{◌++◌ as concat}
use semaphore_xds.Prelude.Decimal.{inc32, itoa}
use semaphore_xds.Prelude.GoMap.{GoMap}
use semaphore_xds.Prelude.Result.{Result, ok, err, panic, ◌>>=◌}
use semaphore_xds.Resource.{Resource, listener_type, route_type, cluster_type, endpoint_type}
use semaphore_xds.Service.{XdsServiceStore}
use semaphore_xds.Service.Translate.{
  Resources, NamedResources, services_to_resources, services_to_resources_with_names,
}
use semaphore_xds.Endpoint.{
  XdsEndpointStore, endpoint_slices_to_cluster_load_assignments,
  endpoint_slices_to_cluster_load_assignments_with_names,
}
use semaphore_xds.Snapshotter.Library.{Library}
use semaphore_xds.Snapshotter.State.{empty_node_id, NodeSnapshotResources, Node, Snapshotter}
use semaphore_xds.Snapshotter.Nodes.{
  wrap, update_node_stream_service_resources, update_node_stream_endpoints_resources,
  node_service_snapshot, node_endpoints_snapshot, put_service_snapshot, put_endpoints_snapshot,
}

-- An update of a node by the names that a stream has for a type.
abbrev pub Update : Type 0
Update = String → Node → ℕ → List String → Result Node

-- An error is logged and leaves the node as it was; a panic ends the loop.
abbrev pub or_logged : Node → Result Node → Result Node
or_logged node (ok node') = ok node'
or_logged node (err e) = ok node
or_logged node panic = panic

-- the loop over the types of one stream's names
unfoldable pub update_types : Update → ℕ → GoMap String (List String) → Node → Result Node
update_types update id [] node = ok node
update_types update id ((type_url, names) ∷ types) node =
    or_logged node (update type_url node id names) >>= λ node'. update_types update id types node'

-- the loop over the streams of a node
unfoldable pub update_streams :
    Update
    → (NodeSnapshotResources → GoMap String (List String))
    → GoMap ℕ NodeSnapshotResources
    → Node
    → Result Node
unfolding update_types
update_streams update names [] node = ok node
update_streams update names ((id, res) ∷ streams) node =
    update_types update id (names res) node >>= λ node'. update_streams update names streams node'

module _ {lib : Library} where
  -- the loops over the nodes; the nodes visited are those at the loop's start
  unfoldable pub service_nodes_loop : GoMap String Node → Snapshotter lib → Result (Snapshotter lib)
  unfolding update_streams
  service_nodes_loop [] s = ok s
  service_nodes_loop ((node_id, node) ∷ nodes) s =
      update_streams (update_node_stream_service_resources s node_id) (λ res. res.services_names)
        node.resources node
      >>= λ node'.
          service_nodes_loop nodes
            (put_service_snapshot s node_id (node_service_snapshot s node_id node'))

  unfoldable pub endpoints_nodes_loop :
      GoMap String Node → Snapshotter lib → Result (Snapshotter lib)
  unfolding update_streams
  endpoints_nodes_loop [] s = ok s
  endpoints_nodes_loop ((node_id, node) ∷ nodes) s =
      update_streams (update_node_stream_endpoints_resources s node_id) (λ res. res.endpoints_names)
        node.resources node
      >>= λ node'.
          endpoints_nodes_loop nodes
            (put_endpoints_snapshot s node_id (node_endpoints_snapshot s node_id node'))

  -- the state and the result, where a loop's panic leaves the state that it started in
  abbrev pub finish :
      Snapshotter lib → Result (Snapshotter lib) → Snapshotter lib × Result (Unit {0})
  finish s (ok s') = (s', ok tt)
  finish s (err e) = (s, err e)
  finish s panic = (s, panic)

  -- the resources, also under federated names if there is an authority
  abbrev pub all_services : Snapshotter lib → XdsServiceStore → Result Resources
  all_services s store = services_to_resources lib.pack store "" >>= λ r.
      if s.authority == ""
      then ok r
      else services_to_resources lib.pack store s.authority >>= λ x.
          ok (record { cls = r.cls ++ x.cls; rds = r.rds ++ x.rds; lsnr = r.lsnr ++ x.lsnr })

  -- the linear caches are set from the plain names alone
  abbrev pub sync_services : Snapshotter lib → XdsServiceStore → Snapshotter lib
  sync_services s store =
      let n : NamedResources = services_to_resources_with_names lib.pack store "" in
      record s {
        delta_cds_cache = lib.set_resources s.delta_cds_cache n.named_cls;
        delta_vhds_cache = lib.set_resources s.delta_vhds_cache n.named_vhds;
        delta_rds_cache = lib.set_resources s.delta_rds_cache n.named_rds;
      }

  -- SnapServices, once the resources are there
  unfoldable pub snap_service_resources :
      Snapshotter lib → XdsServiceStore → Resources → Snapshotter lib × Result (Unit {0})
  unfolding service_nodes_loop services_to_resources_with_names
  snap_service_resources s store r =
      let s1 : Snapshotter lib = record s { service_snap_version = inc32 s.service_snap_version } in
      let resources : GoMap String (List Resource) =
        (cluster_type, r.cls) ∷ (listener_type, r.lsnr) ∷ (route_type, r.rds) ∷ [] in
      elim (lib.new_snapshot (itoa s1.service_snap_version) resources) [
        | none ↦ (s1, err "Failed to create service snapshot")
        | some snapshot ↦
            let (cache, is_ok) = lib.set_snapshot s1.services_cache empty_node_id snapshot in
            let s2 : Snapshotter lib = record s1 { services_cache = cache } in
            let s3 : Snapshotter lib = sync_services s2 store in
            if is_ok
            then finish s3 (service_nodes_loop s3.nodes s3)
            else (s2, err "Failed to set services snapshot")
      ]

  unfoldable pub snap_services :
      Snapshotter lib → XdsServiceStore → Snapshotter lib × Result (Unit {0})
  unfolding snap_service_resources services_to_resources
  snap_services s store = elim (wrap "Failed to snapshot Services: " (all_services s store)) [
    | ok r ↦ snap_service_resources s store r
    | err e ↦ (s, err e)
    | panic ↦ (s, panic)
  ]

  abbrev pub all_endpoints : Snapshotter lib → XdsEndpointStore → Result (List Resource)
  all_endpoints s store = endpoint_slices_to_cluster_load_assignments store "" >>= λ eds.
      if s.authority == ""
      then ok eds
      else endpoint_slices_to_cluster_load_assignments store s.authority >>= λ x. ok (eds ++ x)

  -- SnapEndpoints, once the resources are there; `named` is what the linear cache is set to
  unfoldable pub snap_endpoint_resources :
      Snapshotter lib
      → Result (GoMap String Resource)
      → List Resource
      → Snapshotter lib × Result (Unit {0})
  unfolding endpoints_nodes_loop
  snap_endpoint_resources s named eds =
      let s1 : Snapshotter lib = record s {
        endpoints_snap_version = inc32 s.endpoints_snap_version;
      } in
      elim (lib.new_snapshot (itoa s1.endpoints_snap_version) ((endpoint_type, eds) ∷ [])) [
        | none ↦ (s1, err "Failed to create endpoints snapshot")
        | some snapshot ↦
            let (cache, is_ok) = lib.set_snapshot s1.endpoints_cache empty_node_id snapshot in
            let s2 : Snapshotter lib = record s1 { endpoints_cache = cache } in
            if is_ok
            then finish s2 (
                named >>= λ m.
                let s3 : Snapshotter lib = record s2 {
                  delta_eds_cache = lib.set_resources s2.delta_eds_cache m;
                } in
                endpoints_nodes_loop s3.nodes s3)
            else (s2, err "Failed to set endpoints snapshot")
      ]

  -- SnapEndpoints, by what the translation comes to
  unfoldable pub snap_translated_endpoints :
      Snapshotter lib
      → Result (GoMap String Resource)
      → Result (List Resource)
      → Snapshotter lib × Result (Unit {0})
  unfolding snap_endpoint_resources
  snap_translated_endpoints s named (ok eds) = snap_endpoint_resources s named eds
  snap_translated_endpoints s named (err e) =
      (s, err (concat "Failed to snapshot EndpointSlices: " e))
  snap_translated_endpoints s named panic = (s, panic)

  unfoldable pub snap_endpoints :
      Snapshotter lib → XdsEndpointStore → Snapshotter lib × Result (Unit {0})
  unfolding snap_translated_endpoints endpoint_slices_to_cluster_load_assignments
      endpoint_slices_to_cluster_load_assignments_with_names
  snap_endpoints s store =
      snap_translated_endpoints s (endpoint_slices_to_cluster_load_assignments_with_names store "")
        (all_endpoints s store)
