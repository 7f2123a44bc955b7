-- ===== src/Snapshotter/Fresh/Keep.antt =====
-- SnapEndpoints leaves alone what the streams hold of the services.
use semaphore_xds.Prelude.{
  true, refl, sym, ℕ, String, ◌≡◌, subst, none, some, List, [], ◌∷◌, All, inl, inr, Bool-cases,
  Option-cases, ◌==◌, eq_of_beq, beq_refl, string_eq, nat_eq,
}
use semaphore_xds.Prelude.GoMap.{lookup-insert, GoMap, lookup, insert, lookup-absent, Distinct}
use semaphore_xds.Prelude.Result.{ok_inj, panic, err, Result, ok, >>=-eq-ok, Result-cases}
use semaphore_xds.Snapshotter.Library.{Library}
use semaphore_xds.Snapshotter.State.{empty_node_id, Snapshotter, Node, NodeSnapshotResources}
use semaphore_xds.Snapshotter.Nodes.{
  node_endpoints_snapshot, put_endpoints_snapshot, update_node_stream_endpoints_resources,
  new_snap_resources,
}
use semaphore_xds.Snapshotter.Snap.{
  all_endpoints, snap_endpoint_resources, finish, snap_translated_endpoints, endpoints_nodes_loop,
  snap_endpoints, Update, or_logged, update_types, update_streams,
}
use semaphore_xds.Snapshotter.Fresh.{Content, KeepsMatches, insert-StreamMatches}
use semaphore_xds.Snapshotter.Fresh.Nodes.{EntryMatches}
use semaphore_xds.Snapshotter.Invariant.{node_endpoints_snapshot-node}
use semaphore_xds.Endpoint.{
  endpoint_slices_to_cluster_load_assignments_with_names, XdsEndpointStore,
}
use semaphore_xds.Resource.{endpoint_type, Resource}
use semaphore_xds.Prelude.Decimal.{inc32, itoa}
use semaphore_xds.Snapshotter.Fresh.Services.{services_fields}

module _ (c : Content) where
  -- The update leaves alone what matches.
  abbrev Harmless : Update → Type 0
  Harmless update =
      (t : String) (node : Node) (id : ℕ) (names : List String) (node' : Node)
      → or_logged node (update t node id names) ≡ ok node'
      → KeepsMatches c services_fields node node'

  same-Keeps : (node node' : Node) → ok node ≡ ok node' → KeepsMatches c services_fields node node'
  same-Keeps node node' h = subst (KeepsMatches c services_fields node) (ok_inj h) (λ i u m. m)

  module _ {lib : Library} (s : Snapshotter lib) (node_id : String) where
    endpoints_update-Harmless : Harmless (update_node_stream_endpoints_resources s node_id)
    unfolding update_node_stream_endpoints_resources
    endpoints_update-Harmless t node id names node' h =
        elim (Option-cases (lookup id node.resources)) [
          | inl e ↦ same-Keeps node node' (rw (e, update_node_stream_endpoints_resources) at h)
          | inr (r, e) ↦ elim (Result-cases (new_snap_resources s t names)) [
            | inl (new, q) ↦
                let r' : NodeSnapshotResources = record r {
                  endpoints = insert t new r.endpoints;
                  endpoints_names = insert t names r.endpoints_names;
                } in
                subst (KeepsMatches c services_fields node)
                  (ok_inj (rw (e, q, update_node_stream_endpoints_resources) at h))
                  (λ i u m.
                    insert-StreamMatches c services_fields id i u r r' node.resources e (λ k. k) m)
            | inr (inl (m, q)) ↦
                same-Keeps node node' (rw (e, q, update_node_stream_endpoints_resources) at h)
            | inr (inr q) ↦ cc (rw (e, q, update_node_stream_endpoints_resources) at h)
          ]
        ]

  module _ (update : Update) (harmless : Harmless update) where
    update_types-Keeps :
        (id : ℕ) (types : GoMap String (List String)) (node node' : Node)
        → update_types update id types node ≡ ok node'
        → KeepsMatches c services_fields node node'
    unfolding update_types
    update_types-Keeps id [] node node' h = same-Keeps node node' h
    update_types-Keeps id ((t, names) ∷ types) node node' h =
        let (mid, first, rest) = >>=-eq-ok (or_logged node (update t node id names)) _ h in
        λ i u m.
          update_types-Keeps id types mid node' rest i u (harmless t node id names mid first i u m)

    update_streams-Keeps :
        (asked : NodeSnapshotResources → GoMap String (List String))
        (streams : GoMap ℕ NodeSnapshotResources) (node node' : Node)
        → update_streams update asked streams node ≡ ok node'
        → KeepsMatches c services_fields node node'
    unfolding update_streams
    update_streams-Keeps asked [] node node' h = same-Keeps node node' h
    update_streams-Keeps asked ((id, r) ∷ streams) node node' h =
        let (mid, first, rest) = >>=-eq-ok (update_types update id (asked r) node) _ h in
        λ i u m.
          update_streams-Keeps asked streams mid node' rest i u
            (update_types-Keeps id (asked r) node mid first i u m)

  -- All nodes match.
  abbrev pub AllMatch : GoMap String Node → Type 0
  AllMatch nodes = (n : String) → EntryMatches c services_fields (lookup n nodes)

  abbrev EntriesMatch : GoMap String Node → Type 0
  EntriesMatch nodes = All (λ (x : String × Node). EntryMatches c services_fields (some x.1)) nodes

  AllMatch-entries :
      (nodes : GoMap String Node) → Distinct nodes → AllMatch nodes → EntriesMatch nodes
  unfolding lookup
  AllMatch-entries [] d h = tt
  AllMatch-entries ((k, node) ∷ nodes) d h = (
    (let here = h k in rw (beq_refl k) at here),
    AllMatch-entries nodes d.1 λ n. elim (Bool-cases (k == n)) [
      | inl e ↦
          let absent =
            subst (λ j. lookup j nodes ≡ none) (eq_of_beq k n e) (lookup-absent k nodes d.0) in
          rw absent tt
      | inr e ↦ let there = h n in rw e at there
    ],
  )

  module _ {lib : Library} where
    put-AllMatch :
        (s : Snapshotter lib) (n : String) (node : Node)
        → EntryMatches c services_fields (some node)
        → AllMatch s.nodes
        → AllMatch (put_endpoints_snapshot s n (node_endpoints_snapshot s n node)).nodes
    put-AllMatch s n node h all m =
        rw (lookup-insert n m (node_endpoints_snapshot s n node).0 s.nodes)
          (elim (Bool-cases (n == m)) [
            | inl e ↦ rw (e, node_endpoints_snapshot-node s n node) h
            | inr e ↦ rw e (all m)
          ])

    endpoints_nodes_loop-AllMatch :
        (nodes : GoMap String Node) (s t : Snapshotter lib)
        → EntriesMatch nodes
        → AllMatch s.nodes
        → endpoints_nodes_loop nodes s ≡ ok t
        → AllMatch t.nodes
    unfolding endpoints_nodes_loop
    endpoints_nodes_loop-AllMatch [] s t h all q =
        subst (λ (u : Snapshotter lib). AllMatch u.nodes) (ok_inj q) all
    endpoints_nodes_loop-AllMatch ((n, node) ∷ nodes) s t h all q =
        let update = update_node_stream_endpoints_resources s n in
        let (node', updated, rest) =
          >>=-eq-ok (update_streams update (λ res. res.endpoints_names) node.resources node) _ q in
        let keeps =
          update_streams-Keeps update (endpoints_update-Harmless s n) (λ res. res.endpoints_names)
            node.resources node node' updated in
        endpoints_nodes_loop-AllMatch nodes
          (put_endpoints_snapshot s n (node_endpoints_snapshot s n node')) t h.1
          (put-AllMatch s n node' (λ id u. keeps id u (h.0 id u)) all) rest

    finish-AllMatch :
        (s t : Snapshotter lib)
        → Distinct s.nodes
        → AllMatch s.nodes
        → t.nodes ≡ s.nodes
        → (m : Result (Snapshotter lib)) → endpoints_nodes_loop t.nodes t ≡ m
        → AllMatch (finish s m).0.nodes
    finish-AllMatch s t d all same (ok u) q =
        endpoints_nodes_loop-AllMatch t.nodes t u
          (subst EntriesMatch (sym same) (AllMatch-entries s.nodes d all))
          (subst AllMatch (sym same) all) q
    finish-AllMatch s t d all same (err e) q = all
    finish-AllMatch s t d all same panic q = all

    snap_endpoint_resources-AllMatch :
        (s : Snapshotter lib) (full : lib.Snapshot) (named : GoMap String Resource)
        (eds : List Resource)
        → Distinct s.nodes
        → AllMatch s.nodes
        → lib.new_snapshot (itoa (inc32 s.endpoints_snap_version)) ((endpoint_type, eds) ∷ [])
          ≡ some full
        → (lib.set_snapshot s.endpoints_cache empty_node_id full).1 ≡ true
        → AllMatch (snap_endpoint_resources s (ok named) eds).0.nodes
    unfolding snap_endpoint_resources
    snap_endpoint_resources-AllMatch s full named eds d all made set =
        let s2 : Snapshotter lib = record s {
          endpoints_snap_version = inc32 s.endpoints_snap_version;
          endpoints_cache = (lib.set_snapshot s.endpoints_cache empty_node_id full).0;
        } in
        let s3 : Snapshotter lib = record s2 {
          delta_eds_cache = lib.set_resources s.delta_eds_cache named;
        } in
        let done : snap_endpoint_resources s (ok named) eds
            ≡ finish s2 (endpoints_nodes_loop s3.nodes s3) =
          rw (made, set, snap_endpoint_resources) refl in
        subst (λ (o : Snapshotter lib × Result (Unit {0})). AllMatch o.0.nodes) (sym done)
          (finish-AllMatch s2 s3 d all refl (endpoints_nodes_loop s3.nodes s3) refl)

    -- Where the endpoints are translated and SnapEndpoints takes a new snapshot of them.
    pub snap_endpoints-AllMatch :
        (s : Snapshotter lib) (full : lib.Snapshot) (store : XdsEndpointStore)
        (named : GoMap String Resource) (eds : List Resource)
        → Distinct s.nodes
        → AllMatch s.nodes
        → all_endpoints s store ≡ ok eds
        → endpoint_slices_to_cluster_load_assignments_with_names store "" ≡ ok named
        → lib.new_snapshot (itoa (inc32 s.endpoints_snap_version)) ((endpoint_type, eds) ∷ [])
          ≡ some full
        → (lib.set_snapshot s.endpoints_cache empty_node_id full).1 ≡ true
        → AllMatch (snap_endpoints s store).0.nodes
    unfolding snap_endpoints snap_translated_endpoints
    snap_endpoints-AllMatch s full store named eds d all translated names made set =
        let done : snap_endpoints s store ≡ snap_endpoint_resources s (ok named) eds =
          rw (translated, names, snap_endpoints, snap_translated_endpoints) refl in
        subst (λ (o : Snapshotter lib × Result (Unit {0})). AllMatch o.0.nodes) (sym done)
          (snap_endpoint_resources-AllMatch s full named eds d all made set)
