-- ===== src/Snapshotter/Isolation.antt =====
-- A client's request changes the snapshots and the entry of its own node alone.
use semaphore_xds.Prelude.{
  false, beq_refl, true, none, [], some, Option, ◌==◌, Bool, List, Bool-cases, ℕ, ◌∙◌, String, ◌≡◌,
  ◌≢◌, refl, Option-cases, inl, inr, string_eq, nat_eq, beq_of_ne,
}
use semaphore_xds.Prelude.GoMap.{lookup-delete_self, delete, insert, lookup, lookup-insert}
use semaphore_xds.Prelude.Result.{◌>>=◌, Result-cases, Result, ok, err, panic}
use semaphore_xds.Snapshotter.Library.{Library, IsLawful}
use semaphore_xds.Snapshotter.Nodes.{
  clear_node_cache, delete_node_stream, update_stream_node_resources, add_or_update_node,
  services_updated, node_service_snapshot, node_endpoints_snapshot, endpoints_updated,
}
use semaphore_xds.Prelude.Decimal.{inc32, itoa}
use semaphore_xds.Snapshotter.Handlers.{
  serve_update, DiscoveryRequest, on_stream_closed, serve_request, on_stream_request,
}
use semaphore_xds.Snapshotter.Preserve.{type_kinds}
use semaphore_xds.Snapshotter.State.{
  wait_for_request_limit, empty_node_id, Stream, aggregate_node_resources, Snapshotter, Node,
}

-- To node `m` two states look the same: its snapshots and its entry are.
pub record SameFor {lib : Library} (m : String) (s t : Snapshotter lib) : Type 0 where
  pub same_services : lib.get_snapshot t.services_cache m ≡ lib.get_snapshot s.services_cache m
  pub same_endpoints : lib.get_snapshot t.endpoints_cache m ≡ lib.get_snapshot s.endpoints_cache m
  pub same_node : lookup m t.nodes ≡ lookup m s.nodes

SameFor-refl : {lib : Library} (m : String) (s : Snapshotter lib) → SameFor m s s
SameFor-refl m s = record { same_services = refl; same_endpoints = refl; same_node = refl }

module _ {lib : Library} (law : IsLawful lib) (s : Snapshotter lib) (n m : String)
    (other : n ≢ m) where
  lookup-insert_ne : (node : Node) → lookup m (insert n node s.nodes) ≡ lookup m s.nodes
  lookup-insert_ne node = rw (lookup-insert n m node s.nodes, beq_of_ne n m other) refl

  pub node_service_snapshot-get :
      (node : Node)
      → lib.get_snapshot (node_service_snapshot s n node).1 m ≡ lib.get_snapshot s.services_cache m
  unfolding node_service_snapshot
  node_service_snapshot-get node =
      elim (Option-cases (
        lib.new_snapshot (itoa (inc32 node.service_snap_version))
          (aggregate_node_resources "services" node.resources))) [
            | inl e ↦ rw (e, node_service_snapshot) refl
            | inr (snapshot, e) ↦
                rw (e, node_service_snapshot) (law.get_set_ne s.services_cache n m snapshot other)
          ]

  pub node_endpoints_snapshot-get :
      (node : Node)
      → lib.get_snapshot (node_endpoints_snapshot s n node).1 m
        ≡ lib.get_snapshot s.endpoints_cache m
  unfolding node_endpoints_snapshot
  node_endpoints_snapshot-get node =
      elim (Option-cases (
        lib.new_snapshot (itoa (inc32 node.endpoints_snap_version))
          (aggregate_node_resources "endpoints" node.resources))) [
            | inl e ↦ rw (e, node_endpoints_snapshot) refl
            | inr (snapshot, e) ↦
                rw (e, node_endpoints_snapshot)
                  (law.get_set_ne s.endpoints_cache n m snapshot other)
          ]

  services_updated-SameFor : (r : Result Node) → SameFor m s (services_updated s n r).0
  services_updated-SameFor (ok node) = record {
    same_services = node_service_snapshot-get node;
    same_endpoints = refl;
    same_node = lookup-insert_ne (node_service_snapshot s n node).0;
  }
  services_updated-SameFor (err e) = SameFor-refl m s
  services_updated-SameFor panic = SameFor-refl m s

  endpoints_updated-SameFor : (r : Result Node) → SameFor m s (endpoints_updated s n r).0
  endpoints_updated-SameFor (ok node) = record {
    same_services = refl;
    same_endpoints = node_endpoints_snapshot-get node;
    same_node = lookup-insert_ne (node_endpoints_snapshot s n node).0;
  }
  endpoints_updated-SameFor (err e) = SameFor-refl m s
  endpoints_updated-SameFor panic = SameFor-refl m s

  insert_node-SameFor : (node : Node) → SameFor m s (record s { nodes = insert n node s.nodes })
  insert_node-SameFor node = record {
    same_services = refl;
    same_endpoints = refl;
    same_node = lookup-insert_ne node;
  }

  add_or_update_node-SameFor :
      (address : String) (id : ℕ) → SameFor m s (add_or_update_node s n address id)
  unfolding add_or_update_node
  add_or_update_node-SameFor address id = elim (Bool-cases (n == empty_node_id)) [
    | inl e ↦ rw e (SameFor-refl m s)
    | inr e ↦ elim (Option-cases (lookup n s.nodes)) [
      | inl q ↦ rw (e, q, add_or_update_node) (insert_node-SameFor _)
      | inr (node, q) ↦ elim (Option-cases (lookup id node.resources)) [
        | inl k ↦ rw (e, q, k, add_or_update_node) (insert_node-SameFor _)
        | inr (r, k) ↦ rw (e, q, k, add_or_update_node) (SameFor-refl m s)
      ]
    ]
  ]

  update_stream_node_resources-SameFor :
      (type_url : String) (id : ℕ) (names : List String)
      → SameFor m s (update_stream_node_resources s n type_url id names).0
  unfolding update_stream_node_resources
  update_stream_node_resources-SameFor type_url id names = elim (Option-cases (lookup n s.nodes)) [
    | inl q ↦ rw (q, update_stream_node_resources) (SameFor-refl m s)
    | inr (node, q) ↦ elim (type_kinds type_url) [
      | inl t ↦ rw (q, t, update_stream_node_resources) (services_updated-SameFor _)
      | inr (inl t) ↦ rw (q, t, update_stream_node_resources) (endpoints_updated-SameFor _)
      | inr (inr t) ↦ rw (q, t, update_stream_node_resources) (SameFor-refl m s)
    ]
  ]

SameFor-trans :
    {lib : Library} (m : String) (s t u : Snapshotter lib)
    → SameFor m s t
    → SameFor m t u
    → SameFor m s u
SameFor-trans m s t u h k = record {
  same_services = k.same_services ∙ h.same_services;
  same_endpoints = k.same_endpoints ∙ h.same_endpoints;
  same_node = k.same_node ∙ h.same_node;
}

module _ {lib : Library} (law : IsLawful lib) (s : Snapshotter lib) (m : String) where
  serve_update-SameFor :
      (id : ℕ) (r : DiscoveryRequest) (answer : Result Bool)
      → r.node_id ≢ m
      → SameFor m s (serve_update s id r answer).0
  serve_update-SameFor id r (ok true) other =
      update_stream_node_resources-SameFor law s r.node_id m other r.type_url id r.resource_names
  serve_update-SameFor id r (ok false) other = SameFor-refl m s
  serve_update-SameFor id r (err e) other = SameFor-refl m s
  serve_update-SameFor id r panic other = SameFor-refl m s

module _ {lib : Library} (law : IsLawful lib) (s : Snapshotter lib) (m : String) where
  serve_request-SameFor :
      (id : ℕ) (stream : Stream lib) (r : DiscoveryRequest)
      → r.node_id ≢ m
      → SameFor m s (serve_request s id stream r).0
  unfolding serve_request
  serve_request-SameFor id stream r other = elim (Bool-cases (r.node_id == empty_node_id)) [
    | inl e ↦ rw e (SameFor-refl m s)
    | inr e ↦
        let s' : Snapshotter lib = add_or_update_node s r.node_id stream.peer_address id in
        rw e (
          SameFor-trans m s s' _
            (add_or_update_node-SameFor law s r.node_id m other stream.peer_address id)
            (serve_update-SameFor law s' m id r _ other))
  ]

  -- With a snapshot cache that keeps its nodes apart, a request leaves every node but the one that
  -- it names as it was: both its snapshots and its entry in the nodes map, on every branch.
  pub on_stream_request-SameFor :
      (id : ℕ) (r : DiscoveryRequest) (stream_wait server_wait : Option String)
      → r.node_id ≢ m
      → SameFor m s (on_stream_request s id r stream_wait server_wait).0
  unfolding on_stream_request
  on_stream_request-SameFor id r stream_wait server_wait other =
      elim (Option-cases (lookup id s.streams)) [
        | inl e ↦ rw (e, on_stream_request) (SameFor-refl m s)
        | inr (stream, e) ↦
            elim (Result-cases (
              wait_for_request_limit lib stream.request_rate_limit stream_wait >>= λ _.
              wait_for_request_limit lib s.request_rate_limit server_wait)) [
                | inl (u, k) ↦
                    rw (e, k, on_stream_request) (serve_request-SameFor id stream r other)
                | inr (inl (x, k)) ↦ rw (e, k, on_stream_request) (SameFor-refl m s)
                | inr (inr k) ↦ rw (e, k, on_stream_request) (SameFor-refl m s)
              ]
      ]

  delete_node_stream-last :
      (id : ℕ) (node : Node)
      → m ≢ empty_node_id
      → lookup m s.nodes ≡ some node
      → delete id node.resources ≡ []
      → delete_node_stream s m id ≡ clear_node_cache (record s { nodes = delete m s.nodes }) m
  unfolding delete_node_stream
  delete_node_stream-last id node named found last =
      rw (beq_of_ne m empty_node_id named, found, last, delete_node_stream) refl

  clear_self : (c : lib.Cache) → lib.get_snapshot (lib.clear_snapshot c m) m ≡ none
  clear_self c = law.get_clear c m m ∙ rw (beq_refl m) refl

module _ {lib : Library} (law : IsLawful lib) (s : Snapshotter lib) (m : String) where
  -- With a snapshot cache that keeps its nodes apart, when the last stream of a node with an id is closed, the node is gone from
  -- the nodes map, and so are both its snapshots.
  pub on_stream_closed-last :
      (id : ℕ) (node : Node)
      → m ≢ empty_node_id
      → lookup m s.nodes ≡ some node
      → delete id node.resources ≡ []
      → (lookup m (on_stream_closed s id m).nodes ≡ none)
        × (lib.get_snapshot (on_stream_closed s id m).services_cache m ≡ none)
        × (lib.get_snapshot (on_stream_closed s id m).endpoints_cache m ≡ none)
  unfolding on_stream_closed clear_node_cache
  on_stream_closed-last id node named found last =
      let t : Snapshotter lib = record s { streams = delete id s.streams } in
      rw (delete_node_stream-last law t m id node named found last) (
        lookup-delete_self m s.nodes,
        clear_self law t m s.services_cache,
        clear_self law t m s.endpoints_cache,
      )
