-- ===== src/Snapshotter/Preserve.antt =====
-- The operations on nodes keep the invariant, and do not panic.
use semaphore_xds.Prelude.{
  ◌||◌, ◌⊎◌, ℕ, String, ◌≡◌, ◌≢◌, List, [], ◌∷◌, Bool, true, false, Option-cases, Bool-cases, inl,
  inr, ◌==◌, string_eq, nat_eq,
}
use semaphore_xds.Prelude.GoMap.{lookup, lookup-All, delete, delete-All}
use semaphore_xds.Prelude.Result.{Result, ok, err, panic}
use semaphore_xds.Snapshotter.Library.{Library}
use semaphore_xds.Snapshotter.State.{Node, Snapshotter, map_type_url, empty_node_id}
use semaphore_xds.Snapshotter.Nodes.{
  node_service_snapshot, put_service_snapshot, clear_node_cache, resnap_node, is_nil,
  delete_node_stream, delete_node, services_updated, endpoints_updated,
  update_stream_node_resources, snapshot_error,
}
use semaphore_xds.Snapshotter.Safe.{Safe, Anything}
use semaphore_xds.Resource.{endpoint_type, cluster_type, route_type, listener_type}
use semaphore_xds.Snapshotter.Invariant.{
  IsNode, IsStream, IsWellFormed, UpdatesNode, delete-IsWellFormed, put_service-IsWellFormed,
  put_endpoints-IsWellFormed, node_service_snapshot-node, update_service-UpdatesNode,
  update_endpoints-UpdatesNode,
}

ne-nil_of_is_nil : {A : Type 0} (l : List A) → is_nil l ≡ false → l ≢ []
ne-nil_of_is_nil [] h e = cc
ne-nil_of_is_nil (x ∷ l) h e = cc

-- The three values of mapTypeURL.
pub type_kinds :
    (type_url : String)
    → (map_type_url type_url ≡ "services")
      ⊎ ((map_type_url type_url ≡ "endpoints") ⊎ (map_type_url type_url ≡ ""))
unfolding map_type_url
type_kinds type_url =
    elim (Bool-cases
      (type_url == listener_type || (type_url == route_type || type_url == cluster_type))) [
        | inl e ↦ inl (rw e)
        | inr e ↦ elim (Bool-cases (type_url == endpoint_type)) [
          | inl k ↦ inr (inl (rw (e, k)))
          | inr k ↦ inr (inr (rw (e, k)))
        ]
      ]

-- The state after a call is in order, and the call did not panic.
abbrev pub Keeps : {lib : Library} → Snapshotter lib × Result (Unit {0}) → Type 0
Keeps (s, r) = IsWellFormed s.nodes × Safe Anything r

snapshot_error-Safe : (b : Bool) → Safe Anything (snapshot_error b)
snapshot_error-Safe true = tt
snapshot_error-Safe false = tt

module _ {lib : Library} (s : Snapshotter lib) (w : IsWellFormed s.nodes) where
  resnap_node-IsWellFormed :
      (node_id : String) (node : Node)
      → IsNode (node_id, node)
      → IsWellFormed (resnap_node s node_id node).nodes
  unfolding resnap_node
  resnap_node-IsWellFormed node_id node h =
      let r : Node × lib.Cache × Bool = node_service_snapshot s node_id node in
      put_endpoints-IsWellFormed (put_service_snapshot s node_id r) node_id r.0
        (rw (node_service_snapshot-node s node_id node) h)
        (put_service-IsWellFormed s node_id node h w)

  pub delete_node-IsWellFormed : (node_id : String) → IsWellFormed (delete_node s node_id).nodes
  unfolding delete_node clear_node_cache
  delete_node-IsWellFormed node_id = elim (Bool-cases (node_id == empty_node_id)) [
    | inl e ↦ rw e w
    | inr e ↦ rw e (delete-IsWellFormed node_id s.nodes w)
  ]

  pub delete_node_stream-IsWellFormed :
      (node_id : String) (id : ℕ) → IsWellFormed (delete_node_stream s node_id id).nodes
  unfolding delete_node_stream clear_node_cache
  delete_node_stream-IsWellFormed node_id id = elim (Bool-cases (node_id == empty_node_id)) [
    | inl e ↦ rw e w
    | inr e ↦ elim (Option-cases (lookup node_id s.nodes)) [
      | inl m ↦ rw (e, m, delete_node_stream) w
      | inr (node, m) ↦
          let h : IsNode (node_id, node) = lookup-All IsNode node_id s.nodes w.1 m in
          elim (Bool-cases (is_nil (delete id node.resources))) [
            | inl k ↦ rw (e, m, k, delete_node_stream) (delete-IsWellFormed node_id s.nodes w)
            | inr k ↦
                rw (e, m, k, delete_node_stream)
                  (resnap_node-IsWellFormed node_id _
                    (h.0, ne-nil_of_is_nil _ k, delete-All IsStream id node.resources h.2))
          ]
    ]
  ]

  services_updated-Keeps :
      (node_id : String) (m : Result Node)
      → UpdatesNode node_id m
      → Keeps (services_updated s node_id m)
  services_updated-Keeps node_id (ok node) h =
      (put_service-IsWellFormed s node_id node h w, snapshot_error-Safe _)
  services_updated-Keeps node_id (err e) h = (w, tt)
  services_updated-Keeps node_id panic h = absurd h

  endpoints_updated-Keeps :
      (node_id : String) (m : Result Node)
      → UpdatesNode node_id m
      → Keeps (endpoints_updated s node_id m)
  endpoints_updated-Keeps node_id (ok node) h =
      (put_endpoints-IsWellFormed s node_id node h w, snapshot_error-Safe _)
  endpoints_updated-Keeps node_id (err e) h = (w, tt)
  endpoints_updated-Keeps node_id panic h = absurd h

  pub update_stream_node_resources-Keeps :
      (node_id type_url : String) (id : ℕ) (names : List String)
      → Keeps (update_stream_node_resources s node_id type_url id names)
  unfolding update_stream_node_resources
  update_stream_node_resources-Keeps node_id type_url id names =
      elim (Option-cases (lookup node_id s.nodes)) [
        | inl m ↦ rw (m, update_stream_node_resources) (w, tt)
        | inr (node, m) ↦
            let h : IsNode (node_id, node) = lookup-All IsNode node_id s.nodes w.1 m in
            elim (type_kinds type_url) [
              | inl t ↦
                  rw (m, t, update_stream_node_resources)
                    (services_updated-Keeps node_id _
                      (update_service-UpdatesNode s node_id type_url node id names h t))
              | inr (inl t) ↦
                  rw (m, t, update_stream_node_resources)
                    (endpoints_updated-Keeps node_id _
                      (update_endpoints-UpdatesNode s node_id type_url node id names h t))
              | inr (inr t) ↦ rw (m, t, update_stream_node_resources) (w, tt)
            ]
      ]
