-- ===== src/Snapshotter/Once.antt =====
-- The maps of nodes, of their streams and of the names that these ask for repeat no key, after any
-- operation.
use semaphore_xds.Prelude.{
  Bool, ℕ, String, refl, List, inl, inr, Bool-cases, Option-cases, ◌==◌, string_eq, nat_eq,
  ne_of_beq,
}
use semaphore_xds.Prelude.GoMap.{
  lookup, delete, lookup-All, insert-All, insert-Distinct, delete-All, delete-Distinct, Distinct,
}
use semaphore_xds.Prelude.Result.{Result, Result-cases, ok, err, panic}
use semaphore_xds.Resource.{cluster_type, listener_type, route_type}
use semaphore_xds.Snapshotter.Library.{Library}
use semaphore_xds.Snapshotter.State.{Snapshotter, Node, empty_node_id, make_empty_node_resources}
use semaphore_xds.Snapshotter.Nodes.{
  new_snap_resources, update_node_stream_service_resources, update_node_stream_endpoints_resources,
  node_service_snapshot, node_endpoints_snapshot, put_service_snapshot, put_endpoints_snapshot,
  resnap_node, clear_node_cache, delete_node_stream, add_or_update_node, is_nil, services_updated,
  endpoints_updated, update_stream_node_resources,
}
use semaphore_xds.Snapshotter.Invariant.{node_service_snapshot-node, node_endpoints_snapshot-node}
use semaphore_xds.Snapshotter.Preserve.{type_kinds}
use semaphore_xds.Snapshotter.Fresh.Asked.{
  Kind, services, endpoints, asks, IsOnce, AskedOnce, set_stream-AskedOnce,
}
use semaphore_xds.Snapshotter.Fresh.Updates.{
  with_services, with_services-Distinct, with_endpoints, with_endpoints-Distinct,
}
use semaphore_xds.Snapshotter.Fresh.Unchanged.{AllAskedOnce}

-- A value that is returned has the property.
abbrev Every : (Node → Type 0) → Result Node → Type 0
Every P (ok node) = P node
Every P (err e) = Unit
Every P panic = Unit

-- The property of an entry of the nodes map.
abbrev Entry : String × Node → Type 0
Entry x = AskedOnce x.1

empty-Distinct : (k : Kind) → Distinct (asks k make_empty_node_resources)
unfolding make_empty_node_resources
empty-Distinct services = (
  (
    ne_of_beq {A = String} listener_type cluster_type refl,
    (ne_of_beq {A = String} route_type cluster_type refl, tt),
  ),
  ((ne_of_beq {A = String} route_type listener_type refl, tt), (tt, tt)),
)
empty-Distinct endpoints = (tt, tt)

module _ {lib : Library} (s : Snapshotter lib) (once : AllAskedOnce s.nodes) where
  put_service-AllAskedOnce :
      (node_id : String) (node : Node)
      → AskedOnce node
      → AllAskedOnce (put_service_snapshot s node_id (node_service_snapshot s node_id node)).nodes
  put_service-AllAskedOnce node_id node h =
      rw (node_service_snapshot-node s node_id node) (insert-All Entry node_id _ s.nodes h once)

  put_endpoints-AllAskedOnce :
      (node_id : String) (node : Node)
      → AskedOnce node
      → AllAskedOnce
          (put_endpoints_snapshot s node_id (node_endpoints_snapshot s node_id node)).nodes
  put_endpoints-AllAskedOnce node_id node h =
      rw (node_endpoints_snapshot-node s node_id node) (insert-All Entry node_id _ s.nodes h once)

module _ {lib : Library} (s : Snapshotter lib) (once : AllAskedOnce s.nodes) where
  resnap_node-AllAskedOnce :
      (node_id : String) (node : Node)
      → AskedOnce node
      → AllAskedOnce (resnap_node s node_id node).nodes
  unfolding resnap_node
  resnap_node-AllAskedOnce node_id node h =
      let r : Node × lib.Cache × Bool = node_service_snapshot s node_id node in
      put_endpoints-AllAskedOnce (put_service_snapshot s node_id r)
        (put_service-AllAskedOnce s once node_id node h) node_id r.0
        (rw (node_service_snapshot-node s node_id node) h)

  pub delete_node_stream-AllAskedOnce :
      (node_id : String) (id : ℕ) → AllAskedOnce (delete_node_stream s node_id id).nodes
  unfolding delete_node_stream clear_node_cache
  delete_node_stream-AllAskedOnce node_id id = elim (Bool-cases (node_id == empty_node_id)) [
    | inl e ↦ rw e once
    | inr e ↦ elim (Option-cases (lookup node_id s.nodes)) [
      | inl m ↦ rw (e, m, delete_node_stream) once
      | inr (node, m) ↦
          let h : AskedOnce node = lookup-All Entry node_id s.nodes once m in
          elim (Bool-cases (is_nil (delete id node.resources))) [
            | inl k ↦ rw (e, m, k, delete_node_stream) (delete-All Entry node_id s.nodes once)
            | inr k ↦
                rw (e, m, k, delete_node_stream)
                  (resnap_node-AllAskedOnce node_id _ (
                    delete-Distinct id node.resources h.0,
                    delete-All IsOnce id node.resources h.1,
                  ))
          ]
    ]
  ]

  pub add_or_update_node-AllAskedOnce :
      (node_id address : String) (id : ℕ)
      → AllAskedOnce (add_or_update_node s node_id address id).nodes
  unfolding add_or_update_node
  add_or_update_node-AllAskedOnce node_id address id =
      elim (Bool-cases (node_id == empty_node_id)) [
        | inl e ↦ rw e once
        | inr e ↦ elim (Option-cases (lookup node_id s.nodes)) [
          | inl m ↦
              rw (e, m, add_or_update_node)
                (insert-All Entry node_id _ s.nodes ((tt, tt), (empty-Distinct, tt)) once)
          | inr (node, m) ↦
              let h : AskedOnce node = lookup-All Entry node_id s.nodes once m in
              elim (Option-cases (lookup id node.resources)) [
                | inr (r, k) ↦ rw (e, m, k, add_or_update_node) once
                | inl k ↦
                    rw (e, m, k, add_or_update_node)
                      (insert-All Entry node_id _ s.nodes
                        (
                          insert-Distinct id make_empty_node_resources node.resources h.0,
                          insert-All IsOnce id make_empty_node_resources node.resources
                              empty-Distinct h.1,
                        )
                        once)
              ]
        ]
      ]

module _ {lib : Library} (s : Snapshotter lib) (node_id : String) where
  service_update-AskedOnce :
      (t : String) (node : Node) (id : ℕ) (names : List String)
      → AskedOnce node
      → Every AskedOnce (update_node_stream_service_resources s node_id t node id names)
  unfolding update_node_stream_service_resources
  service_update-AskedOnce t node id names h = elim (Option-cases (lookup id node.resources)) [
    | inl e ↦ rw (e, update_node_stream_service_resources) tt
    | inr (r, e) ↦ elim (Result-cases (new_snap_resources s t names)) [
      | inl (new, q) ↦
          rw (e, q, update_node_stream_service_resources)
            (set_stream-AskedOnce id r (with_services t new names r) node e
              (with_services-Distinct t new names r) h)
      | inr (inl (m, q)) ↦ rw (e, q, update_node_stream_service_resources) tt
      | inr (inr q) ↦ rw (e, q, update_node_stream_service_resources) tt
    ]
  ]

  endpoints_update-AskedOnce :
      (t : String) (node : Node) (id : ℕ) (names : List String)
      → AskedOnce node
      → Every AskedOnce (update_node_stream_endpoints_resources s node_id t node id names)
  unfolding update_node_stream_endpoints_resources
  endpoints_update-AskedOnce t node id names h = elim (Option-cases (lookup id node.resources)) [
    | inl e ↦ rw (e, update_node_stream_endpoints_resources) tt
    | inr (r, e) ↦ elim (Result-cases (new_snap_resources s t names)) [
      | inl (new, q) ↦
          rw (e, q, update_node_stream_endpoints_resources)
            (set_stream-AskedOnce id r (with_endpoints t new names r) node e
              (with_endpoints-Distinct t new names r) h)
      | inr (inl (m, q)) ↦ rw (e, q, update_node_stream_endpoints_resources) tt
      | inr (inr q) ↦ rw (e, q, update_node_stream_endpoints_resources) tt
    ]
  ]

module _ {lib : Library} (s : Snapshotter lib) (once : AllAskedOnce s.nodes) where
  services_updated-AllAskedOnce :
      (node_id : String) (m : Result Node)
      → Every AskedOnce m
      → AllAskedOnce (services_updated s node_id m).0.nodes
  services_updated-AllAskedOnce node_id (ok node) h = put_service-AllAskedOnce s once node_id node h
  services_updated-AllAskedOnce node_id (err e) h = once
  services_updated-AllAskedOnce node_id panic h = once

  endpoints_updated-AllAskedOnce :
      (node_id : String) (m : Result Node)
      → Every AskedOnce m
      → AllAskedOnce (endpoints_updated s node_id m).0.nodes
  endpoints_updated-AllAskedOnce node_id (ok node) h =
      put_endpoints-AllAskedOnce s once node_id node h
  endpoints_updated-AllAskedOnce node_id (err e) h = once
  endpoints_updated-AllAskedOnce node_id panic h = once

  pub update_stream_node_resources-AllAskedOnce :
      (node_id t : String) (id : ℕ) (names : List String)
      → AllAskedOnce (update_stream_node_resources s node_id t id names).0.nodes
  unfolding update_stream_node_resources
  update_stream_node_resources-AllAskedOnce node_id t id names =
      elim (Option-cases (lookup node_id s.nodes)) [
        | inl m ↦ rw (m, update_stream_node_resources) once
        | inr (node, m) ↦
            let h : AskedOnce node = lookup-All Entry node_id s.nodes once m in
            elim (type_kinds t) [
              | inl k ↦
                  rw (m, k, update_stream_node_resources)
                    (services_updated-AllAskedOnce node_id _
                      (service_update-AskedOnce s node_id t node id names h))
              | inr (inl k) ↦
                  rw (m, k, update_stream_node_resources)
                    (endpoints_updated-AllAskedOnce node_id _
                      (endpoints_update-AskedOnce s node_id t node id names h))
              | inr (inr k) ↦ rw (m, k, update_stream_node_resources) once
            ]
      ]
