-- ===== src/Snapshotter/Invariant.antt =====
-- The invariant of the nodes map, and that the operations on nodes keep it.
use semaphore_xds.Prelude.{
  ne_of_beq, ℕ, String, ◌≡◌, ◌≢◌, refl, List, [], All, Option-cases, Bool-cases, inl, inr, ◌==◌,
  string_eq, nat_eq,
}
use semaphore_xds.Prelude.GoMap.{
  GoMap, lookup, insert, insert-All, lookup-All, insert-ne-nil, Distinct, insert-Distinct, delete,
  delete-All, delete-Distinct,
}
use semaphore_xds.Prelude.Result.{Result}
use semaphore_xds.Snapshotter.Library.{Library}
use semaphore_xds.Snapshotter.State.{
  aggregate_node_resources, NodeSnapshotResources, Node, Snapshotter, map_type_url, empty_node_id,
  make_empty_node_resources,
}
use semaphore_xds.Snapshotter.Nodes.{
  update_node_stream_service_resources, update_node_stream_endpoints_resources,
  node_service_snapshot, node_endpoints_snapshot, put_service_snapshot, put_endpoints_snapshot,
  add_or_update_node,
}
use semaphore_xds.Prelude.Decimal.{itoa, inc32}
use semaphore_xds.Snapshotter.Safe.{Safe, Anything, bind-Safe, new_snap_resources-Safe}

-- The names of a stream are filed under types of their kind.
abbrev pub NamesOfKind : String → GoMap String (List String) → Type 0
NamesOfKind kind names = All (λ (x : String × List String). map_type_url x.0 ≡ kind) names

abbrev pub IsStream : ℕ × NodeSnapshotResources → Type 0
IsStream (id, r) =
    NamesOfKind "services" r.services_names × NamesOfKind "endpoints" r.endpoints_names

-- A node has a name and a stream, and its streams are in order.
abbrev pub IsNode : String × Node → Type 0
IsNode (node_id, node) =
    (node_id ≢ empty_node_id) × (node.resources ≢ []) × All IsStream node.resources

-- The nodes have distinct names, and each of them is in order.
abbrev pub IsWellFormed : GoMap String Node → Type 0
IsWellFormed nodes = Distinct nodes × All IsNode nodes

pub insert-IsWellFormed :
    (node_id : String) (node : Node) (nodes : GoMap String Node)
    → IsNode (node_id, node)
    → IsWellFormed nodes
    → IsWellFormed (insert node_id node nodes)
insert-IsWellFormed node_id node nodes h w =
    (insert-Distinct node_id node nodes w.0, insert-All IsNode node_id node nodes h w.1)

pub delete-IsWellFormed :
    (node_id : String) (nodes : GoMap String Node)
    → IsWellFormed nodes
    → IsWellFormed (delete node_id nodes)
delete-IsWellFormed node_id nodes w =
    (delete-Distinct node_id nodes w.0, delete-All IsNode node_id nodes w.1)

set_stream-IsNode :
    (node_id : String) (node : Node) (id : ℕ) (r : NodeSnapshotResources)
    → IsNode (node_id, node)
    → IsStream (id, r)
    → IsNode (node_id, record node { resources = insert id r node.resources })
set_stream-IsNode node_id node id r h k =
    (h.0, insert-ne-nil id r node.resources, insert-All IsStream id r node.resources k h.2)

empty-IsStream : (id : ℕ) → IsStream (id, make_empty_node_resources)
unfolding make_empty_node_resources map_type_url
empty-IsStream id = ((refl, (refl, (refl, tt))), (refl, tt))

-- A node in order after an update, and no panic.
abbrev pub UpdatesNode : String → Result Node → Type 0
UpdatesNode node_id = Safe (λ node. IsNode (node_id, node))

module _ {lib : Library} (s : Snapshotter lib) where
  pub update_service-UpdatesNode :
      (node_id type_url : String) (node : Node) (id : ℕ) (names : List String)
      → IsNode (node_id, node)
      → map_type_url type_url ≡ "services"
      → UpdatesNode node_id (update_node_stream_service_resources s node_id type_url node id names)
  unfolding update_node_stream_service_resources
  update_service-UpdatesNode node_id type_url node id names h t =
      elim (Option-cases (lookup id node.resources)) [
        | inl e ↦ rw (e, update_node_stream_service_resources) tt
        | inr (r, e) ↦
            rw (e, update_node_stream_service_resources)
              (bind-Safe Anything (λ n. IsNode (node_id, n)) _ _
                (new_snap_resources-Safe s type_url names (inl t))
                λ new _.
                  let k : IsStream (id, r) = lookup-All IsStream id node.resources h.2 e in
                  set_stream-IsNode node_id node id _ h (
                    insert-All (λ (x : String × List String). map_type_url x.0 ≡ "services")
                        type_url names r.services_names t k.0,
                    k.1,
                  ))
      ]

  pub update_endpoints-UpdatesNode :
      (node_id type_url : String) (node : Node) (id : ℕ) (names : List String)
      → IsNode (node_id, node)
      → map_type_url type_url ≡ "endpoints"
      → UpdatesNode node_id
          (update_node_stream_endpoints_resources s node_id type_url node id names)
  unfolding update_node_stream_endpoints_resources
  update_endpoints-UpdatesNode node_id type_url node id names h t =
      elim (Option-cases (lookup id node.resources)) [
        | inl e ↦ rw (e, update_node_stream_endpoints_resources) tt
        | inr (r, e) ↦
            rw (e, update_node_stream_endpoints_resources)
              (bind-Safe Anything (λ n. IsNode (node_id, n)) _ _
                (new_snap_resources-Safe s type_url names (inr t))
                λ new _.
                  let k : IsStream (id, r) = lookup-All IsStream id node.resources h.2 e in
                  set_stream-IsNode node_id node id _ h (
                    k.0,
                    insert-All (λ (x : String × List String). map_type_url x.0 ≡ "endpoints")
                        type_url names r.endpoints_names t k.1,
                  ))
      ]

  -- A snapshot of a node counts its version up, whatever comes of it.
  pub node_service_snapshot-node :
      (node_id : String) (node : Node)
      → (node_service_snapshot s node_id node).0
        ≡ record node { service_snap_version = inc32 node.service_snap_version }
  unfolding node_service_snapshot
  node_service_snapshot-node node_id node =
      elim (Option-cases (
        lib.new_snapshot (itoa (inc32 node.service_snap_version))
          (aggregate_node_resources "services" node.resources))) [
            | inl e ↦ rw (e, node_service_snapshot) refl
            | inr (a, e) ↦ rw (e, node_service_snapshot) refl
          ]

  pub node_endpoints_snapshot-node :
      (node_id : String) (node : Node)
      → (node_endpoints_snapshot s node_id node).0
        ≡ record node { endpoints_snap_version = inc32 node.endpoints_snap_version }
  unfolding node_endpoints_snapshot
  node_endpoints_snapshot-node node_id node =
      elim (Option-cases (
        lib.new_snapshot (itoa (inc32 node.endpoints_snap_version))
          (aggregate_node_resources "endpoints" node.resources))) [
            | inl e ↦ rw (e, node_endpoints_snapshot) refl
            | inr (a, e) ↦ rw (e, node_endpoints_snapshot) refl
          ]

  pub put_service-IsWellFormed :
      (node_id : String) (node : Node)
      → IsNode (node_id, node)
      → IsWellFormed s.nodes
      → IsWellFormed (put_service_snapshot s node_id (node_service_snapshot s node_id node)).nodes
  put_service-IsWellFormed node_id node h w =
      insert-IsWellFormed node_id (node_service_snapshot s node_id node).0 s.nodes
        (rw (node_service_snapshot-node node_id node) h) w

  pub put_endpoints-IsWellFormed :
      (node_id : String) (node : Node)
      → IsNode (node_id, node)
      → IsWellFormed s.nodes
      → IsWellFormed
          (put_endpoints_snapshot s node_id (node_endpoints_snapshot s node_id node)).nodes
  put_endpoints-IsWellFormed node_id node h w =
      insert-IsWellFormed node_id (node_endpoints_snapshot s node_id node).0 s.nodes
        (rw (node_endpoints_snapshot-node node_id node) h) w

  pub add_or_update_node-IsWellFormed :
      (node_id address : String) (id : ℕ)
      → IsWellFormed s.nodes
      → IsWellFormed (add_or_update_node s node_id address id).nodes
  unfolding add_or_update_node
  add_or_update_node-IsWellFormed node_id address id w =
      elim (Bool-cases (node_id == empty_node_id)) [
        | inl e ↦ rw e w
        | inr e ↦ elim (Option-cases (lookup node_id s.nodes)) [
          | inl m ↦
              rw (e, m, add_or_update_node)
                (insert-IsWellFormed node_id _ s.nodes
                  (ne_of_beq node_id empty_node_id e, (λ q. cc), (empty-IsStream id, tt)) w)
          | inr (node, m) ↦ elim (Option-cases (lookup id node.resources)) [
            | inl k ↦
                rw (e, m, k, add_or_update_node)
                  (insert-IsWellFormed node_id _ s.nodes
                    (set_stream-IsNode node_id node id make_empty_node_resources
                      (lookup-All IsNode node_id s.nodes w.1 m) (empty-IsStream id))
                    w)
            | inr (r, k) ↦ rw (e, m, k, add_or_update_node) w
          ]
        ]
      ]
