-- ===== src/Snapshotter/Loops.antt =====
-- The loops of SnapServices and SnapEndpoints over the nodes keep the invariant and do not panic.
use semaphore_xds.Prelude.{ℕ, String, ◌≡◌, List, [], ◌∷◌, All, string_eq, nat_eq}
use semaphore_xds.Prelude.GoMap.{GoMap}
use semaphore_xds.Prelude.Result.{Result, ok, err, panic}
use semaphore_xds.Snapshotter.Library.{Library}
use semaphore_xds.Snapshotter.State.{NodeSnapshotResources, Node, Snapshotter, map_type_url}
use semaphore_xds.Snapshotter.Nodes.{
  update_node_stream_service_resources, update_node_stream_endpoints_resources,
  node_service_snapshot, node_endpoints_snapshot, put_service_snapshot, put_endpoints_snapshot,
}
use semaphore_xds.Snapshotter.Snap.{
  Update, update_types, update_streams, service_nodes_loop, endpoints_nodes_loop, finish,
}
use semaphore_xds.Snapshotter.Safe.{Safe, bind-Safe, or_logged-Safe}
use semaphore_xds.Snapshotter.Invariant.{
  IsNode, IsStream, IsWellFormed, UpdatesNode, NamesOfKind, put_service-IsWellFormed,
  put_endpoints-IsWellFormed, update_service-UpdatesNode, update_endpoints-UpdatesNode,
}
use semaphore_xds.Snapshotter.Preserve.{Keeps}

-- An update that keeps nodes in order, for types of a kind.
abbrev GoodUpdate : String → String → Update → Type 0
GoodUpdate kind node_id update =
    (type_url : String) (node : Node) (id : ℕ) (names : List String)
    → IsNode (node_id, node)
    → map_type_url type_url ≡ kind
    → UpdatesNode node_id (update type_url node id names)

module _ (kind node_id : String) (update : Update) (good : GoodUpdate kind node_id update) where
  update_types-UpdatesNode :
      (id : ℕ) (types : GoMap String (List String)) (node : Node)
      → NamesOfKind kind types
      → IsNode (node_id, node)
      → UpdatesNode node_id (update_types update id types node)
  unfolding update_types
  update_types-UpdatesNode id [] node t h = h
  update_types-UpdatesNode id ((type_url, names) ∷ types) node t h =
      bind-Safe (λ n. IsNode (node_id, n)) (λ n. IsNode (node_id, n)) _ _
        (or_logged-Safe (λ n. IsNode (node_id, n)) node _ h (good type_url node id names h t.0))
        (λ n k. update_types-UpdatesNode id types n t.1 k)

  update_streams-UpdatesNode :
      (names : NodeSnapshotResources → GoMap String (List String))
      (streams : GoMap ℕ NodeSnapshotResources) (node : Node)
      → All (λ (x : ℕ × NodeSnapshotResources). NamesOfKind kind (names x.1)) streams
      → IsNode (node_id, node)
      → UpdatesNode node_id (update_streams update names streams node)
  unfolding update_streams
  update_streams-UpdatesNode names [] node t h = h
  update_streams-UpdatesNode names ((id, res) ∷ streams) node t h =
      bind-Safe (λ n. IsNode (node_id, n)) (λ n. IsNode (node_id, n)) _ _
        (update_types-UpdatesNode id (names res) node t.0 h)
        (λ n k. update_streams-UpdatesNode names streams n t.1 k)

pub services_of :
    (streams : GoMap ℕ NodeSnapshotResources)
    → All IsStream streams
    → All (λ (x : ℕ × NodeSnapshotResources). NamesOfKind "services" (x.1).services_names) streams
services_of [] h = tt
services_of (x ∷ streams) h = ((h.0).0, services_of streams h.1)

pub endpoints_of :
    (streams : GoMap ℕ NodeSnapshotResources)
    → All IsStream streams
    → All (λ (x : ℕ × NodeSnapshotResources). NamesOfKind "endpoints" (x.1).endpoints_names) streams
endpoints_of [] h = tt
endpoints_of (x ∷ streams) h = ((h.0).1, endpoints_of streams h.1)

abbrev pub Formed : {lib : Library} → Snapshotter lib → Type 0
Formed s = IsWellFormed s.nodes

module _ {lib : Library} where
  pub service_nodes_loop-Safe :
      (nodes : GoMap String Node) (s : Snapshotter lib)
      → All IsNode nodes
      → IsWellFormed s.nodes
      → Safe Formed (service_nodes_loop nodes s)
  unfolding service_nodes_loop
  service_nodes_loop-Safe [] s h w = w
  service_nodes_loop-Safe ((node_id, node) ∷ nodes) s h w =
      bind-Safe (λ n. IsNode (node_id, n)) Formed _ _
        (update_streams-UpdatesNode "services" node_id
          (update_node_stream_service_resources s node_id) (update_service-UpdatesNode s node_id)
          (λ res. res.services_names) node.resources node (services_of node.resources (h.0).2) h.0)
        λ n k.
          service_nodes_loop-Safe nodes
            (put_service_snapshot s node_id (node_service_snapshot s node_id n)) h.1
            (put_service-IsWellFormed s node_id n k w)

  pub endpoints_nodes_loop-Safe :
      (nodes : GoMap String Node) (s : Snapshotter lib)
      → All IsNode nodes
      → IsWellFormed s.nodes
      → Safe Formed (endpoints_nodes_loop nodes s)
  unfolding endpoints_nodes_loop
  endpoints_nodes_loop-Safe [] s h w = w
  endpoints_nodes_loop-Safe ((node_id, node) ∷ nodes) s h w =
      bind-Safe (λ n. IsNode (node_id, n)) Formed _ _
        (update_streams-UpdatesNode "endpoints" node_id
          (update_node_stream_endpoints_resources s node_id)
          (update_endpoints-UpdatesNode s node_id) (λ res. res.endpoints_names) node.resources node
          (endpoints_of node.resources (h.0).2) h.0)
        λ n k.
          endpoints_nodes_loop-Safe nodes
            (put_endpoints_snapshot s node_id (node_endpoints_snapshot s node_id n)) h.1
            (put_endpoints-IsWellFormed s node_id n k w)

  pub finish-Keeps :
      (s : Snapshotter lib) (m : Result (Snapshotter lib))
      → IsWellFormed s.nodes
      → Safe Formed m
      → Keeps (finish s m)
  finish-Keeps s (ok s') w h = (h, tt)
  finish-Keeps s (err e) w h = (w, tt)
  finish-Keeps s panic w h = (w, h)
