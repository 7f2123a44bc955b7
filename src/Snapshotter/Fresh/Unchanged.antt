-- ===== src/Snapshotter/Fresh/Unchanged.antt =====
-- The loops over the nodes keep what is asked for.
use semaphore_xds.Prelude.{
  String, ◌≡◌, ◌∙◌, refl, sym, subst, some, [], ◌∷◌, All, All-map, All-map_both, inl, inr,
  Bool-cases, ◌==◌, eq_of_beq, string_eq, nat_eq,
}
use semaphore_xds.Prelude.GoMap.{
  GoMap, lookup, insert, lookup-insert, lookup-entries, insert-All, Distinct,
}
use semaphore_xds.Prelude.Result.{Result, ok, err, panic, ok_inj, >>=-eq-ok}
use semaphore_xds.Snapshotter.Library.{Library}
use semaphore_xds.Snapshotter.State.{Snapshotter, Node}
use semaphore_xds.Snapshotter.Nodes.{
  update_node_stream_service_resources, update_node_stream_endpoints_resources,
  node_service_snapshot, put_service_snapshot, node_endpoints_snapshot, put_endpoints_snapshot,
}
use semaphore_xds.Snapshotter.Snap.{
  update_streams, service_nodes_loop, endpoints_nodes_loop, finish,
}
use semaphore_xds.Snapshotter.Invariant.{node_service_snapshot-node, node_endpoints_snapshot-node}
use semaphore_xds.Snapshotter.Fresh.Updates.{service_update-Kept, endpoints_update-Kept}
use semaphore_xds.Snapshotter.Fresh.Asked.{
  services, endpoints, asks, SameAsked, AskedOnce, Kept, node-Kept,
}

-- No map of a node repeats a key, for every node.
abbrev pub AllAskedOnce : GoMap String Node → Type 0
AllAskedOnce nodes = All (λ (x : String × Node). AskedOnce x.1) nodes

-- The nodes ask for the same before and after.
abbrev pub SameAsks : GoMap String Node → GoMap String Node → Type 0
SameAsks before after = (n : String) → SameAsked (lookup n before) (lookup n after)

-- What two loops keep.
abbrev pub Keeps : GoMap String Node → GoMap String Node → Type 0
Keeps before after = AllAskedOnce after × SameAsks before after

-- The nodes that are left are those of the map, as far as what they ask for goes.
abbrev Listed : GoMap String Node → GoMap String Node → Type 0
Listed nodes there =
    All (λ (x : String × Node). AskedOnce x.1 × SameAsked (lookup x.0 there) (some x.1)) nodes

put_lem :
    (n : String) (node : Node) (there : GoMap String Node)
    → SameAsked (lookup n there) (some node)
    → SameAsks there (insert n node there)
put_lem n node there h m = rw (lookup-insert n m node there) (elim (Bool-cases (n == m)) [
  | inl q ↦ rw (q, ← eq_of_beq n m q) h
  | inr q ↦ rw q (λ k id t. refl)
])

Listed-after :
    (nodes there after : GoMap String Node)
    → SameAsks there after
    → Listed nodes there
    → Listed nodes after
Listed-after nodes there after g =
    All-map nodes λ x h. (h.0, λ k id t. h.1 k id t ∙ sym (g x.0 k id t))

Listed-self : (nodes : GoMap String Node) → Distinct nodes → AllAskedOnce nodes → Listed nodes nodes
Listed-self nodes d once =
    All-map_both nodes (λ x here o. (o, rw here (λ k id t. refl))) (lookup-entries nodes d) once

pub Keeps-refl : (nodes : GoMap String Node) → AllAskedOnce nodes → Keeps nodes nodes
Keeps-refl nodes all = (all, λ n k id t. refl)

Keeps-trans : (a b c : GoMap String Node) → SameAsks a b → Keeps b c → Keeps a c
Keeps-trans a b c g h = (h.0, λ n k id t. h.1 n k id t ∙ g n k id t)

module _ {lib : Library} where
  put_service-Keeps :
      (s : Snapshotter lib) (n : String) (node node' : Node)
      → AllAskedOnce s.nodes
      → AskedOnce node × SameAsked (lookup n s.nodes) (some node)
      → Kept node node'
      → Keeps s.nodes (put_service_snapshot s n (node_service_snapshot s n node')).nodes
  put_service-Keeps s n node node' all h g = rw (node_service_snapshot-node s n node') (
    insert-All (λ (x : String × Node). AskedOnce x.1) n _ s.nodes (g.0 h.0) all,
    put_lem n _ s.nodes λ k id t. g.1 k id t ∙ h.1 k id t,
  )

  service_nodes_loop-Keeps :
      (nodes : GoMap String Node) (s t : Snapshotter lib)
      → AllAskedOnce s.nodes
      → Listed nodes s.nodes
      → service_nodes_loop nodes s ≡ ok t
      → Keeps s.nodes t.nodes
  unfolding service_nodes_loop
  service_nodes_loop-Keeps [] s t all h q =
      subst (λ (u : Snapshotter lib). Keeps s.nodes u.nodes) (ok_inj q) (all, λ n k id u. refl)
  service_nodes_loop-Keeps ((n, node) ∷ nodes) s t all h q =
      let update = update_node_stream_service_resources s n in
      let (node', updated, rest) =
        >>=-eq-ok (update_streams update (asks services) node.resources node) _ q in
      let s' : Snapshotter lib = put_service_snapshot s n (node_service_snapshot s n node') in
      let g =
        put_service-Keeps s n node node' all h.0
          (node-Kept services update node node' (service_update-Kept s n) (h.0).0 updated) in
      Keeps-trans s.nodes s'.nodes t.nodes g.1
        (service_nodes_loop-Keeps nodes s' t g.0 (Listed-after nodes s.nodes s'.nodes g.1 h.1) rest)

  pub finish_service-Keeps :
      (s s' : Snapshotter lib) (m : Result (Snapshotter lib))
      → Distinct s.nodes
      → AllAskedOnce s.nodes
      → s'.nodes ≡ s.nodes
      → service_nodes_loop s'.nodes s' ≡ m
      → Keeps s.nodes (finish s m).0.nodes
  finish_service-Keeps s s' (ok t) d all same q =
      subst (λ nodes. Keeps nodes t.nodes) same
        (service_nodes_loop-Keeps s'.nodes s' t (subst AllAskedOnce (sym same) all)
          (subst (λ nodes. Listed nodes nodes) (sym same) (Listed-self s.nodes d all)) q)
  finish_service-Keeps s s' (err e) d all same q = Keeps-refl s.nodes all
  finish_service-Keeps s s' panic d all same q = Keeps-refl s.nodes all

module _ {lib : Library} where
  put_endpoints-Keeps :
      (s : Snapshotter lib) (n : String) (node node' : Node)
      → AllAskedOnce s.nodes
      → AskedOnce node × SameAsked (lookup n s.nodes) (some node)
      → Kept node node'
      → Keeps s.nodes (put_endpoints_snapshot s n (node_endpoints_snapshot s n node')).nodes
  put_endpoints-Keeps s n node node' all h g = rw (node_endpoints_snapshot-node s n node') (
    insert-All (λ (x : String × Node). AskedOnce x.1) n _ s.nodes (g.0 h.0) all,
    put_lem n _ s.nodes λ k id t. g.1 k id t ∙ h.1 k id t,
  )

  endpoints_nodes_loop-Keeps :
      (nodes : GoMap String Node) (s t : Snapshotter lib)
      → AllAskedOnce s.nodes
      → Listed nodes s.nodes
      → endpoints_nodes_loop nodes s ≡ ok t
      → Keeps s.nodes t.nodes
  unfolding endpoints_nodes_loop
  endpoints_nodes_loop-Keeps [] s t all h q =
      subst (λ (u : Snapshotter lib). Keeps s.nodes u.nodes) (ok_inj q) (all, λ n k id u. refl)
  endpoints_nodes_loop-Keeps ((n, node) ∷ nodes) s t all h q =
      let update = update_node_stream_endpoints_resources s n in
      let (node', updated, rest) =
        >>=-eq-ok (update_streams update (asks endpoints) node.resources node) _ q in
      let s' : Snapshotter lib = put_endpoints_snapshot s n (node_endpoints_snapshot s n node') in
      let g =
        put_endpoints-Keeps s n node node' all h.0
          (node-Kept endpoints update node node' (endpoints_update-Kept s n) (h.0).0 updated) in
      Keeps-trans s.nodes s'.nodes t.nodes g.1 (
        endpoints_nodes_loop-Keeps nodes s' t g.0 (Listed-after nodes s.nodes s'.nodes g.1 h.1)
          rest)

  pub finish_endpoints-Keeps :
      (s s' : Snapshotter lib) (m : Result (Snapshotter lib))
      → Distinct s.nodes
      → AllAskedOnce s.nodes
      → s'.nodes ≡ s.nodes
      → endpoints_nodes_loop s'.nodes s' ≡ m
      → Keeps s.nodes (finish s m).0.nodes
  finish_endpoints-Keeps s s' (ok t) d all same q =
      subst (λ nodes. Keeps nodes t.nodes) same
        (endpoints_nodes_loop-Keeps s'.nodes s' t (subst AllAskedOnce (sym same) all)
          (subst (λ nodes. Listed nodes nodes) (sym same) (Listed-self s.nodes d all)) q)
  finish_endpoints-Keeps s s' (err e) d all same q = Keeps-refl s.nodes all
  finish_endpoints-Keeps s s' panic d all same q = Keeps-refl s.nodes all
