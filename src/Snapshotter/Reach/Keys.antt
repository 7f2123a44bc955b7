-- ===== src/Snapshotter/Reach/Keys.antt =====
-- In every state of the server the maps of streams, and of the names that they ask for, repeat no key.
use semaphore_xds.Prelude.{
  ℕ, String, Bool, true, false, Option, Option-cases, Bool-cases, inl, inr, ◌==◌, string_eq, nat_eq,
}
use semaphore_xds.Prelude.GoMap.{lookup, delete}
use semaphore_xds.Prelude.Result.{Result, Result-cases, ok, err, panic, ◌>>=◌}
use semaphore_xds.Snapshotter.Library.{Library}
use semaphore_xds.Snapshotter.State.{Snapshotter, Stream, wait_for_request_limit, empty_node_id}
use semaphore_xds.Snapshotter.Nodes.{add_or_update_node, need_to_update_snapshot}
use semaphore_xds.Snapshotter.Handlers.{
  DiscoveryRequest, new_snapshotter, on_stream_open, on_stream_closed, on_stream_request,
  serve_request, serve_update,
}
use semaphore_xds.Snapshotter.Fresh.Unchanged.{AllAskedOnce}
use semaphore_xds.Snapshotter.Fresh.Snaps.{snap_services-KeepsAsks, snap_endpoints-KeepsAsks}
use semaphore_xds.Snapshotter.Once.{
  delete_node_stream-AllAskedOnce, add_or_update_node-AllAskedOnce,
  update_stream_node_resources-AllAskedOnce,
}
use semaphore_xds.Snapshotter.Invariant.{IsWellFormed}
use semaphore_xds.Snapshotter.Reach.{
  Event, opens, closes, requests, services_change, endpoints_change, step, Reach, here, next,
  Reach-IsWellFormed,
}

module _ {lib : Library} (s : Snapshotter lib) (once : AllAskedOnce s.nodes) where
  serve_update-AllAskedOnce :
      (id : ℕ) (r : DiscoveryRequest) (m : Result Bool)
      → AllAskedOnce (serve_update s id r m).0.nodes
  serve_update-AllAskedOnce id r (ok true) =
      update_stream_node_resources-AllAskedOnce s once r.node_id r.type_url id r.resource_names
  serve_update-AllAskedOnce id r (ok false) = once
  serve_update-AllAskedOnce id r (err e) = once
  serve_update-AllAskedOnce id r panic = once

module _ {lib : Library} (s : Snapshotter lib) (once : AllAskedOnce s.nodes) where
  serve_request-AllAskedOnce :
      (id : ℕ) (stream : Stream lib) (r : DiscoveryRequest)
      → AllAskedOnce (serve_request s id stream r).0.nodes
  unfolding serve_request
  serve_request-AllAskedOnce id stream r = elim (Bool-cases (r.node_id == empty_node_id)) [
    | inl e ↦ rw e once
    | inr e ↦
        let s' : Snapshotter lib = add_or_update_node s r.node_id stream.peer_address id in
        rw e (
          serve_update-AllAskedOnce s'
            (add_or_update_node-AllAskedOnce s once r.node_id stream.peer_address id) id r
            (need_to_update_snapshot s' r.node_id r.type_url id r.resource_names))
  ]

  on_stream_request-AllAskedOnce :
      (id : ℕ) (r : DiscoveryRequest) (stream_wait server_wait : Option String)
      → AllAskedOnce (on_stream_request s id r stream_wait server_wait).0.nodes
  unfolding on_stream_request
  on_stream_request-AllAskedOnce id r stream_wait server_wait =
      elim (Option-cases (lookup id s.streams)) [
        | inl e ↦ rw (e, on_stream_request) once
        | inr (stream, e) ↦
            elim (Result-cases (
              wait_for_request_limit lib stream.request_rate_limit stream_wait >>= λ _.
              wait_for_request_limit lib s.request_rate_limit server_wait)) [
                | inl (u, k) ↦ rw (e, k, on_stream_request) (serve_request-AllAskedOnce id stream r)
                | inr (inl (x, k)) ↦ rw (e, k, on_stream_request) once
                | inr (inr k) ↦ rw (e, k, on_stream_request) once
              ]
      ]

  step-AllAskedOnce : IsWellFormed s.nodes → (e : Event) → AllAskedOnce (step s e).0.nodes
  unfolding step on_stream_open on_stream_closed
  step-AllAskedOnce w (opens peer id) = once
  step-AllAskedOnce w (closes id node_id) =
      delete_node_stream-AllAskedOnce (record s { streams = delete id s.streams }) once node_id id
  step-AllAskedOnce w (requests id r a b) = on_stream_request-AllAskedOnce id r a b
  step-AllAskedOnce w (services_change store) = (snap_services-KeepsAsks s w.0 once store).0
  step-AllAskedOnce w (endpoints_change store) = (snap_endpoints-KeepsAsks s w.0 once store).0

Reach-AllAskedOnce :
    {lib : Library} {s t : Snapshotter lib}
    → IsWellFormed s.nodes
    → AllAskedOnce s.nodes
    → Reach s t
    → AllAskedOnce t.nodes
Reach-AllAskedOnce w once here = once
Reach-AllAskedOnce w once (next {s = t} r e) =
    step-AllAskedOnce t (Reach-AllAskedOnce w once r) (Reach-IsWellFormed w r) e

-- In every state that a new server can reach by any events, no node has a stream twice, and no stream
-- has a type twice among those that it asks for.
reachable-AllAskedOnce :
    {lib : Library} (authority : String) (request_limit stream_request_limit : lib.Rate)
    (localhost : Bool) (services endpoints : lib.Cache) (cds eds rds vhds : lib.Linear)
    {s : Snapshotter lib}
    → Reach
        (new_snapshotter authority request_limit stream_request_limit localhost services endpoints
          cds eds rds vhds)
        s
    → AllAskedOnce s.nodes
unfolding new_snapshotter
reachable-AllAskedOnce authority request_limit stream_request_limit localhost services endpoints cds
      eds rds vhds reached =
    Reach-AllAskedOnce (tt, tt) tt reached
