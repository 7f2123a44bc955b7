-- ===== src/Snapshotter/Reach.antt =====
-- The server as a state machine: its events, the states that they lead to, and what always holds.
pub mod Keys
use semaphore_xds.Prelude.{
  ℕ, String, ◌≡◌, ◌≢◌, ◌↔◌, refl, List, [], Bool, true, false, Option, Option-cases, Bool-cases,
  inl, inr, ◌==◌, string_eq, nat_eq,
}
use semaphore_xds.Prelude.Result.{Result-cases, Result, ok, err, panic, ◌>>=◌}
use semaphore_xds.Service.{XdsServiceStore}
use semaphore_xds.Endpoint.{XdsEndpointStore}
use semaphore_xds.Snapshotter.Library.{Library}
use semaphore_xds.Snapshotter.State.{Snapshotter, Stream, wait_for_request_limit, empty_node_id}
use semaphore_xds.Snapshotter.Nodes.{add_or_update_node, need_to_update_snapshot}
use semaphore_xds.Snapshotter.Snap.{all_endpoints, snap_services, snap_endpoints}
use semaphore_xds.Snapshotter.Handlers.{
  DiscoveryRequest, new_snapshotter, on_stream_open, on_stream_closed, on_stream_request,
  serve_request, serve_update, DeltaDiscoveryRequest, on_stream_delta_request,
}
use semaphore_xds.Snapshotter.Delta.{IsNotLinear, on_stream_delta_request_lem}
use semaphore_xds.Snapshotter.Safe.{bind-Safe, Safe, Anything}
use semaphore_xds.Snapshotter.Invariant.{IsWellFormed, add_or_update_node-IsWellFormed}
use semaphore_xds.Snapshotter.Preserve.{
  Keeps, delete_node_stream-IsWellFormed, update_stream_node_resources-Keeps, type_kinds,
}
use semaphore_xds.Prelude.GoMap.{delete, lookup}
use semaphore_xds.Snapshotter.Snapping.{snap_services-Keeps, snap_endpoints-KeepsIf}

ne-panic : {A : Type 0} (m : Result A) → Safe Anything m → m ≢ panic
ne-panic (ok a) h e = cc
ne-panic (err x) h e = cc
ne-panic panic h e = h

Safe-of_ne : {A : Type 0} (m : Result A) → m ≢ panic → Safe Anything m
Safe-of_ne (ok a) h = tt
Safe-of_ne (err x) h = tt
Safe-of_ne panic h = absurd (h refl)

-- What happens to the server: a client's stream, or a change in Kubernetes.
pub data Event : Type 0 where
  opens : String → ℕ → Event
  closes : ℕ → String → Event
  requests : ℕ → DiscoveryRequest → Option String → Option String → Event
  services_change : XdsServiceStore → Event
  endpoints_change : XdsEndpointStore → Event

module _ {lib : Library} where
  unfoldable pub step : Snapshotter lib → Event → Snapshotter lib × Result (Unit {0})
  unfolding on_stream_open on_stream_closed on_stream_request snap_services snap_endpoints
  step s (opens peer id) = (on_stream_open s peer id, ok tt)
  step s (closes id node_id) = (on_stream_closed s id node_id, ok tt)
  step s (requests id r stream_wait server_wait) = on_stream_request s id r stream_wait server_wait
  step s (services_change store) = snap_services s store
  step s (endpoints_change store) = snap_endpoints s store

  -- The states that the server can come to, errors included.
  pub data Reach (start : Snapshotter lib) : Snapshotter lib → Type 0 where
    here : Reach start start
    next : {s : Snapshotter lib} → Reach start s → (e : Event) → Reach start (step s e).0

need_to_update-Safe :
    {lib : Library} (s : Snapshotter lib) (node_id type_url : String) (id : ℕ) (names : List String)
    → Safe Anything (need_to_update_snapshot s node_id type_url id names)
unfolding need_to_update_snapshot
need_to_update-Safe s node_id type_url id names = elim (Option-cases (lookup node_id s.nodes)) [
  | inl m ↦ rw (m, need_to_update_snapshot) tt
  | inr (node, m) ↦ elim (Option-cases (lookup id node.resources)) [
    | inl k ↦ rw (m, k, need_to_update_snapshot) tt
    | inr (r, k) ↦ elim (type_kinds type_url) [
      | inl t ↦ rw (m, k, t, need_to_update_snapshot) tt
      | inr (inl t) ↦ rw (m, k, t, need_to_update_snapshot) tt
      | inr (inr t) ↦ rw (m, k, t, need_to_update_snapshot) tt
    ]
  ]
]

wait-Safe :
    (lib : Library) (limit : lib.Rate) (answer : Option String)
    → Safe Anything (wait_for_request_limit lib limit answer)
unfolding wait_for_request_limit
wait-Safe lib limit answer = elim (Bool-cases (lib.is_zero limit)) [
  | inl e ↦ rw e tt
  | inr e ↦ elim (Option-cases answer) [ inl k ↦ rw (e, k) tt | inr (m, k) ↦ rw (e, k) tt ]
]

module _ {lib : Library} (s : Snapshotter lib) (w : IsWellFormed s.nodes) where
  serve_update-Keeps :
      (id : ℕ) (r : DiscoveryRequest) (m : Result Bool)
      → Safe Anything m
      → Keeps (serve_update s id r m)
  serve_update-Keeps id r (ok true) h =
      update_stream_node_resources-Keeps s w r.node_id r.type_url id r.resource_names
  serve_update-Keeps id r (ok false) h = (w, tt)
  serve_update-Keeps id r (err e) h = (w, tt)
  serve_update-Keeps id r panic h = absurd h

module _ {lib : Library} (s : Snapshotter lib) (w : IsWellFormed s.nodes) where
  serve_request-Keeps :
      (id : ℕ) (stream : Stream lib) (r : DiscoveryRequest) → Keeps (serve_request s id stream r)
  unfolding serve_request
  serve_request-Keeps id stream r = elim (Bool-cases (r.node_id == empty_node_id)) [
    | inl e ↦ rw e (w, tt)
    | inr e ↦
        let s' : Snapshotter lib = add_or_update_node s r.node_id stream.peer_address id in
        let w' = add_or_update_node-IsWellFormed s r.node_id stream.peer_address id w in
        rw e (
          serve_update-Keeps s' w' id r _
            (need_to_update-Safe s' r.node_id r.type_url id r.resource_names))
  ]

  on_stream_request-Keeps :
      (id : ℕ) (r : DiscoveryRequest) (stream_wait server_wait : Option String)
      → Keeps (on_stream_request s id r stream_wait server_wait)
  unfolding on_stream_request
  on_stream_request-Keeps id r stream_wait server_wait = elim (Option-cases (lookup id s.streams)) [
    | inl e ↦ rw (e, on_stream_request) (w, tt)
    | inr (stream, e) ↦
        let waits =
          bind-Safe Anything Anything
            (wait_for_request_limit lib stream.request_rate_limit stream_wait)
            (λ _. wait_for_request_limit lib s.request_rate_limit server_wait)
            (wait-Safe lib stream.request_rate_limit stream_wait)
            (λ _ _. wait-Safe lib s.request_rate_limit server_wait) in
        elim (Result-cases (
          wait_for_request_limit lib stream.request_rate_limit stream_wait >>= λ _.
          wait_for_request_limit lib s.request_rate_limit server_wait)) [
            | inl (u, k) ↦ rw (e, k, on_stream_request) (serve_request-Keeps id stream r)
            | inr (inl (x, k)) ↦ rw (e, k, on_stream_request) (w, tt)
            | inr (inr k) ↦ absurd (rw k at waits)
          ]
  ]

  step-IsWellFormed : (e : Event) → IsWellFormed (step s e).0.nodes
  unfolding step on_stream_open on_stream_closed
  step-IsWellFormed (opens peer id) = w
  step-IsWellFormed (closes id node_id) =
      delete_node_stream-IsWellFormed (record s { streams = delete id s.streams }) w node_id id
  step-IsWellFormed (requests id r a b) = (on_stream_request-Keeps id r a b).0
  step-IsWellFormed (services_change store) = (snap_services-Keeps s store w).0
  step-IsWellFormed (endpoints_change store) = (snap_endpoints-KeepsIf s store w).0

pub Reach-IsWellFormed :
    {lib : Library} {s t : Snapshotter lib}
    → IsWellFormed s.nodes
    → Reach s t
    → IsWellFormed t.nodes
Reach-IsWellFormed w here = w
Reach-IsWellFormed w (next {s = t} r e) = step-IsWellFormed t (Reach-IsWellFormed w r) e

module _ {lib : Library} (authority : String) (request_limit stream_request_limit : lib.Rate)
    (localhost : Bool) (services endpoints : lib.Cache) (cds eds rds vhds : lib.Linear)
    {s : Snapshotter lib}
    (reached : Reach
      (new_snapshotter authority request_limit stream_request_limit localhost services endpoints cds
        eds rds vhds)
      s) where
  -- In every state that a new server can reach by any events, errors and panics of single steps
  -- included, the nodes map has distinct keys, none of them the empty node id, every node has at
  -- least one stream, and each stream's requested names are filed under type URLs of their kind.
  pub reachable-IsWellFormed : IsWellFormed s.nodes
  unfolding new_snapshotter
  reachable-IsWellFormed = Reach-IsWellFormed (tt, tt) reached

  -- In every state that a new server can reach by any events, no call of OnStreamRequest panics,
  -- whatever stream and node the request names and whatever the rate limiters answer. A call of
  -- OnStreamDeltaRequest panics exactly if it subscribes to at least one name and its type is none of
  -- the four types that have a linear cache.
  pub reachable-on_stream_request :
      (id : ℕ) (r : DiscoveryRequest) (stream_wait server_wait : Option String)
      (delta : DeltaDiscoveryRequest)
      → ((on_stream_request s id r stream_wait server_wait).1 ≢ panic)
        × ((on_stream_delta_request s delta ≡ panic)
            ↔ ((delta.resource_names_subscribe ≢ []) × IsNotLinear delta.type_url))
  reachable-on_stream_request id r a b delta = (
    ne-panic _ (on_stream_request-Keeps s reachable-IsWellFormed id r a b).1,
    on_stream_delta_request_lem s delta,
  )

  -- In every state that a new server can reach by any events, no service store makes SnapServices
  -- panic.
  pub reachable-snap_services : (store : XdsServiceStore) → (snap_services s store).1 ≢ panic
  reachable-snap_services store = ne-panic _ (snap_services-Keeps s store reachable-IsWellFormed).1

  -- In every state that a new server can reach by any events, SnapEndpoints panics on no store whose
  -- translation does not.
  pub reachable-snap_endpoints :
      (store : XdsEndpointStore)
      → all_endpoints s store ≢ panic
      → (snap_endpoints s store).1 ≢ panic
  reachable-snap_endpoints store h =
      ne-panic _ ((snap_endpoints-KeepsIf s store reachable-IsWellFormed).1 (Safe-of_ne _ h))
