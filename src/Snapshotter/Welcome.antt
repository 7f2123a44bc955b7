-- ===== src/Snapshotter/Welcome.antt =====
-- The first request of a new client is served.
use semaphore_xds.Prelude.{
  arith, ℕ, String, ◌≡◌, ◌≢◌, refl, true, false, none, some, List, [], ◌∷◌, inl, inr, Bool-cases,
  beq_refl, ◌==◌, beq_of_ne, string_eq, nat_eq,
}
use semaphore_xds.Prelude.Decimal.{inc32, itoa, pos}
use semaphore_xds.Prelude.GoMap.{lookup, insert, lookup-insert_self}
use semaphore_xds.Prelude.Result.{ok}
use semaphore_xds.Resource.{cluster_type, listener_type, route_type}
use semaphore_xds.Snapshotter.Library.{IsLawful, Library}
use semaphore_xds.Snapshotter.State.{
  Snapshotter, Stream, Node, map_type_url, empty_node_id, make_empty_node_resources,
  resources_match, wait_for_request_limit,
}
use semaphore_xds.Snapshotter.Nodes.{
  add_or_update_node, names_of, need_to_update_snapshot, update_stream_node_resources,
}
use semaphore_xds.Snapshotter.Fresh.Services.{HasServices}
use semaphore_xds.Snapshotter.Fresh.Found.{found_in}
use semaphore_xds.Snapshotter.Request.{update_stream_node_resources-delivers, services_with}
use semaphore_xds.Snapshotter.Aggregate.{Within}
use semaphore_xds.Prelude.Groups.{held}
use semaphore_xds.Snapshotter.Handlers.{DiscoveryRequest, on_stream_request, serve_request}

-- A node that is new to the server, with one stream.
abbrev pub new_node : String → ℕ → Node
new_node address id = record {
  address = address;
  resources = (id, make_empty_node_resources) ∷ [];
  service_snap_version = pos 0;
  endpoints_snap_version = pos 0;
}

no_names : (t : String) → names_of (lookup t make_empty_node_resources.services_names) ≡ []
unfolding make_empty_node_resources lookup
no_names t = elim (Bool-cases (cluster_type == t)) [
  | inl c ↦ rw c refl
  | inr c ↦ elim (Bool-cases (listener_type == t)) [
    | inl l ↦ rw (c, l) refl
    | inr l ↦ elim (Bool-cases (route_type == t)) [
      | inl r ↦ rw (c, l, r) refl
      | inr r ↦ rw (c, l, r) refl
    ]
  ]
]

nil-match : (names : List String) → names ≢ [] → resources_match [] names ≡ false
unfolding resources_match
nil-match [] h = absurd (h refl)
nil-match (n ∷ names) h = ground arith

wait-granted : (lib : Library) (limit : lib.Rate) → wait_for_request_limit lib limit none ≡ ok tt
unfolding wait_for_request_limit
wait-granted lib limit = elim (Bool-cases (lib.is_zero limit)) [
  | inl e ↦ rw (e, wait_for_request_limit) refl
  | inr e ↦ rw (e, wait_for_request_limit) refl
]

stream_is_there :
    (address : String) (id : ℕ)
    → lookup id (new_node address id).resources ≡ some make_empty_node_resources
unfolding lookup
stream_is_there address id = rw (beq_refl id) refl

module _ {lib : Library} where
  abbrev welcomed : Snapshotter lib → String → String → ℕ → Snapshotter lib
  welcomed s node_id address id = record s { nodes = insert node_id (new_node address id) s.nodes }

  add_or_update_node-new :
      (s : Snapshotter lib) (node_id address : String) (id : ℕ)
      → node_id ≢ empty_node_id
      → lookup node_id s.nodes ≡ none
      → add_or_update_node s node_id address id ≡ welcomed s node_id address id
  unfolding add_or_update_node
  add_or_update_node-new s node_id address id named absent =
      rw (beq_of_ne node_id empty_node_id named, absent, add_or_update_node) refl

  need_to_update-new :
      (s : Snapshotter lib) (node_id address t : String) (id : ℕ) (names : List String)
      → map_type_url t ≡ "services"
      → names ≢ []
      → need_to_update_snapshot (welcomed s node_id address id) node_id t id names ≡ ok true
  unfolding need_to_update_snapshot lookup
  need_to_update-new s node_id address t id names kind asked =
      rw
        (
          lookup-insert_self node_id (new_node address id) s.nodes,
          need_to_update_snapshot,
          beq_refl id,
          kind,
          no_names t,
          nil-match names asked,
        )
        refl

  -- A request that is granted by the limits, of a node that the server does not know yet.
  on_stream_request-new :
      (s : Snapshotter lib) (id : ℕ) (stream : Stream lib) (r : DiscoveryRequest)
      → lookup id s.streams ≡ some stream
      → r.node_id ≢ empty_node_id
      → lookup r.node_id s.nodes ≡ none
      → map_type_url r.type_url ≡ "services"
      → r.resource_names ≢ []
      → on_stream_request s id r none none
        ≡ update_stream_node_resources
            (welcomed s r.node_id stream.peer_address id)
            r.node_id
            r.type_url
            id
            r.resource_names
  unfolding on_stream_request serve_request
  on_stream_request-new s id stream r opened named absent kind asked =
      rw
        (
          opened,
          on_stream_request,
          wait-granted lib stream.request_rate_limit,
          wait-granted lib s.request_rate_limit,
          serve_request,
          beq_of_ne r.node_id empty_node_id named,
          add_or_update_node-new s r.node_id stream.peer_address id named absent,
          need_to_update-new s r.node_id stream.peer_address r.type_url id r.resource_names kind
              asked,
        )
        refl

module _ {lib : Library} (law : IsLawful lib) (full snapshot : lib.Snapshot) where
  -- With a snapshot cache that keeps its nodes apart and outside the localhost mode, where the full
  -- snapshot of the services is there: when an open stream sends the first request of a node that
  -- the server does not know, with an id, for at least one name and a type of the services, and the rate
  -- limiters grant it, then, if the resources for the node can be made into a snapshot with version 1
  -- and the cache takes it, OnStreamRequest returns no error, that snapshot is the node's, and in what
  -- it was made of the resources of the type have in one piece, in order, all those of the full
  -- snapshot under the names that are asked for.
  pub on_stream_request-delivers :
      (s : Snapshotter lib) (id : ℕ) (stream : Stream lib) (r : DiscoveryRequest)
      → HasServices full s
      → lookup id s.streams ≡ some stream
      → r.node_id ≢ empty_node_id
      → lookup r.node_id s.nodes ≡ none
      → map_type_url r.type_url ≡ "services"
      → r.resource_names ≢ []
      → lib.new_snapshot (itoa (inc32 (pos 0))) (
          services_with lib full
            (new_node stream.peer_address id)
            id
            make_empty_node_resources
            r.type_url
            r.resource_names)
        ≡ some snapshot
      → (lib.set_snapshot s.services_cache r.node_id snapshot).1 ≡ true
      → ((on_stream_request s id r none none).1 ≡ ok tt)
        × (lib.get_snapshot (on_stream_request s id r none none).0.services_cache r.node_id
            ≡ some snapshot)
        × Within (found_in lib full r.type_url r.resource_names) (
            held (
              lookup r.type_url (
                services_with lib full
                  (new_node stream.peer_address id)
                  id
                  make_empty_node_resources
                  r.type_url
                  r.resource_names)))
  on_stream_request-delivers s id stream r has opened named absent kind asked made set =
      rw (on_stream_request-new s id stream r opened named absent kind asked) (
        update_stream_node_resources-delivers law full snapshot
          (welcomed s r.node_id stream.peer_address id) r.node_id r.type_url id r.resource_names
          (new_node stream.peer_address id) make_empty_node_resources
          (record { full_services = has.full_services; not_localhost = has.not_localhost }) kind
          (lookup-insert_self r.node_id _ s.nodes) (stream_is_there stream.peer_address id) made
          set)
