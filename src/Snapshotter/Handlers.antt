-- ===== src/Snapshotter/Handlers.antt =====
-- NewSnapshotter, NodesMap and the stream callbacks of xds/snapshotter.go. Logging, metrics and
-- gRPC's set-up are left out; so are OnStreamResponse, OnFetchRequest, OnFetchResponse,
-- OnDeltaStreamOpen, OnDeltaStreamClosed and OnStreamDeltaResponse, which do nothing else.
use Prim.Native.String.{◌++◌ as concat}
use semaphore_xds.Prelude.{
  ℕ, String, Bool, true, false, Option, none, some, List, [], ◌∷◌, map, if◌then◌else◌, ◌==◌,
  string_eq, nat_eq,
}
use semaphore_xds.Prelude.Decimal.{pos}
use semaphore_xds.Prelude.GoMap.{GoMap, lookup, insert, delete}
use semaphore_xds.Prelude.Result.{Result, ok, err, panic, ◌>>=◌}
use semaphore_xds.Endpoint.{deref}
use semaphore_xds.Snapshotter.Library.{Library}
use semaphore_xds.Snapshotter.State.{
  empty_node_id, Node, Stream, Snapshotter, get_delta_cache_for_type, wait_for_request_limit,
}
use semaphore_xds.Snapshotter.Nodes.{
  add_or_update_node, delete_node_stream, need_to_update_snapshot, update_stream_node_resources,
}

-- discovery.DiscoveryRequest: what the program reads of it
pub record DiscoveryRequest : Type 0 where
  pub node_id : String
  pub type_url : String
  pub resource_names : List String

-- discovery.DeltaDiscoveryRequest: what the program reads of it
pub record DeltaDiscoveryRequest : Type 0 where
  pub type_url : String
  pub resource_names_subscribe : List String

-- The cache is read for each name, to warn of one that is missing; a nil cache is a panic.
unfoldable pub subscribe_loop {ℓ} : {A : Type ℓ} → Option A → List String → Result (Unit {0})
subscribe_loop cache [] = ok tt
subscribe_loop cache (name ∷ names) = deref cache >>= λ _. subscribe_loop cache names

module _ {lib : Library} where
  -- The caches are those that go-control-plane makes.
  unfoldable pub new_snapshotter :
      String
      → lib.Rate
      → lib.Rate
      → Bool
      → (services endpoints : lib.Cache) (cds eds rds vhds : lib.Linear) → Snapshotter lib
  new_snapshotter authority request_limit stream_request_limit localhost_endpoints services
        endpoints cds eds rds vhds =
      record {
        authority = authority;
        services_cache = services;
        service_snap_version = pos 0;
        endpoints_cache = endpoints;
        endpoints_snap_version = pos 0;
        delta_cds_cache = cds;
        delta_eds_cache = eds;
        delta_rds_cache = rds;
        delta_vhds_cache = vhds;
        request_rate_limit = request_limit;
        stream_request_per_second = stream_request_limit;
        streams = [];
        nodes = [];
        localhost_endpoints = localhost_endpoints;
      }

  unfoldable pub services_snapshot : Snapshotter lib → String → Option (lib.Snapshot)
  services_snapshot s node_id = lib.get_snapshot s.services_cache node_id

  unfoldable pub endpoints_snapshot : Snapshotter lib → String → Option (lib.Snapshot)
  endpoints_snapshot s node_id = lib.get_snapshot s.endpoints_cache node_id

  unfoldable pub nodes_map : Snapshotter lib → GoMap String String
  nodes_map s = map (λ (entry : String × Node). (entry.0, (entry.1).address)) s.nodes

  unfoldable pub on_stream_open : Snapshotter lib → String → ℕ → Snapshotter lib
  on_stream_open s peer_address id = record s {
    streams =
        insert id
          (record { peer_address = peer_address; request_rate_limit = s.stream_request_per_second })
          s.streams;
  }

  unfoldable pub on_stream_closed : Snapshotter lib → ℕ → String → Snapshotter lib
  unfolding delete_node_stream
  on_stream_closed s id node_id =
      delete_node_stream (record s { streams = delete id s.streams }) node_id id

  -- the last `if` of OnStreamRequest, on the answer of needToUpdateSnapshot
  abbrev pub serve_update :
      Snapshotter lib → ℕ → DiscoveryRequest → Result Bool → Snapshotter lib × Result (Unit {0})
  serve_update s id r (ok true) =
      update_stream_node_resources s r.node_id r.type_url id r.resource_names
  serve_update s id r (ok false) = (s, ok tt)
  serve_update s id r (err e) = (s, err e)
  serve_update s id r panic = (s, panic)

  -- the part of OnStreamRequest behind the rate limits
  unfoldable pub serve_request :
      Snapshotter lib → ℕ → Stream lib → DiscoveryRequest → Snapshotter lib × Result (Unit {0})
  serve_request s id stream r =
      if r.node_id == empty_node_id
      then (s, ok tt)
      else let s' : Snapshotter lib = add_or_update_node s r.node_id stream.peer_address id in
        serve_update s' id r (need_to_update_snapshot s' r.node_id r.type_url id r.resource_names)

  -- `stream_wait` and `server_wait` are what the two rate limiters answer.
  unfoldable pub on_stream_request :
      Snapshotter lib
      → ℕ
      → DiscoveryRequest
      → (stream_wait server_wait : Option String) → Snapshotter lib × Result (Unit {0})
  unfolding serve_request wait_for_request_limit
  on_stream_request s id r stream_wait server_wait = elim (lookup id s.streams) [
    | none ↦ (s, err "Unknown stream id")
    | some stream ↦
        elim (wait_for_request_limit lib stream.request_rate_limit stream_wait >>= λ _.
        wait_for_request_limit lib s.request_rate_limit server_wait) [
          | ok _ ↦ serve_request s id stream r
          | err e ↦ (s, err (concat "stream request rate limit exceeded: " e))
          | panic ↦ (s, panic)
        ]
  ]

  unfoldable pub on_stream_delta_request :
      Snapshotter lib → DeltaDiscoveryRequest → Result (Unit {0})
  unfolding subscribe_loop get_delta_cache_for_type
  on_stream_delta_request s r =
      subscribe_loop (get_delta_cache_for_type s r.type_url) r.resource_names_subscribe
