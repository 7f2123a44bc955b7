-- ===== src/Dummy.antt =====
-- Resources for the localhost mode: xds/dummy.go.
pub mod Names
use Prim.Native.Char.{Char, code}
use semaphore_xds.Prelude.{
  String, Bool, Option, none, some, List, [], ◌∷◌, ◌++◌, map, if◌then◌else◌, ◌==◌, string_eq,
  nat_beq,
}
use semaphore_xds.Prelude.Result.{Result, ok, err, ◌>>=◌}
use semaphore_xds.Policy.{LbPolicy}
use semaphore_xds.Retry.{RetryPolicy}
use semaphore_xds.Resource.{
  Any, RouteConfiguration, HashPolicy, Resource, listener_type, route_type, cluster_type,
  endpoint_type,
}
use semaphore_xds.Service.Build.{Pack, make_manager, listener, cluster}
use semaphore_xds.Endpoint.{localhost_cluster_load_assignment}

-- strings.Replace(s, old, new, 1), for texts of one character
unfoldable pub replace_first : Char → Char → String → String
replace_first old new String.[] = String.[]
replace_first old new (String.◌∷◌ c s) =
    if nat_beq (code c) (code old) then String.◌∷◌ new s else String.◌∷◌ c (replace_first old new s)

unfoldable pub dummy_route :
    String
    → String
    → String
    → List String
    → Option RetryPolicy
    → List HashPolicy
    → RouteConfiguration
dummy_route route_name cluster_name virtual_host_name domains retry hash_policies = record {
  name = route_name;
  virtual_hosts =
      record {
        name = virtual_host_name;
        domains = domains;
        routes =
            record {
              match_prefix = "";
              cluster = cluster_name;
              hash_policy = hash_policies;
              typed_per_filter_config = [];
            }
            ∷ [];
        retry_policy = retry;
      }
      ∷ [];
  vhds = none;
}

-- the route for a requested name
abbrev pub dummy_route_for : String → RouteConfiguration
dummy_route_for r = dummy_route r (replace_first ":" "." r) r (r ∷ []) none []

-- the loop over requested listeners
unfoldable pub dummy_listeners : Pack → List String → List Resource → Result (List Resource)
dummy_listeners pack [] res = ok res
dummy_listeners pack (r ∷ resources) res = elim (make_manager pack (dummy_route_for r)) [
  | none ↦ err "Cannot generate listener manager"
  | some manager ↦
      dummy_listeners pack resources (res ++ Resource.listener (listener r manager) ∷ [])
]

-- The four tests are on one text and exclude each other; only the first has an error.
unfoldable pub make_dummy_resources : Pack → String → List String → Result (List Resource)
unfolding dummy_listeners
make_dummy_resources pack type_url resources =
    (if type_url == listener_type then dummy_listeners pack resources [] else ok []) >>= λ res.
    let res_route : List Resource =
      if type_url == route_type
      then res ++ map (λ r. Resource.route (dummy_route_for r)) resources
      else res in
    let res_cluster : List Resource =
      if type_url == cluster_type
      then res_route ++ map (λ r. Resource.cluster (cluster r LbPolicy.round_robin)) resources
      else res_route in
    ok (
      if type_url == endpoint_type
      then res_cluster
        ++ map (λ r. Resource.endpoint (localhost_cluster_load_assignment r)) resources
      else res_cluster)
