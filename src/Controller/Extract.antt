-- ===== src/Controller/Extract.antt =====
-- What the controller takes out of a Service's labels and an XdsService: the `extract…` functions.
use semaphore_xds.Prelude.{string_eq, String, Option, none, some, List, [], ◌∷◌, map, if◌then◌else◌}
use semaphore_xds.Policy.{is_ring_hash, LbPolicy, parse_to_cluster_lb_policy}
use semaphore_xds.Controller.Kube.{Retry, RingHash, Controller}
use semaphore_xds.Retry.{RetryPolicy, parse_retry_back_off, parse_num_retries, parse_retry_on}
use semaphore_xds.Service.{KubeService}
use semaphore_xds.Resource.{HashPolicy, RingHashLbConfig}
use mathlib.Core.Option
use semaphore_xds.Prelude.GoMap.{lookup}

unfoldable pub extract_cluster_lb_policy_from_service_label : Controller → KubeService → LbPolicy
unfolding parse_to_cluster_lb_policy
extract_cluster_lb_policy_from_service_label c service =
    elim (lookup c.lb_policy_label service.labels) [
      | none ↦ LbPolicy.round_robin
      | some raw ↦ parse_to_cluster_lb_policy raw
    ]

unfoldable pub extract_ring_hash_config : LbPolicy → Option RingHash → Option RingHashLbConfig
extract_ring_hash_config policy rh =
    if is_ring_hash policy
    then Option.map
        (λ (r : RingHash). record {
          minimum_ring_size = r.minimum_ring_size;
          maximum_ring_size = r.maximum_ring_size;
        })
        rh
    else none

-- No headers give nil, as no list does.
unfoldable pub extract_ring_hash_policies : LbPolicy → Option RingHash → List HashPolicy
extract_ring_hash_policies policy rh =
    if is_ring_hash policy
    then elim rh [ none ↦ [] | some r ↦ map (λ header. record { header_name = header }) r.headers ]
    else []

-- The test of len(policy.RetryOn)
abbrev pub retry_for : Controller → Retry → List String → Option RetryPolicy
retry_for c policy [] = none
retry_for c policy (x ∷ xs) = some (record {
  retry_on = parse_retry_on c.to_lower c.trim_space policy.retry_on;
  num_retries = parse_num_retries policy.num_retries;
  retry_back_off =
      parse_retry_back_off c.parse_duration policy.retry_back_off.base_interval
        policy.retry_back_off.max_interval;
})

unfoldable pub extract_retry_policy : Controller → Option Retry → Option RetryPolicy
unfolding parse_retry_on parse_num_retries parse_retry_back_off
extract_retry_policy c none = none
extract_retry_policy c (some policy) = retry_for c policy policy.retry_on
