-- ===== src/Tests/Names.antt =====
-- The theorems on names, policies and retries at concrete inputs.
use semaphore_xds.Prelude.Text.{Free}
use semaphore_xds.Dummy.{replace_first}
use semaphore_xds.Policy.{LbPolicy, parse_cluster_lb_policy, parse_to_cluster_lb_policy}
use semaphore_xds.Retry.{Duration, lt, parse_retry_back_off}
use semaphore_xds.Names.Injective.{make_cluster_name-injective}
use semaphore_xds.Prelude.Decimal.{pos}
use semaphore_xds.Names.{make_cluster_name, make_listener_name}
use semaphore_xds.Policy.RoundTrip.{lb_policy_round_trip}
use semaphore_xds.Retry.Bounds.{max_interval-ge-base_interval}
use semaphore_xds.Dummy.Names.{replace_first-make_listener_name}
use semaphore_xds.Tests.Values.{api}
use semaphore_xds.Prelude.{
  refl, string_eq, none, some, if◌then◌else◌, ◌==◌, false, Option, ◌≡◌, String,
}

-- A text of characters that all differ from `c`.
api-Free : Free "." "api"
api-Free = ((λ e. cc), ((λ e. cc), ((λ e. cc), tt)))

shop-Free : Free "." "shop"
shop-Free = ((λ e. cc), ((λ e. cc), ((λ e. cc), ((λ e. cc), tt))))

make_cluster_name-injective_example :
    (api.name ≡ "api") × (api.namespace ≡ "shop") × (pos 80 ≡ pos 80)
make_cluster_name-injective_example =
    make_cluster_name-injective "api" "api" "shop" "shop" (pos 80) (pos 80) api-Free api-Free
      shop-Free shop-Free refl

replace_first-make_listener_name_example :
    replace_first ":" "." (make_listener_name "api" "shop" (pos 80))
    ≡ make_cluster_name "api" "shop" (pos 80)
replace_first-make_listener_name_example =
    replace_first-make_listener_name "api" "shop" (pos 80) ((λ e. cc), ((λ e. cc), ((λ e. cc), tt)))
      ((λ e. cc), ((λ e. cc), ((λ e. cc), ((λ e. cc), tt))))

lb_policy_round_trip_example :
    parse_to_cluster_lb_policy (parse_cluster_lb_policy LbPolicy.ring_hash) ≡ LbPolicy.ring_hash
lb_policy_round_trip_example = lb_policy_round_trip LbPolicy.ring_hash tt

abbrev parse_one : String → Option Duration
parse_one s = if s == "1s" then some (pos 1000000000) else none

max_interval-ge-base_interval_example :
    lt
      (parse_retry_back_off parse_one "1s" "").max_interval
      (parse_retry_back_off parse_one "1s" "").base_interval
    ≡ false
max_interval-ge-base_interval_example = max_interval-ge-base_interval parse_one "1s" ""
