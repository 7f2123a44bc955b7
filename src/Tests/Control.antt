-- ===== src/Tests/Control.antt =====
-- The theorems on the controller, its queue and the configuration at concrete inputs.
use semaphore_xds.Prelude.{
  not, ◌==◌, contains, if◌then◌else◌, ◌++◌, ◌≡◌, All, String, none, some, refl, [], ◌∷◌, List,
  false, string_eq,
}
use semaphore_xds.Controller.Kube.{found, Controller, Client, XdsService}
use semaphore_xds.Controller.Contents.{endpoints_store_lem, expected_slices}
use semaphore_xds.Controller.Extends.{slices_at}
use semaphore_xds.Policy.{prioritize_local, parse_priority_strategy}
use semaphore_xds.Service.{XdsServiceStore}
use semaphore_xds.Prelude.{true}
use semaphore_xds.Endpoint.{XdsEndpointStore}
use semaphore_xds.Controller.Stores.{
  configured_service, services_to_xds_service_store, remote_clients_loop,
  endpoints_store_for_xds_service_store,
}
use semaphore_xds.Queue.{process_item, WorkQueue, Queue, Reconcile}
use semaphore_xds.Queue.Requeued.{process_item-requeued, NoRepeats}
use semaphore_xds.Config.{parse_config_lem, Parsed, Config, parse_config}
use semaphore_xds.Tests.Values.{service_store, api, new_server, api_slice}
use semaphore_xds.Names.{store_key}
use semaphore_xds.Controller.Priorities.{endpoints_store-IsGapless, IsGapless}
use semaphore_xds.Prelude.GoMap.{lookup, insert}
use semaphore_xds.Controller.Reconcile.{remote_reconcile_loop}
use semaphore_xds.Controller.Wrapper.{unstarted_client_lem, client_of, ClientWrapper}
use semaphore_xds.Prelude.Result.{ok}

-- A local cluster with one slice, and a remote one with the same.
abbrev test_client : Client
test_client = record {
  service = λ name namespace. found api;
  endpoint_slice = λ name namespace. found api_slice;
  endpoint_slice_list = λ label namespace. found (api_slice ∷ []);
  xds_service_list = found [];
}

abbrev test_controller : Controller
test_controller = record {
  local_client = test_client;
  remote_clients = test_client ∷ [];
  labelled_services = found (api ∷ []);
  lb_policy_label = "lb-policy";
  to_lower = λ s. s;
  trim_space = λ s. s;
  parse_duration = λ s. none;
}

-- the endpoints of the service with remote ones as a fallback
abbrev pub prioritised : XdsEndpointStore
prioritised =
    (
      "api.shop",
      record {
        endpoint_slices =
            record { endpoint_slice = api_slice; priority = 0 }
            ∷ record { endpoint_slice = api_slice; priority = 1 }
            ∷ [];
        namespace = "shop";
        service = "api";
      },
    )
    ∷ []

prioritised_lem :
    endpoints_store_for_xds_service_store test_controller service_store ≡ ok prioritised
unfolding endpoints_store_for_xds_service_store store_key insert lookup
prioritised_lem = refl

endpoints_store-IsGapless_example : All IsGapless prioritised
endpoints_store-IsGapless_example =
    endpoints_store-IsGapless test_controller service_store prioritised prioritised_lem

abbrev pub list_queue : WorkQueue
list_queue = record {
  Items = List String;
  get_next = λ items. elim items [ [] ↦ none | key ∷ rest ↦ some (key, rest) ];
  enqueue = λ items key. items ++ key ∷ [];
  add_rate_limited = λ items key. items ++ key ∷ [];
  forget_key = λ items key. items;
  done = λ items key. items;
  shut_down = λ items. [];
  split_key = λ key. if key == "shop/api" then some ("shop", "api") else none;
}

abbrev waiting : Queue list_queue
waiting = record { items = "shop/api" ∷ []; requeued = "shop/web" ∷ [] }

-- a reconciliation that always fails
abbrev failing : Reconcile (Unit {0})
failing state name namespace = (state, false)

process_item-requeued_example :
    NoRepeats (process_item failing tt waiting).1.requeued
    × ((j : String)
        → contains (process_item failing tt waiting).1.requeued j ≡ (
            if j == "shop/api"
            then not (failing tt "api" "shop").1
            else contains waiting.requeued j))
process_item-requeued_example =
    process_item-requeued failing tt waiting "shop/api" "shop" "api" [] (tt, tt) refl refl

abbrev test_config : Config
test_config = record {
  local_kube_config_path = "";
  remotes =
      some (record {
        kube_config_path = "";
        api_url = "https://api";
        ca_url = "";
        sa_token_path = "/token";
      })
      ∷ [];
}

parse_config_lem_example : Parsed test_config test_config.remotes (parse_config some test_config)
parse_config_lem_example = parse_config_lem some test_config test_config refl

abbrev unstarted : ClientWrapper
unstarted = record {
  factory_kube = none;
  get_service = λ name namespace. found api;
  list_xds_services = found [];
}

unstarted_client_lem_example :
    (remote_clients_loop "api" "shop" 1 (client_of unstarted ∷ test_client ∷ []) []
      ≡ remote_clients_loop "api" "shop" 1 (test_client ∷ []) [])
    × (remote_reconcile_loop test_controller new_server "api" "shop"
          (client_of unstarted ∷ test_client ∷ [])
        ≡ remote_reconcile_loop test_controller new_server "api" "shop" (test_client ∷ []))
unstarted_client_lem_example =
    unstarted_client_lem test_controller new_server unstarted (test_client ∷ []) "api" "shop" 1 []
      refl

-- an XdsService that falls back to remote endpoints
abbrev local_first : XdsService
local_first = record {
  namespace = "shop";
  spec = record {
    enable_remote_endpoints = some true;
    load_balancing = record { policy = "round_robin"; ring_hash = none };
    priority_strategy = "local-first";
    retry = none;
    service_name = "api";
  };
}

abbrev pub xds_controller : Controller
xds_controller = record test_controller {
  local_client = record test_client { xds_service_list = found (local_first ∷ []) };
}

abbrev pub xds_store : XdsServiceStore
xds_store = ("api.shop", configured_service xds_controller local_first.spec api) ∷ []

pub xds_store_lem : services_to_xds_service_store xds_controller ≡ ok xds_store
unfolding services_to_xds_service_store store_key insert
xds_store_lem = refl

pub xds_endpoints_lem :
    endpoints_store_for_xds_service_store xds_controller xds_store ≡ ok prioritised
unfolding endpoints_store_for_xds_service_store store_key insert lookup prioritize_local
    parse_priority_strategy
xds_endpoints_lem = refl

endpoints_store_lem_example :
    expected_slices xds_controller "api.shop" [] xds_store ≡ ok (slices_at "api.shop" prioritised)
endpoints_store_lem_example =
    endpoints_store_lem xds_controller xds_store prioritised "api.shop" xds_store_lem
      xds_endpoints_lem
