-- ===== src/Service.antt =====
-- Services and their translation to xDS: xds/service.go. What serialises a message, anypb.New, is
-- the argument `pack` of the builders, `none` where it returns an error.
pub mod Build
pub mod Translate
pub mod Store
pub mod Complete
pub mod WithNames
pub mod Routed
pub mod Unique
use semaphore_xds.Prelude.{String, ◌≡◌, Bool, Option, none, some, List, string_eq}
use semaphore_xds.Prelude.Decimal.{ℤ}
use semaphore_xds.Prelude.GoMap.{GoMap, lookup, insert}
use semaphore_xds.Prelude.Result.{Result, ok, err}
use semaphore_xds.Names.{store_key}
use semaphore_xds.Policy.{LbPolicy}
use semaphore_xds.Retry.{RetryPolicy}
use semaphore_xds.Resource.{RingHashLbConfig, HashPolicy}

-- What the program reads of a Kubernetes Service.
pub record KubeService : Type 0 where
  pub name : String
  pub namespace : String
  pub labels : GoMap String String
  pub ports : List ℤ

-- Service
pub record Service : Type 0 where
  pub enable_remote_endpoints : Bool
  pub policy : LbPolicy
  pub ring_hash : Option RingHashLbConfig
  pub ring_hash_policies : List HashPolicy
  pub prioritize_local_endpoints : Bool
  pub service : KubeService
  pub retry : Option RetryPolicy

-- xdsServiceStoreWrapper: its map, by `store_key`
abbrev pub XdsServiceStore : Type 0
XdsServiceStore = GoMap String Service

unfoldable pub new_xds_service_store : XdsServiceStore
new_xds_service_store = List.[]

unfoldable pub add_or_update : KubeService → Service → XdsServiceStore → XdsServiceStore
add_or_update service xds_service store =
    insert (store_key service.name service.namespace) (record xds_service { service = service })
      store

unfoldable pub get : String → String → XdsServiceStore → Result Service
get service namespace store = elim (lookup (store_key service namespace) store) [
  | none ↦ err "Service not found in store"
  | some svc ↦ ok svc
]
