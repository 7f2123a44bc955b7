-- ===== src/Controller/Kube.antt =====
-- What the controller reads of Kubernetes: the XdsService resource, pkg/apis/semaphorexds/v1alpha1,
-- and the clients of kube/client.go, whose answers come from the informers of client-go.
use semaphore_xds.Prelude.{String, Bool, ℕ, Option, List}
use semaphore_xds.Retry.{Duration}
use semaphore_xds.Service.{KubeService}
use semaphore_xds.Endpoint.{EndpointSlice}

-- XdsServiceSpecLoadBalancingRingHash
pub record RingHash : Type 0 where
  pub minimum_ring_size : Option ℕ
  pub maximum_ring_size : Option ℕ
  pub headers : List String

-- XdsServiceSpecLoadBalancing
pub record LoadBalancing : Type 0 where
  pub policy : String
  pub ring_hash : Option RingHash

-- XdsServiceSpecRetryBackoffPolicy
pub record RetryBackoffPolicy : Type 0 where
  pub base_interval : String
  pub max_interval : String

-- XdsServiceSpecRetry
pub record Retry : Type 0 where
  pub retry_on : List String
  pub num_retries : Option ℕ
  pub retry_back_off : RetryBackoffPolicy

-- XdsServiceSpec
pub record XdsServiceSpec : Type 0 where
  pub enable_remote_endpoints : Option Bool
  pub load_balancing : LoadBalancing
  pub priority_strategy : String
  pub retry : Option Retry
  -- XdsServiceSpecService has this one field
  pub service_name : String

pub record XdsService : Type 0 where
  pub namespace : String
  pub spec : XdsServiceSpec

-- A client's answer; an error is of the kind not found, or another with its message.
pub data Fetched {ℓ} (A : Type ℓ) : Type ℓ where
  found : A → Fetched A
  not_found : Fetched A
  failed : String → Fetched A

-- The interface Client of kube/client.go, as far as it reads. One reconciliation reads it at one
-- moment.
pub record Client : Type 0 where
  -- Service(name, namespace)
  pub service : String → String → Fetched KubeService
  -- EndpointSlice(name, namespace)
  pub endpoint_slice : String → String → Fetched EndpointSlice
  -- EndpointSliceList(labelSelector, namespace)
  pub endpoint_slice_list : String → String → Fetched (List EndpointSlice)
  pub xds_service_list : Fetched (List XdsService)

-- Controller, without its queues and its snapshotter, which the operations take beside it.
pub record Controller : Type 0 where
  pub local_client : Client
  pub remote_clients : List Client
  -- serviceWatcher.List()
  pub labelled_services : Fetched (List KubeService)
  -- LbPolicyLabel
  pub lb_policy_label : String
  -- strings.ToLower, strings.TrimSpace and time.ParseDuration
  pub to_lower : String → String
  pub trim_space : String → String
  pub parse_duration : String → Option Duration

-- KubernetesIOServiceNameLabel
abbrev pub kubernetes_io_service_name_label : String
kubernetes_io_service_name_label = "kubernetes.io/service-name"
