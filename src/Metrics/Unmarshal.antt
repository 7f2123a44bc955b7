-- ===== src/Metrics/Unmarshal.antt =====
-- The Unmarshal… functions and ExtractManagerFromListener of xds/utils.go.
use semaphore_xds.Prelude.{String, Option}
use semaphore_xds.Resource.{
  Resource, Any, Listener, RouteConfiguration, Cluster, ClusterLoadAssignment,
  HttpConnectionManager, Route,
}

-- What they use of protobuf and of go-control-plane's generated getters.
pub record Protobuf : Type 0 where
  -- anypb.New, whose error is dropped; `none` is the nil pointer beside it
  pub new_any : Resource → Option Any
  -- ptypes.UnmarshalAny into a message of each type; `none` is an error
  pub unmarshal_listener : Option Any → Option Listener
  pub unmarshal_route_configuration : Option Any → Option RouteConfiguration
  pub unmarshal_cluster : Option Any → Option Cluster
  pub unmarshal_cluster_load_assignment : Option Any → Option ClusterLoadAssignment
  pub unmarshal_http_connection_manager : Any → Option HttpConnectionManager
  -- route.GetMatch().GetPath()
  pub get_path : Route → String

module _ (pb : Protobuf) where
  unfoldable pub unmarshal_resource_to_listener : Resource → Option Listener
  unmarshal_resource_to_listener res = pb.unmarshal_listener (pb.new_any res)

  unfoldable pub unmarshal_resource_to_route_configuration : Resource → Option RouteConfiguration
  unmarshal_resource_to_route_configuration res = pb.unmarshal_route_configuration (pb.new_any res)

  unfoldable pub unmarshal_resource_to_cluster : Resource → Option Cluster
  unmarshal_resource_to_cluster res = pb.unmarshal_cluster (pb.new_any res)

  unfoldable pub unmarshal_resource_to_endpoint : Resource → Option ClusterLoadAssignment
  unmarshal_resource_to_endpoint res = pb.unmarshal_cluster_load_assignment (pb.new_any res)

  -- The model's Listener has the message that is inside its ApiListener, for the program makes no
  -- other listeners: that listener.ApiListener is nil, where the code panics, cannot be said here.
  unfoldable pub extract_manager_from_listener : Listener → Option HttpConnectionManager
  extract_manager_from_listener listener =
      pb.unmarshal_http_connection_manager listener.api_listener
