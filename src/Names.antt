-- ===== src/Names.antt =====
-- The names of xDS resources: the first functions of xds/utils.go, and `key` of the two stores.
pub mod Injective
use Prim.Native.Char.{Char, code}
use Prim.Native.String.{◌++◌}
use semaphore_xds.Prelude.{ℕ, String, ◌≡◌, refl, Bool, true, false, ◌||◌, if◌then◌else◌, nat_beq}
use semaphore_xds.Prelude.Decimal.{ℤ, pos, itoa}

-- strings.IndexByte(s, c) >= 0
unfoldable pub has_char : Char → String → Bool
has_char c String.[] = false
has_char c (String.◌∷◌ d s) = nat_beq (code c) (code d) || has_char c s

-- net.JoinHostPort: a host with a colon, such as an IPv6 address, is put in brackets.
unfoldable pub join_host_port : String → String → String
unfolding has_char
join_host_port host port =
    if has_char ":" host then "[" ++ host ++ "]:" ++ port else host ++ ":" ++ port

-- `key` of xdsServiceStoreWrapper and of xdsEndpointStoreWrapper
unfoldable pub store_key : String → String → String
store_key service namespace = service ++ "." ++ namespace

unfoldable pub make_cluster_name : String → String → ℤ → String
make_cluster_name name namespace port = name ++ "." ++ (namespace ++ "." ++ itoa port)

unfoldable pub make_global_service_domain : String → String → ℤ → String
unfolding join_host_port
make_global_service_domain name namespace port =
    join_host_port (name ++ "." ++ namespace) (itoa port)

unfoldable pub make_listener_name : String → String → ℤ → String
make_listener_name name namespace port = make_global_service_domain name namespace port

unfoldable pub make_route_config_name : String → String → ℤ → String
make_route_config_name name namespace port = make_global_service_domain name namespace port

unfoldable pub make_virtual_host_name : String → String → ℤ → String
make_virtual_host_name name namespace port = make_global_service_domain name namespace port

unfoldable pub make_xdstp_cluster_name : String → String → String → ℤ → String
make_xdstp_cluster_name name namespace authority port =
    "xdstp://"
    ++ authority
    ++ "/envoy.config.cluster.v3.Cluster/"
    ++ make_cluster_name name namespace port

unfoldable pub make_xdstp_cluster_load_assignment_name : String → String → String → ℤ → String
make_xdstp_cluster_load_assignment_name name namespace authority port =
    "xdstp://"
    ++ authority
    ++ "/envoy.config.endpoint.v3.ClusterLoadAssignment/"
    ++ make_cluster_name name namespace port

unfoldable pub make_xdstp_listener_name : String → String → String → ℤ → String
make_xdstp_listener_name name namespace authority port =
    "xdstp://"
    ++ authority
    ++ "/envoy.config.listener.v3.Listener/"
    ++ make_listener_name name namespace port

-- As in the source, this one ends in the cluster's name, with a dot before the port.
unfoldable pub make_xdstp_route_config_name : String → String → String → ℤ → String
make_xdstp_route_config_name name namespace authority port =
    "xdstp://"
    ++ authority
    ++ "/envoy.config.route.v3.RouteConfiguration/"
    ++ make_cluster_name name namespace port

unfoldable pub make_xdstp_virtual_host_name : String → String → String → ℤ → String
make_xdstp_virtual_host_name name namespace authority port =
    "xdstp://"
    ++ authority
    ++ "/envoy.config.listener.v3.Listener/"
    ++ make_virtual_host_name name namespace port

listener_sample : make_listener_name "echo" "labs" (pos 50051) ≡ "echo.labs:50051"
unfolding make_listener_name make_global_service_domain itoa
listener_sample = refl
