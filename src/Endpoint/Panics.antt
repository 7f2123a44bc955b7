-- ===== src/Endpoint/Panics.antt =====
-- When endpointSliceToClusterEndpoints panics, and what it returns when it does not.
use semaphore_xds.Prelude.{
  arith, ℕ, ◌≡◌, refl, Bool, true, false, ◌&&◌, Option, List, [], ◌∷◌, ◌++◌, map, if◌then◌else◌,
  is_some, Bool-cases, inl, inr,
}
use semaphore_xds.Prelude.Decimal.{ℤ, pos}
use semaphore_xds.Prelude.Result.{ok, panic}
use semaphore_xds.Endpoint.{
  KubeEndpoint, EndpointSlice, EdsClusterEndpoints, cluster_endpoint, endpoints_loop,
  slice_ports_loop, endpoint_slice_to_cluster_endpoints, zone_or_none,
}
use mathlib.Core.List.{flat_map, append_assoc, append-nil}
use mathlib.Core.Option.{get_or}

-- The endpoint names its target and says whether it is ready.
abbrev pub is_complete : KubeEndpoint → Bool
is_complete ep = is_some ep.target_ref && is_some ep.ready

abbrev pub all {ℓ} : {A : Type ℓ} → (A → Bool) → List A → Bool
all p [] = true
all p (x ∷ xs) = p x && all p xs

-- For each port and each endpoint, all that is read is there.
abbrev pub is_usable : EndpointSlice → Bool
is_usable e = all (λ port. all (λ ep. is_some port && is_complete ep) e.endpoints) e.ports

-- What an endpoint comes to at a port, where all that is read is there.
abbrev pub entry : ℕ → Option ℤ → KubeEndpoint → EdsClusterEndpoints
entry priority port ep = record {
  addresses = ep.addresses;
  port = get_or port (pos 0);
  priority = priority;
  zone = zone_or_none ep.zone;
  subzone = get_or ep.target_ref "";
  healthy = get_or ep.ready false;
}

cluster_endpoint_lem :
    (priority : ℕ) (port : Option ℤ) (ep : KubeEndpoint)
    → cluster_endpoint priority port ep
      ≡ (if is_some port && is_complete ep then ok (entry priority port ep) else panic)
unfolding cluster_endpoint
cluster_endpoint_lem priority port ep = ground arith

endpoints_loop_lem :
    (priority : ℕ) (port : Option ℤ) (eps : List KubeEndpoint) (ceps : List EdsClusterEndpoints)
    → endpoints_loop priority port eps ceps ≡ (
        if all (λ ep. is_some port && is_complete ep) eps
        then ok (ceps ++ map (entry priority port) eps)
        else panic)
unfolding endpoints_loop
endpoints_loop_lem priority port [] ceps = simp append-nil
endpoints_loop_lem priority port (ep ∷ eps) ceps =
    elim (Bool-cases (is_some port && is_complete ep)) [
      | inl e ↦
          rw (cluster_endpoint_lem priority port ep, e)
            (simp (
              endpoints_loop_lem priority port eps (ceps ++ entry priority port ep ∷ []),
              append_assoc,
            ))
      | inr e ↦ rw (cluster_endpoint_lem priority port ep, e) refl
    ]

slice_ports_loop_lem :
    (priority : ℕ) (eps : List KubeEndpoint) (ports : List (Option ℤ))
    (ceps : List EdsClusterEndpoints)
    → slice_ports_loop priority eps ports ceps ≡ (
        if all (λ port. all (λ ep. is_some port && is_complete ep) eps) ports
        then ok (ceps ++ flat_map (λ port. map (entry priority port) eps) ports)
        else panic)
unfolding slice_ports_loop flat_map
slice_ports_loop_lem priority eps [] ceps = simp append-nil
slice_ports_loop_lem priority eps (port ∷ ports) ceps =
    elim (Bool-cases (all (λ ep. is_some port && is_complete ep) eps)) [
      | inl e ↦
          rw (endpoints_loop_lem priority port eps ceps, e)
            (simp (
              slice_ports_loop_lem priority eps ports (ceps ++ map (entry priority port) eps),
              append_assoc,
            ))
      | inr e ↦ rw (endpoints_loop_lem priority port eps ceps, e) refl
    ]

-- If for each port and each endpoint of the slice the port has a number and the endpoint names its
-- target and says whether it is ready, the result has one entry for each port and each endpoint, in
-- the order of the ports and then of the endpoints. In every other case the code follows a nil
-- pointer and panics.
pub endpoint_slice_to_cluster_endpoints_lem :
    (e : EndpointSlice) (priority : ℕ)
    → endpoint_slice_to_cluster_endpoints e priority ≡ (
        if is_usable e
        then ok (flat_map (λ port. map (entry priority port) e.endpoints) e.ports)
        else panic)
unfolding endpoint_slice_to_cluster_endpoints
endpoint_slice_to_cluster_endpoints_lem e priority =
    slice_ports_loop_lem priority e.endpoints e.ports []
