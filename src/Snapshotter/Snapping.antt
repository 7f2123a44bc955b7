-- ===== src/Snapshotter/Snapping.antt =====
-- SnapServices and SnapEndpoints keep the invariant; when they do not panic.
use semaphore_xds.Prelude.{
  ◌==◌, String, List, [], ◌∷◌, Option-cases, Bool-cases, inl, inr, string_eq, nat_eq,
}
use semaphore_xds.Prelude.GoMap.{GoMap}
use semaphore_xds.Prelude.Result.{◌>>=◌, Result, ok, err, panic}
use semaphore_xds.Prelude.Decimal.{inc32, itoa}
use semaphore_xds.Resource.{endpoint_type, Resource, cluster_type, listener_type, route_type}
use semaphore_xds.Service.{XdsServiceStore}
use semaphore_xds.Service.Translate.{Resources}
use semaphore_xds.Snapshotter.Library.{Library}
use semaphore_xds.Snapshotter.State.{Snapshotter, empty_node_id}
use semaphore_xds.Snapshotter.Snap.{
  all_endpoints, snap_translated_endpoints, snap_endpoints, snap_services, snap_endpoint_resources,
  endpoints_nodes_loop, finish, snap_service_resources,
}
use semaphore_xds.Snapshotter.Safe.{Anything, Safe}
use semaphore_xds.Snapshotter.Invariant.{IsWellFormed}
use semaphore_xds.Snapshotter.Preserve.{Keeps}
use semaphore_xds.Endpoint.{endpoint_slices_to_cluster_load_assignments, XdsEndpointStore}
use semaphore_xds.Endpoint.Assignments.{assignments_with_names-by_name}
use semaphore_xds.Snapshotter.Loops.{
  service_nodes_loop-Safe, endpoints_nodes_loop-Safe, finish-Keeps,
}

first-Safe :
    {A B : Type 0} (m : Result A) (f : A → Result B) → Safe Anything (m >>= f) → Safe Anything m
first-Safe (ok a) f h = tt
first-Safe (err e) f h = tt
first-Safe panic f h = h

named-Safe :
    {A B C : Type 0} (m : Result A) (f : A → Result B) (g : A → C)
    → Safe Anything (m >>= f)
    → Safe Anything (m >>= λ a. ok (g a))
named-Safe (ok a) f g h = tt
named-Safe (err e) f g h = tt
named-Safe panic f g h = h

module _ {lib : Library} where
  snap_service_resources-Keeps :
      (s : Snapshotter lib) (store : XdsServiceStore) (r : Resources)
      → IsWellFormed s.nodes
      → Keeps (snap_service_resources s store r)
  unfolding snap_service_resources
  snap_service_resources-Keeps s store r w =
      elim (Option-cases (
        lib.new_snapshot (itoa (inc32 s.service_snap_version))
          ((cluster_type, r.cls) ∷ (listener_type, r.lsnr) ∷ (route_type, r.rds) ∷ []))) [
            | inl e ↦ rw (e, snap_service_resources) (w, tt)
            | inr (snap, e) ↦
                elim (Bool-cases (lib.set_snapshot s.services_cache empty_node_id snap).1) [
                  | inl k ↦
                      rw (e, k, snap_service_resources)
                        (finish-Keeps _ _ w (service_nodes_loop-Safe s.nodes _ w.1 w))
                  | inr k ↦ rw (e, k, snap_service_resources) (w, tt)
                ]
          ]

  pub snap_services-Keeps :
      (s : Snapshotter lib) (store : XdsServiceStore)
      → IsWellFormed s.nodes
      → Keeps (snap_services s store)
  unfolding snap_services
  snap_services-Keeps s store w = elim (Bool-cases (s.authority == "")) [
    | inl e ↦ rw (e, snap_services) (snap_service_resources-Keeps s store _ w)
    | inr e ↦ rw (e, snap_services) (snap_service_resources-Keeps s store _ w)
  ]

  -- The state is in order, and there is no panic if a condition holds.
  abbrev pub KeepsIf : Type 0 → Snapshotter lib × Result (Unit {0}) → Type 0
  KeepsIf C (s, r) = IsWellFormed s.nodes × (C → Safe Anything r)

  named_loop-KeepsIf :
      (s : Snapshotter lib) (named : Result (GoMap String Resource))
      → IsWellFormed s.nodes
      → KeepsIf (Safe Anything named) (
          finish s (
            named >>= λ m.
            endpoints_nodes_loop s.nodes
              (record s { delta_eds_cache = lib.set_resources s.delta_eds_cache m })))
  named_loop-KeepsIf s (ok m) w =
      let k = finish-Keeps s _ w (
        endpoints_nodes_loop-Safe s.nodes
          (record s { delta_eds_cache = lib.set_resources s.delta_eds_cache m }) w.1 w) in
      (k.0, λ _. k.1)
  named_loop-KeepsIf s (err e) w = (w, λ _. tt)
  named_loop-KeepsIf s panic w = (w, λ h. h)

  snap_endpoint_resources-KeepsIf :
      (s : Snapshotter lib) (named : Result (GoMap String Resource)) (eds : List Resource)
      → IsWellFormed s.nodes
      → KeepsIf (Safe Anything named) (snap_endpoint_resources s named eds)
  unfolding snap_endpoint_resources
  snap_endpoint_resources-KeepsIf s named eds w =
      elim (Option-cases
        (lib.new_snapshot (itoa (inc32 s.endpoints_snap_version)) ((endpoint_type, eds) ∷ []))) [
          | inl e ↦ rw (e, snap_endpoint_resources) (w, λ _. tt)
          | inr (snap, e) ↦
              elim (Bool-cases (lib.set_snapshot s.endpoints_cache empty_node_id snap).1) [
                | inl k ↦ rw (e, k, snap_endpoint_resources) (named_loop-KeepsIf _ named w)
                | inr k ↦ rw (e, k, snap_endpoint_resources) (w, λ _. tt)
              ]
        ]

  snap_translated_endpoints-KeepsIf :
      (s : Snapshotter lib) (named : Result (GoMap String Resource)) (m : Result (List Resource))
      → IsWellFormed s.nodes
      → (Safe Anything m → Safe Anything named)
      → KeepsIf (Safe Anything m) (snap_translated_endpoints s named m)
  unfolding snap_translated_endpoints
  snap_translated_endpoints-KeepsIf s named (ok eds) w h =
      let k = snap_endpoint_resources-KeepsIf s named eds w in (k.0, λ c. k.1 (h c))
  snap_translated_endpoints-KeepsIf s named (err e) w h = (w, λ _. tt)
  snap_translated_endpoints-KeepsIf s named panic w h = (w, λ c. c)

  -- SnapEndpoints keeps the invariant, and panics only if the translation of the store does.
  pub snap_endpoints-KeepsIf :
      (s : Snapshotter lib) (store : XdsEndpointStore)
      → IsWellFormed s.nodes
      → KeepsIf (Safe Anything (all_endpoints s store)) (snap_endpoints s store)
  unfolding snap_endpoints
  snap_endpoints-KeepsIf s store w =
      snap_translated_endpoints-KeepsIf s _ (all_endpoints s store) w λ c.
        rw (assignments_with_names-by_name store "")
          (named-Safe (endpoint_slices_to_cluster_load_assignments store "") _ _ c)
