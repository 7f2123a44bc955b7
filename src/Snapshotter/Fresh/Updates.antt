-- ===== src/Snapshotter/Fresh/Updates.antt =====
-- The updates of a node's stream keep what is asked for.
use semaphore_xds.Prelude.{
  String, ◌≡◌, refl, subst, some, List, inl, inr, Option-cases, string_eq, nat_eq,
}
use semaphore_xds.Prelude.GoMap.{lookup, insert, lookup-insert_same, insert-Distinct, Distinct}
use semaphore_xds.Prelude.Result.{Result-cases, ok_inj}
use semaphore_xds.Resource.{Resource}
use semaphore_xds.Snapshotter.Library.{Library}
use semaphore_xds.Snapshotter.State.{Snapshotter, NodeSnapshotResources}
use semaphore_xds.Snapshotter.Nodes.{
  new_snap_resources, update_node_stream_service_resources, update_node_stream_endpoints_resources,
}
use semaphore_xds.Snapshotter.Fresh.Asked.{
  Kind, services, endpoints, asks, asked_at, Kept, KeepsAsked, same-Kept, set_stream-Kept,
}

-- A stream that is given resources for names of services.
abbrev pub with_services :
    String → List Resource → List String → NodeSnapshotResources → NodeSnapshotResources
with_services t new names r = record r {
  services = insert t new r.services;
  services_names = insert t names r.services_names;
}

pub with_services-Distinct :
    (t : String) (new : List Resource) (names : List String) (r : NodeSnapshotResources)
    → ((k : Kind) → Distinct (asks k r))
    → (k : Kind) → Distinct (asks k (with_services t new names r))
with_services-Distinct t new names r h services =
    insert-Distinct t names r.services_names (h services)
with_services-Distinct t new names r h endpoints = h endpoints

with_services-asks :
    (t : String) (new : List Resource) (names : List String) (r : NodeSnapshotResources)
    → lookup t r.services_names ≡ some names
    → (k : Kind) (u : String)
    → lookup u (asks k (with_services t new names r)) ≡ lookup u (asks k r)
with_services-asks t new names r h services u = lookup-insert_same t u names r.services_names h
with_services-asks t new names r h endpoints u = refl

module _ {lib : Library} (s : Snapshotter lib) (node_id : String) where
  pub service_update-Kept : KeepsAsked services (update_node_stream_service_resources s node_id)
  unfolding update_node_stream_service_resources
  service_update-Kept t node id names node' a h = elim (Option-cases (lookup id node.resources)) [
    | inl e ↦
        same-Kept services (update_node_stream_service_resources s node_id) node node'
          (rw (e, update_node_stream_service_resources) at h)
    | inr (r, e) ↦ elim (Result-cases (new_snap_resources s t names)) [
      | inl (new, q) ↦
          subst (Kept node) (ok_inj (rw (e, q, update_node_stream_service_resources) at h)) (
            set_stream-Kept id r (with_services t new names r) node e
              (with_services-Distinct t new names r)
              (with_services-asks t new names r (rw (asked_at, e) at a)))
      | inr (inl (m, q)) ↦
          same-Kept services (update_node_stream_service_resources s node_id) node node'
            (rw (e, q, update_node_stream_service_resources) at h)
      | inr (inr q) ↦ cc (rw (e, q, update_node_stream_service_resources) at h)
    ]
  ]

-- A stream that is given resources for names of endpoints.
abbrev pub with_endpoints :
    String → List Resource → List String → NodeSnapshotResources → NodeSnapshotResources
with_endpoints t new names r = record r {
  endpoints = insert t new r.endpoints;
  endpoints_names = insert t names r.endpoints_names;
}

pub with_endpoints-Distinct :
    (t : String) (new : List Resource) (names : List String) (r : NodeSnapshotResources)
    → ((k : Kind) → Distinct (asks k r))
    → (k : Kind) → Distinct (asks k (with_endpoints t new names r))
with_endpoints-Distinct t new names r h endpoints =
    insert-Distinct t names r.endpoints_names (h endpoints)
with_endpoints-Distinct t new names r h services = h services

with_endpoints-asks :
    (t : String) (new : List Resource) (names : List String) (r : NodeSnapshotResources)
    → lookup t r.endpoints_names ≡ some names
    → (k : Kind) (u : String)
    → lookup u (asks k (with_endpoints t new names r)) ≡ lookup u (asks k r)
with_endpoints-asks t new names r h endpoints u = lookup-insert_same t u names r.endpoints_names h
with_endpoints-asks t new names r h services u = refl

module _ {lib : Library} (s : Snapshotter lib) (node_id : String) where
  pub endpoints_update-Kept :
      KeepsAsked endpoints (update_node_stream_endpoints_resources s node_id)
  unfolding update_node_stream_endpoints_resources
  endpoints_update-Kept t node id names node' a h = elim (Option-cases (lookup id node.resources)) [
    | inl e ↦
        same-Kept endpoints (update_node_stream_endpoints_resources s node_id) node node'
          (rw (e, update_node_stream_endpoints_resources) at h)
    | inr (r, e) ↦ elim (Result-cases (new_snap_resources s t names)) [
      | inl (new, q) ↦
          subst (Kept node) (ok_inj (rw (e, q, update_node_stream_endpoints_resources) at h)) (
            set_stream-Kept id r (with_endpoints t new names r) node e
              (with_endpoints-Distinct t new names r)
              (with_endpoints-asks t new names r (rw (asked_at, e) at a)))
      | inr (inl (m, q)) ↦
          same-Kept endpoints (update_node_stream_endpoints_resources s node_id) node node'
            (rw (e, q, update_node_stream_endpoints_resources) at h)
      | inr (inr q) ↦ cc (rw (e, q, update_node_stream_endpoints_resources) at h)
    ]
  ]
