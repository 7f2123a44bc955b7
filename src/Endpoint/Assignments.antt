-- ===== src/Endpoint/Assignments.antt =====
-- The slice of cluster load assignments and the map of them by name.
use mathlib.Core.List.{append_assoc, append-nil}
use semaphore_xds.Prelude.{
  String, ◌≡◌, ◌≢◌, ◌∙◌, refl, sym, ap, List, [], ◌∷◌, ◌++◌, map, All, All-append, string_eq,
}
use semaphore_xds.Prelude.GoMap.{GoMap, Distinct, insert_absent}
use semaphore_xds.Prelude.Result.{Result, ok, err, panic, ◌>>=◌}
use semaphore_xds.Resource.{Resource}
use semaphore_xds.Endpoint.{
  EdsClusters, EdsClusterEndpoints, XdsEndpointStore, assignment_of, assignments_loop,
  named_assignments_loop, cluster_load_assignment, create_clusters_from_endpoint_store,
  endpoint_slices_to_cluster_load_assignments,
  endpoint_slices_to_cluster_load_assignments_with_names,
}
use semaphore_xds.Endpoint.Grouping.{create-Distinct}

-- The name of a resource, where it is a load assignment.
abbrev pub assignment_name : Resource → String
assignment_name (Resource.endpoint e) = e.cluster_name
assignment_name _ = ""

abbrev assignments : EdsClusters → List Resource
assignments =
    map (λ (c : String × List EdsClusterEndpoints). Resource.endpoint (assignment_of c.0 c.1))

abbrev by_name : List Resource → GoMap String Resource
by_name = map (λ r. (assignment_name r, r))

assignments_loop-append :
    (clusters : EdsClusters) (eds : List Resource)
    → assignments_loop clusters eds ≡ eds ++ assignments clusters
unfolding assignments_loop
assignments_loop-append [] eds = simp append-nil
assignments_loop-append ((name, endpoints) ∷ clusters) eds =
    assignments_loop-append clusters (eds ++ Resource.endpoint (assignment_of name endpoints) ∷ [])
    ∙ append_assoc eds (Resource.endpoint (assignment_of name endpoints) ∷ [])
        (assignments clusters)

-- No name of the clusters is a key of the map.
abbrev Fresh : EdsClusters → GoMap String Resource → Type 0
Fresh clusters eds =
    All (λ (c : String × List EdsClusterEndpoints). All (λ (x : String × Resource). x.0 ≢ c.0) eds)
      clusters

Fresh-append :
    (name : String) (r : Resource) (clusters : EdsClusters) (eds : GoMap String Resource)
    → All (λ (c : String × List EdsClusterEndpoints). c.0 ≢ name) clusters
    → Fresh clusters eds
    → Fresh clusters (eds ++ (name, r) ∷ [])
Fresh-append name r [] eds h k = tt
Fresh-append name r ((n, es) ∷ clusters) eds h k = (
  All-append (λ (x : String × Resource). x.0 ≢ n) eds ((name, r) ∷ []) k.0 (λ e. h.0 (sym e), tt),
  Fresh-append name r clusters eds h.1 k.1,
)

named_assignments_loop-append :
    (clusters : EdsClusters) (eds : GoMap String Resource)
    → Distinct clusters
    → Fresh clusters eds
    → named_assignments_loop clusters eds ≡ eds ++ by_name (assignments clusters)
unfolding named_assignments_loop cluster_load_assignment
named_assignments_loop-append [] eds d f = simp append-nil
named_assignments_loop-append ((name, endpoints) ∷ clusters) eds d f =
    let r : Resource = Resource.endpoint (assignment_of name endpoints) in
    ap (named_assignments_loop clusters) (insert_absent name r eds f.0)
    ∙ named_assignments_loop-append clusters (eds ++ (name, r) ∷ []) d.1
        (Fresh-append name r clusters eds d.0 f.1)
    ∙ append_assoc eds ((name, r) ∷ []) (by_name (assignments clusters))

Fresh-nil : (clusters : EdsClusters) → Fresh clusters []
Fresh-nil [] = tt
Fresh-nil (c ∷ clusters) = (tt, Fresh-nil clusters)

-- The map for the linear cache and the slice for the snapshot hold the same load assignments in the
-- same order, the map's each under its cluster's name; where the one panics, so does the other.
pub assignments_with_names-by_name :
    (store : XdsEndpointStore) (authority : String)
    → endpoint_slices_to_cluster_load_assignments_with_names store authority ≡ (
        endpoint_slices_to_cluster_load_assignments store authority >>= λ eds.
        ok (map (λ r. (assignment_name r, r)) eds))
unfolding endpoint_slices_to_cluster_load_assignments
    endpoint_slices_to_cluster_load_assignments_with_names
assignments_with_names-by_name store authority =
    go (create_clusters_from_endpoint_store store authority) (create-Distinct store authority)
  where
    go :
        (m : Result EdsClusters)
        → ((c : EdsClusters) → m ≡ ok c → Distinct c)
        → (m >>= λ c. ok (named_assignments_loop c []))
          ≡ ((m >>= λ c. ok (assignments_loop c [])) >>= λ eds. ok (by_name eds))
    go (ok c) d = ap ok (
        named_assignments_loop-append c [] (d c refl) (Fresh-nil c)
        ∙ ap by_name (sym (assignments_loop-append c [])))
    go (err x) d = refl
    go panic d = refl
