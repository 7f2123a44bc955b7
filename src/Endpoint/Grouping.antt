-- ===== src/Endpoint/Grouping.antt =====
-- createClustersFromEndpointStore groups the endpoints of a store by cluster.
use semaphore_xds.Prelude.{
  subst, sym, String, ◌≡◌, ◌∙◌, refl, ap, List, [], ◌∷◌, ◌++◌, map, string_eq,
}
use semaphore_xds.Prelude.GoMap.{lookup, Distinct}
use semaphore_xds.Prelude.Result.{>>=-eq-ok, Result, ok, err, panic, ◌>>=◌}
use semaphore_xds.Prelude.Groups.{
  held, push, pushes, values_of, pushes-append, held-pushes, pushes-Distinct,
}
use semaphore_xds.Endpoint.{
  EdsClusterEndpoints, EdsClusters, XdsEndpoint, XdsEndpointStore, PriorityEndpointSlice,
  eds_cluster_name, file_endpoint, file_endpoints, slices_loop, endpoint_store_loop,
  endpoint_slice_to_cluster_endpoints, create_clusters_from_endpoint_store,
}

-- An endpoint with the name of the cluster that it belongs to.
abbrev pub NamedEndpoint : Type 0
NamedEndpoint = String × EdsClusterEndpoints

-- The endpoints of a slice, all slices of a service, and all services, with their clusters' names.
abbrev pub named : String → XdsEndpoint → List EdsClusterEndpoints → List NamedEndpoint
named authority se ces =
    map (λ (ce : EdsClusterEndpoints). (eds_cluster_name authority se ce.port, ce)) ces

abbrev pub named_slices :
    String → XdsEndpoint → List PriorityEndpointSlice → Result (List NamedEndpoint)
named_slices authority se [] = ok []
named_slices authority se (e ∷ es) = do
  ces ← endpoint_slice_to_cluster_endpoints e.endpoint_slice e.priority
  rest ← named_slices authority se es
  ok (named authority se ces ++ rest)

abbrev pub named_store : String → XdsEndpointStore → Result (List NamedEndpoint)
named_store authority [] = ok []
named_store authority ((key, se) ∷ store) = do
  here ← named_slices authority se se.endpoint_slices
  rest ← named_store authority store
  ok (here ++ rest)

file_endpoints-pushes :
    (authority : String) (se : XdsEndpoint) (ces : List EdsClusterEndpoints)
    (clusters : EdsClusters)
    → file_endpoints authority se ces clusters ≡ pushes (named authority se ces) clusters
unfolding file_endpoints file_endpoint push
file_endpoints-pushes authority se [] clusters = refl
file_endpoints-pushes authority se (ce ∷ ces) clusters =
    file_endpoints-pushes authority se ces
      (push (eds_cluster_name authority se ce.port) ce clusters)

-- To file a list and then the rest is to file both together.
filed_before :
    (m : Result (List NamedEndpoint)) (xs : List NamedEndpoint) (c c' : EdsClusters)
    → c' ≡ pushes xs c
    → (m >>= λ l. ok (pushes l c')) ≡ ((m >>= λ rest. ok (xs ++ rest)) >>= λ l. ok (pushes l c))
filed_before (ok rest) xs c c' e = ap ok (ap (pushes rest) e ∙ pushes-append xs rest c)
filed_before (err x) xs c c' e = refl
filed_before panic xs c c' e = refl

module _ (authority : String) where
  abbrev SlicesFile : XdsEndpoint → List PriorityEndpointSlice → Type 0
  SlicesFile se es =
      (clusters : EdsClusters)
      → slices_loop authority se es clusters
        ≡ (named_slices authority se es >>= λ l. ok (pushes l clusters))

  slices_step :
      (se : XdsEndpoint) (es : List PriorityEndpointSlice)
      → SlicesFile se es
      → (m : Result (List EdsClusterEndpoints)) (clusters : EdsClusters)
      → (m >>= λ ces. slices_loop authority se es (file_endpoints authority se ces clusters)) ≡ (
          (m >>= λ ces.
          named_slices authority se es >>= λ rest. ok (named authority se ces ++ rest))
          >>= λ l. ok (pushes l clusters))
  slices_step se es ih (ok ces) clusters =
      ih (file_endpoints authority se ces clusters)
      ∙ filed_before (named_slices authority se es) (named authority se ces) clusters _
          (file_endpoints-pushes authority se ces clusters)
  slices_step se es ih (err x) clusters = refl
  slices_step se es ih panic clusters = refl

  slices_loop-pushes : (se : XdsEndpoint) (es : List PriorityEndpointSlice) → SlicesFile se es
  unfolding slices_loop
  slices_loop-pushes se [] clusters = refl
  slices_loop-pushes se (e ∷ es) clusters =
      slices_step se es (slices_loop-pushes se es)
        (endpoint_slice_to_cluster_endpoints e.endpoint_slice e.priority) clusters

  abbrev StoreFiles : XdsEndpointStore → Type 0
  StoreFiles store =
      (clusters : EdsClusters)
      → endpoint_store_loop authority store clusters
        ≡ (named_store authority store >>= λ l. ok (pushes l clusters))

  store_step :
      (store : XdsEndpointStore)
      → StoreFiles store
      → (m : Result (List NamedEndpoint)) (clusters : EdsClusters)
      → ((m >>= λ l. ok (pushes l clusters)) >>= λ c. endpoint_store_loop authority store c) ≡ (
          (m >>= λ here. named_store authority store >>= λ rest. ok (here ++ rest)) >>= λ l.
          ok (pushes l clusters))
  store_step store ih (ok here) clusters =
      ih (pushes here clusters) ∙ filed_before (named_store authority store) here clusters _ refl
  store_step store ih (err x) clusters = refl
  store_step store ih panic clusters = refl

  endpoint_store_loop-pushes : (store : XdsEndpointStore) → StoreFiles store
  unfolding endpoint_store_loop
  endpoint_store_loop-pushes [] clusters = refl
  endpoint_store_loop-pushes ((key, se) ∷ store) clusters =
      ap (λ m. m >>= λ c. endpoint_store_loop authority store c)
        (slices_loop-pushes se se.endpoint_slices clusters)
      ∙ store_step store (endpoint_store_loop-pushes store)
          (named_slices authority se se.endpoint_slices) clusters

-- Where all endpoints of a store can be read, the result is a map with distinct names that holds
-- for each name the endpoints filed under it, in the order of the store.
pub create_clusters_from_endpoint_store_lem :
    (store : XdsEndpointStore) (authority : String) (l : List NamedEndpoint)
    → named_store authority store ≡ ok l
    → (clusters : EdsClusters) × (create_clusters_from_endpoint_store store authority ≡ ok clusters)
      × Distinct clusters
      × ((name : String) → held (lookup name clusters) ≡ values_of name l)
unfolding create_clusters_from_endpoint_store lookup
create_clusters_from_endpoint_store_lem store authority l e = (
  pushes l [],
  endpoint_store_loop-pushes authority store [] ∙ ap (λ m. m >>= λ l. ok (pushes l [])) e,
  pushes-Distinct l [] tt,
  λ name. held-pushes name l [],
)

pub create-Distinct :
    (store : XdsEndpointStore) (authority : String) (clusters : EdsClusters)
    → create_clusters_from_endpoint_store store authority ≡ ok clusters
    → Distinct clusters
unfolding create_clusters_from_endpoint_store
create-Distinct store authority clusters h =
    let (l, filed, e) =
      >>=-eq-ok (named_store authority store) (λ l. ok (pushes l []))
        (sym (endpoint_store_loop-pushes authority store []) ∙ h) in
    subst Distinct (ok-inj e) (pushes-Distinct l [] tt)
  where
    ok-inj : {a b : EdsClusters} → ok a ≡ ok b → a ≡ b
    ok-inj h = cc
