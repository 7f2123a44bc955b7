-- ===== src/Service/Unique.antt =====
-- No two clusters of the full snapshot have one name, so none hides another there.
use mathlib.Core.List.{filter_map}
use semaphore_xds.Prelude.{
  map-All, ap, inr, inl, Option-cases, some, subst, String, ◌≡◌, ◌≢◌, ◌∙◌, sym, ap₂, List, [], ◌∷◌,
  ◌++◌, map, All, All-append, string_eq,
}
use semaphore_xds.Prelude.Decimal.{ℤ}
use semaphore_xds.Prelude.GoMap.{some_inj, Distinct}
use semaphore_xds.Prelude.Text.{Free}
use semaphore_xds.Names.{store_key, make_cluster_name}
use semaphore_xds.Names.Injective.{make_cluster_name-injective}
use semaphore_xds.Service.{Service, XdsServiceStore}
use semaphore_xds.Service.Translate.{services_to_resources, Resources}
use semaphore_xds.Resource.{Resource}
use semaphore_xds.Service.Build.{make_cluster, cluster as base_cluster, Pack}
use semaphore_xds.Prelude.Result.{ok_inj, ok}
use semaphore_xds.Service.Complete.{
  manager_at, services_to_resources_lem, cluster_at, service_ports,
}

abbrev pub key_of : Service → String
key_of s = store_key s.service.name s.service.namespace

-- Every service is stored under its own key.
abbrev pub IsKeyed : XdsServiceStore → Type 0
IsKeyed svcs = All (λ (x : String × Service). x.0 ≡ key_of x.1) svcs

-- The elements have different values of `f`, each two of them.
abbrev pub Apart {ℓ κ} : {A : Type ℓ} {B : Type κ} → (A → B) → List A → Type κ
Apart f [] = Unit
Apart f (x ∷ xs) = All (λ y. f x ≢ f y) xs × Apart f xs

Apart-append {ℓ κ} :
    {A : Type ℓ} {B : Type κ} (f : A → B) (xs ys : List A)
    → Apart f xs
    → Apart f ys
    → All (λ x. All (λ y. f x ≢ f y) ys) xs
    → Apart f (xs ++ ys)
Apart-append f [] ys hx hy h = hy
Apart-append f (x ∷ xs) ys hx hy h =
    (All-append (λ y. f x ≢ f y) xs ys hx.0 h.0, Apart-append f xs ys hx.1 hy h.1)

-- The names of the Service have no dots, as Kubernetes demands, and its ports are different.
abbrev pub IsLabelled : String × Service → Type 0
IsLabelled (key, s) =
    Free "." s.service.name × Free "." s.service.namespace × Apart (λ (p : ℤ). p) s.service.ports

abbrev port_name : Service × ℤ → String
port_name (s, port) = make_cluster_name s.service.name s.service.namespace port

-- Ports of one service.
ports-Apart :
    (s : Service) (ports : List ℤ)
    → Free "." s.service.name
    → Free "." s.service.namespace
    → Apart (λ (p : ℤ). p) ports
    → Apart port_name (map (λ port. (s, port)) ports)
ports-Apart s [] n ns h = tt
ports-Apart s (p ∷ ports) n ns h = (others ports h.0, ports-Apart s ports n ns h.1)
  where
    others :
        (qs : List ℤ)
        → All (λ q. p ≢ q) qs
        → All (λ y. port_name (s, p) ≢ port_name y) (map (λ port. (s, port)) qs)
    others [] k = tt
    others (q ∷ qs) k =
        (λ e. k.0 (make_cluster_name-injective _ _ _ _ p q n n ns ns e).2, others qs k.1)

-- A port of a service and the ports of the services under other keys.
port-Apart :
    (s : Service) (p : ℤ) (store : XdsServiceStore)
    → Free "." s.service.name
    → Free "." s.service.namespace
    → IsKeyed store
    → All IsLabelled store
    → All (λ (x : String × Service). x.0 ≢ key_of s) store
    → All (λ y. port_name (s, p) ≢ port_name y) (service_ports store)
port-Apart s p [] n ns keyed labelled h = tt
port-Apart s p ((key, s') ∷ store) n ns keyed labelled h =
    All-append _ (map (λ port. (s', port)) s'.service.ports) (service_ports store)
      (others s'.service.ports) (port-Apart s p store n ns keyed.1 labelled.1 h.1)
  where
    differ : (q : ℤ) → port_name (s, p) ≢ port_name (s', q)
    differ q e =
        let (a, b, c) =
          make_cluster_name-injective _ _ _ _ p q n (labelled.0).0 ns (labelled.0).1 e in
        h.0 (keyed.0 ∙ sym (ap₂ store_key a b))

    others : (qs : List ℤ) → All (λ y. port_name (s, p) ≢ port_name y) (map (λ port. (s', port)) qs)
    others [] = tt
    others (q ∷ qs) = (differ q, others qs)

service_ports-Apart :
    (store : XdsServiceStore)
    → IsKeyed store
    → Distinct store
    → All IsLabelled store
    → Apart port_name (service_ports store)
service_ports-Apart [] keyed distinct labelled = tt
service_ports-Apart ((key, s) ∷ store) keyed distinct labelled =
    let (n, ns, ports) = labelled.0 in
    Apart-append port_name (map (λ port. (s, port)) s.service.ports) (service_ports store)
      (ports-Apart s s.service.ports n ns ports)
      (service_ports-Apart store keyed.1 distinct.1 labelled.1)
      (map-All _ (λ port. (s, port)) s.service.ports
        λ p. port-Apart s p store n ns keyed.1 labelled.1 (rw (keyed.0) at distinct.0))

-- The name of a cluster.
abbrev pub cluster_name : Resource → String
cluster_name (Resource.cluster c) = c.name
cluster_name _ = ""

module _ (pack : Pack) where
  cluster_at-name :
      (x : Service × ℤ) (r : Resource)
      → cluster_at pack "" x ≡ some r
      → cluster_name r ≡ port_name x
  unfolding make_cluster base_cluster
  cluster_at-name (s, port) r h = elim (Option-cases (manager_at pack "" (s, port))) [
    | inl e ↦ cc (rw (e, cluster_at) at h)
    | inr (m, e) ↦ ap cluster_name (sym (some_inj (rw (e, cluster_at) at h)))
  ]

  filter_map-names :
      (name : String) (xs : List (Service × ℤ))
      → All (λ y. name ≢ port_name y) xs
      → All (λ r. name ≢ cluster_name r) (filter_map (cluster_at pack "") xs)
  unfolding filter_map
  filter_map-names name [] h = tt
  filter_map-names name (x ∷ xs) h = elim (Option-cases (cluster_at pack "" x)) [
    | inl e ↦ rw e (filter_map-names name xs h.1)
    | inr (r, e) ↦ rw e (λ q. h.0 (q ∙ cluster_at-name x r e), filter_map-names name xs h.1)
  ]

  filter_map-Apart :
      (xs : List (Service × ℤ))
      → Apart port_name xs
      → Apart cluster_name (filter_map (cluster_at pack "") xs)
  unfolding filter_map
  filter_map-Apart [] h = tt
  filter_map-Apart (x ∷ xs) h = elim (Option-cases (cluster_at pack "" x)) [
    | inl e ↦ rw e (filter_map-Apart xs h.1)
    | inr (r, e) ↦ rw e (
      filter_map-names (cluster_name r) xs
          (subst (λ name. All (λ y. name ≢ port_name y) xs) (sym (cluster_at-name x r e)) h.0),
      filter_map-Apart xs h.1,
    )
  ]

  -- For a store whose services stand under their own keys, with no key twice, with names and
  -- namespaces without a dot and each with different ports: no two clusters that
  -- servicesToResources makes, without an authority, have the same name.
  pub services_to_resources-Apart :
      (store : XdsServiceStore) (r : Resources)
      → IsKeyed store
      → Distinct store
      → All IsLabelled store
      → services_to_resources pack store "" ≡ ok r
      → Apart cluster_name r.cls
  services_to_resources-Apart store r keyed distinct labelled h =
      subst (λ (q : Resources). Apart cluster_name q.cls)
        (ok_inj (sym (services_to_resources_lem pack "" store) ∙ h))
        (filter_map-Apart (service_ports store) (service_ports-Apart store keyed distinct labelled))
