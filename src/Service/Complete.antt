-- ===== src/Service/Complete.antt =====
-- servicesToResources returns what its loops are for: one entry for each port of each service.
use mathlib.Core.List.{filter_map, filter_map-append, map-append, append_assoc, append-nil}
use mathlib.Core.Option
use semaphore_xds.Prelude.{
  String, ◌≡◌, ◌∙◌, sym, ap, Option, List, [], ◌∷◌, ◌++◌, map, Option-cases, inl, inr,
}
use semaphore_xds.Prelude.Decimal.{ℤ}
use semaphore_xds.Prelude.Result.{ok}
use semaphore_xds.Resource.{Resource, Any}
use semaphore_xds.Service.{Service, XdsServiceStore}
use semaphore_xds.Service.Build.{Pack, make_manager, make_listener}
use semaphore_xds.Service.Translate.{
  Resources, route_config_of, cluster_of, port_resources, ports_loop, services_loop,
  services_to_resources,
}

-- The ports of the services in a store, each with its service.
abbrev pub service_ports : XdsServiceStore → List (Service × ℤ)
service_ports [] = []
service_ports ((key, s) ∷ store) = map (λ port. (s, port)) s.service.ports ++ service_ports store

module _ (pack : Pack) (authority : String) where
  abbrev pub manager_at : Service × ℤ → Option Any
  manager_at (s, port) = make_manager pack (route_config_of authority s port)

  abbrev pub cluster_at : Service × ℤ → Option Resource
  cluster_at (s, port) =
      Option.map (λ _. Resource.cluster (cluster_of authority s port)) (manager_at (s, port))

  abbrev pub route_at : Service × ℤ → Resource
  route_at (s, port) = Resource.route (route_config_of authority s port)

  abbrev pub listener_at : Service × ℤ → Option Resource
  listener_at (s, port) =
      Option.map
        (λ manager.
          Resource.listener
            (make_listener s.service.name s.service.namespace authority port manager))
        (manager_at (s, port))

  -- What a list of ports adds to the three slices.
  abbrev added : Resources → List (Service × ℤ) → Resources
  added r ports = record {
    cls = r.cls ++ filter_map cluster_at ports;
    rds = r.rds ++ map route_at ports;
    lsnr = r.lsnr ++ filter_map listener_at ports;
  }

  added-step :
      (s : Service) (port : ℤ) (rest : List (Service × ℤ)) (r : Resources)
      → added (port_resources pack authority s port r) rest ≡ added r ((s, port) ∷ rest)
  unfolding port_resources filter_map
  added-step s port rest r =
      elim (Option-cases (make_manager pack (route_config_of authority s port))) [
        | inl e ↦ rw (e, port_resources) (simp append_assoc)
        | inr (m, e) ↦ rw (e, port_resources) (simp append_assoc)
      ]

  added-append :
      (xs ys : List (Service × ℤ)) (r : Resources) → added (added r xs) ys ≡ added r (xs ++ ys)
  added-append xs ys r = simp (filter_map-append, map-append, append_assoc)

  added-nil : (r : Resources) → added r [] ≡ r
  unfolding filter_map
  added-nil r = simp append-nil

  ports_loop-added :
      (s : Service) (ports : List ℤ) (r : Resources)
      → ports_loop pack authority s ports r ≡ added r (map (λ port. (s, port)) ports)
  unfolding ports_loop
  ports_loop-added s [] r = sym (added-nil r)
  ports_loop-added s (port ∷ ports) r =
      ports_loop-added s ports (port_resources pack authority s port r)
      ∙ added-step s port (map (λ p. (s, p)) ports) r

  services_loop-added :
      (store : XdsServiceStore) (r : Resources)
      → services_loop pack authority store r ≡ added r (service_ports store)
  unfolding services_loop
  services_loop-added [] r = sym (added-nil r)
  services_loop-added ((key, s) ∷ store) r =
      services_loop-added store (ports_loop pack authority s s.service.ports r)
      ∙ ap (λ q. added q (service_ports store)) (ports_loop-added s s.service.ports r)
      ∙ added-append (map (λ port. (s, port)) s.service.ports) (service_ports store) r

  -- The slices hold, in the order of the store and of each service's ports, a route configuration
  -- for every port, and a cluster and a listener for exactly those whose manager can be packed.
  pub services_to_resources_lem :
      (store : XdsServiceStore)
      → services_to_resources pack store authority
        ≡ ok (record {
          cls = filter_map cluster_at (service_ports store);
          rds = map route_at (service_ports store);
          lsnr = filter_map listener_at (service_ports store);
        })
  unfolding services_to_resources
  services_to_resources_lem store =
      ap ok (services_loop-added store (record { cls = []; rds = []; lsnr = [] }))
