-- ===== src/Endpoint/Names.antt =====
-- The name under which a cluster asks for its endpoints is the name under which they are served.
use semaphore_xds.Prelude.{
  ◌∙◌, sym, beq_of_ne, String, ◌≡◌, refl, if◌then◌else◌, ◌==◌, string_eq, Bool-cases, inl, inr,
}
use text.Mathlib.TextLemmas.{cons-append, cons≢nil}
use semaphore_xds.Prelude.Decimal.{ℤ}
use semaphore_xds.Names.{make_xdstp_cluster_load_assignment_name}
use semaphore_xds.Resource.{Cluster}
use semaphore_xds.Service.{Service}
use semaphore_xds.Service.Build.{make_cluster}
use semaphore_xds.Service.Translate.{cluster_of}
use semaphore_xds.Endpoint.{false, XdsEndpoint, eds_cluster_name}

-- Envoy's rule: a cluster asks by its service name, or by its own name if that is empty.
abbrev pub eds_resource_name : Cluster → String
eds_resource_name c =
    if c.eds_cluster_config.service_name == "" then c.name else c.eds_cluster_config.service_name

assignment_name-beq-nil :
    (name namespace authority : String) (port : ℤ)
    → (make_xdstp_cluster_load_assignment_name name namespace authority port == "") ≡ false
unfolding make_xdstp_cluster_load_assignment_name
assignment_name-beq-nil name namespace authority port =
    beq_of_ne _ _ (λ e. cons≢nil (sym (cons-append "x" "dstp://" _) ∙ e))

-- For a service, one of its ports and the endpoints of this service, the cluster made for the port
-- asks for the load assignment under the name that the endpoints at the port are filed under, with
-- and without an authority.
pub eds_resource_name-cluster_of :
    (authority : String) (s : Service) (se : XdsEndpoint) (port : ℤ)
    → se.service ≡ s.service.name
    → se.namespace ≡ s.service.namespace
    → eds_resource_name (cluster_of authority s port) ≡ eds_cluster_name authority se port
unfolding make_cluster
eds_resource_name-cluster_of authority s se port hn hs = elim (Bool-cases (authority == "")) [
  | inl e ↦ rw (e, hn, hs) refl
  | inr e ↦
      rw (e, hn, hs, assignment_name-beq-nil s.service.name s.service.namespace authority port) refl
]
