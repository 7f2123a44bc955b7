-- ===== src/Snapshotter/Delta.antt =====
-- When OnStreamDeltaRequest panics.
use semaphore_xds.Prelude.{
  String, ◌≡◌, ◌≢◌, ◌↔◌, refl, none, some, List, [], ◌∷◌, inl, inr, Bool-cases, ◌==◌, eq_of_beq,
  ne_of_beq, string_eq,
}
use semaphore_xds.Prelude.Result.{ok, panic}
use semaphore_xds.Resource.{cluster_type, endpoint_type, route_type, virtual_host_type}
use semaphore_xds.Snapshotter.Library.{Library}
use semaphore_xds.Snapshotter.State.{Snapshotter, get_delta_cache_for_type}
use semaphore_xds.Snapshotter.Handlers.{
  DeltaDiscoveryRequest, on_stream_delta_request, subscribe_loop,
}

-- A type without a linear cache.
abbrev pub IsNotLinear : String → Type 0
IsNotLinear t =
    (t ≢ cluster_type) × (t ≢ endpoint_type) × (t ≢ route_type) × (t ≢ virtual_host_type)

subscribe_loop-some :
    {A : Type 0} (a : A) (names : List String) → subscribe_loop (some a) names ≡ ok tt
unfolding subscribe_loop
subscribe_loop-some a [] = refl
subscribe_loop-some a (name ∷ names) = subscribe_loop-some a names

subscribe_loop-none :
    (A : Type 0) (names : List String) → (subscribe_loop {A = A} none names ≡ panic) ↔ (names ≢ [])
unfolding subscribe_loop
subscribe_loop-none A [] = (λ h. cc, λ h. absurd (h refl))
subscribe_loop-none A (name ∷ names) = (λ h e. cc, λ h. refl)

module _ {lib : Library} (s : Snapshotter lib) where
  linear-panic :
      (r : DeltaDiscoveryRequest) (c : lib.Linear)
      → get_delta_cache_for_type s r.type_url ≡ some c
      → ¬ IsNotLinear r.type_url
      → (on_stream_delta_request s r ≡ panic)
        ↔ ((r.resource_names_subscribe ≢ []) × IsNotLinear r.type_url)
  unfolding on_stream_delta_request
  linear-panic r c e h = (
    λ p.
        let q = subscribe_loop-some c r.resource_names_subscribe in
        cc (rw (e, on_stream_delta_request, q) at p),
    λ p. absurd (h p.1),
  )

  pub on_stream_delta_request_lem :
      (r : DeltaDiscoveryRequest)
      → (on_stream_delta_request s r ≡ panic)
        ↔ ((r.resource_names_subscribe ≢ []) × IsNotLinear r.type_url)
  unfolding on_stream_delta_request get_delta_cache_for_type
  on_stream_delta_request_lem r = elim (Bool-cases (r.type_url == endpoint_type)) [
    | inl e ↦
        linear-panic r s.delta_eds_cache (rw (e, get_delta_cache_for_type) refl)
          (λ h. h.1 (eq_of_beq _ _ e))
    | inr e ↦ elim (Bool-cases (r.type_url == cluster_type)) [
      | inl c ↦
          linear-panic r s.delta_cds_cache (rw (e, c, get_delta_cache_for_type) refl)
            (λ h. h.0 (eq_of_beq _ _ c))
      | inr c ↦ elim (Bool-cases (r.type_url == route_type)) [
        | inl d ↦
            linear-panic r s.delta_rds_cache (rw (e, c, d, get_delta_cache_for_type) refl)
              (λ h. h.2 (eq_of_beq _ _ d))
        | inr d ↦ elim (Bool-cases (r.type_url == virtual_host_type)) [
          | inl v ↦
              linear-panic r s.delta_vhds_cache (rw (e, c, d, v, get_delta_cache_for_type) refl)
                (λ h. h.3 (eq_of_beq _ _ v))
          | inr v ↦
              let none_lem = subscribe_loop-none lib.Linear r.resource_names_subscribe in
              rw (e, c, d, v, on_stream_delta_request, get_delta_cache_for_type)
                (
                  λ p. (
                    none_lem.0 p,
                    (ne_of_beq _ _ c, ne_of_beq _ _ e, ne_of_beq _ _ d, ne_of_beq _ _ v),
                  ),
                  λ p. none_lem.1 p.0,
                )
        ]
      ]
    ]
  ]
