-- ===== src/Policy/RoundTrip.antt =====
-- Printing and parsing of policies are inverse as far as texts are known.
use text.Mathlib.TextEquality.{eq_iff}
use semaphore_xds.Prelude.{
  String, ◌≡◌, ◌≢◌, refl, ◌==◌, string_eq, arith, inl, inr, Bool-cases, eq_of_beq,
}
use semaphore_xds.Policy.{
  LbPolicy, parse_cluster_lb_policy, parse_to_cluster_lb_policy, parse_priority_strategy,
  prioritize_local,
}

-- A named policy.
abbrev pub IsKnown : LbPolicy → Type 0
IsKnown (LbPolicy.unknown n) = ⊥
IsKnown _ = Unit

-- Each policy that has a name is read back from the text printed for it.
pub lb_policy_round_trip :
    (p : LbPolicy) → IsKnown p → parse_to_cluster_lb_policy (parse_cluster_lb_policy p) ≡ p
unfolding parse_to_cluster_lb_policy parse_cluster_lb_policy
lb_policy_round_trip LbPolicy.round_robin k = refl
lb_policy_round_trip LbPolicy.least_request k = refl
lb_policy_round_trip LbPolicy.ring_hash k = refl
lb_policy_round_trip LbPolicy.random k = refl
lb_policy_round_trip LbPolicy.maglev k = refl
lb_policy_round_trip LbPolicy.cluster_provided k = refl
lb_policy_round_trip LbPolicy.load_balancing_policy_config k = refl
lb_policy_round_trip (LbPolicy.unknown n) k = absurd k

-- A text that is printed for no policy with a name is read as round robin.
pub parse_to_cluster_lb_policy_other :
    (s : String)
    → ((p : LbPolicy) → IsKnown p → parse_cluster_lb_policy p ≢ s)
    → parse_to_cluster_lb_policy s ≡ LbPolicy.round_robin
unfolding parse_to_cluster_lb_policy parse_cluster_lb_policy
parse_to_cluster_lb_policy_other s h = ground (
  arith,
  eq_iff s "round_robin",
  eq_iff s "least_request",
  eq_iff s "ring_hash",
  eq_iff s "random",
  eq_iff s "maglev",
  eq_iff s "cluster_provided",
  eq_iff s "load_balancing_policy_config",
  h LbPolicy.least_request tt,
  h LbPolicy.ring_hash tt,
  h LbPolicy.random tt,
  h LbPolicy.maglev tt,
  h LbPolicy.cluster_provided tt,
  h LbPolicy.load_balancing_policy_config tt,
)

-- Endpoints are prioritised exactly if the strategy's text, unknown ones read as none, is
-- local-first.
pub prioritize_local-parse :
    (s : String) → prioritize_local (parse_priority_strategy s) ≡ (s == "local-first")
unfolding prioritize_local parse_priority_strategy
prioritize_local-parse s = elim (Bool-cases (s == "none")) [
  | inl e ↦ rw (eq_of_beq s "none" e) refl
  | inr e ↦ elim (Bool-cases (s == "local-first")) [
    | inl e' ↦ rw (eq_of_beq s "local-first" e') refl
    | inr e' ↦ rw (e, e') refl
  ]
]
