-- ===== src/Snapshotter/Matching.antt =====
-- What resourcesMatch decides.
use semaphore_xds.Prelude.{
  nat_beq_iff, nat_beq, length, beq_refl, String, ◌≡◌, refl, true, Bool-cases, inl, inr, List, [],
  ◌∷◌, All, contains, string_eq, ◌↔◌, arith,
}
use semaphore_xds.Snapshotter.State.{resources_match, all_in}

all_in-All : (a b : List String) → (all_in a b ≡ true) ↔ All (λ e. contains a e ≡ true) b
unfolding all_in
all_in-All a [] = (λ h. tt, λ h. refl)
all_in-All a (e ∷ b) = elim (Bool-cases (contains a e)) [
  | inl q ↦ rw q (λ h. (refl, (all_in-All a b).0 h), λ h. (all_in-All a b).1 h.1)
  | inr q ↦ rw q (λ h. cc, λ h. absurd (ground (arith, h.0)))
]

-- Two requests match exactly if they have as many names and every name of the second is in the
-- first.
pub resources_match_lem :
    (a b : List String)
    → (resources_match a b ≡ true) ↔ ((length a ≡ length b) × All (λ e. contains a e ≡ true) b)
unfolding resources_match
resources_match_lem a b = elim (Bool-cases (nat_beq (length a) (length b))) [
  | inl q ↦ rw q (
    (λ h. ((nat_beq_iff (length a) (length b)).0 q, (all_in-All a b).0 h)),
    (λ h. (all_in-All a b).1 h.1),
  )
  | inr q ↦ rw q ((λ h. cc), (λ h. absurd (ground (arith, q, h.0))))
]

-- A name of the first may be missing in the second, if that repeats another.
two_requests : (x y : String) → resources_match (x ∷ y ∷ []) (x ∷ x ∷ []) ≡ true
two_requests x y =
    (resources_match_lem (x ∷ y ∷ []) (x ∷ x ∷ [])).1
      (refl, (rw (beq_refl x) refl, (rw (beq_refl x) refl, tt)))
