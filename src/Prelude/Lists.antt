-- ===== src/Prelude/Lists.antt =====
-- Lists measured by native numbers, and predicates over their elements.
use Prim.Native.Nat.{ℕ, suc, ◌+◌}
use mathlib.Core.Path.{◌≡◌}
use mathlib.Core.Bool.{Bool, false, ◌||◌}
use mathlib.Core.List.{map, flat_map, List, [], ◌∷◌, ◌++◌}
use native.Mathlib.Omega.{arith}
use semaphore_xds.Prelude.Tests.{Eq, ◌==◌}

module _ {ℓ} {A : Type ℓ} where
  abbrev pub length : List A → ℕ
  length [] = 0
  length (x ∷ xs) = suc (length xs)

  pub length-append : (xs ys : List A) → length (xs ++ ys) ≡ length xs + length ys
  length-append [] ys = omega arith
  length-append (x ∷ xs) ys = omega (arith, length-append xs ys)

  abbrev pub All {κ} : (A → Type κ) → List A → Type κ
  All P [] = Unit
  All P (x ∷ xs) = P x × All P xs

  pub All-append {κ} : (P : A → Type κ) (xs ys : List A) → All P xs → All P ys → All P (xs ++ ys)
  All-append P [] ys hx hy = hy
  All-append P (x ∷ xs) ys hx hy = (hx.0, All-append P xs ys hx.1 hy)

module _ {ℓ κ μ} {A : Type ℓ} {P : A → Type κ} {Q : A → Type μ} where
  pub All-map : (xs : List A) → ((x : A) → P x → Q x) → All P xs → All Q xs
  All-map [] f h = tt
  All-map (x ∷ xs) f h = (f x h.0, All-map xs f h.1)

  pub All-map_both {ν} :
      {R : A → Type ν} (xs : List A) → ((x : A) → P x → Q x → R x) → All P xs → All Q xs → All R xs
  All-map_both [] f h k = tt
  All-map_both (x ∷ xs) f h k = (f x h.0 k.0, All-map_both xs f h.1 k.1)

-- Does a list hold a value? This is Go's scan of a slice with `==`.
abbrev pub contains {ℓ} : {A : Type ℓ} ⦃e : Eq A⦄ → List A → A → Bool
contains [] a = false
contains (x ∷ xs) a = a == x || contains xs a

module _ {ℓ κ μ} {A : Type ℓ} {B : Type κ} (P : B → Type μ) where
  pub map-All : (f : A → B) (xs : List A) → ((x : A) → P (f x)) → All P (map f xs)
  map-All f [] h = tt
  map-All f (x ∷ xs) h = (h x, map-All f xs h)

  pub flat_map-All :
      (f : A → List B) (xs : List A) → ((x : A) → All P (f x)) → All P (flat_map f xs)
  unfolding flat_map
  flat_map-All f [] h = tt
  flat_map-All f (x ∷ xs) h = All-append P (f x) (flat_map f xs) (h x) (flat_map-All f xs h)
