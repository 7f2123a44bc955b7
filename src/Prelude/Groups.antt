-- ===== src/Prelude/Groups.antt =====
-- Go's maps of slices that grow: m[k] = append(m[k], x).
use mathlib.Core.List.{append_assoc, append-nil}
use mathlib.Core.Path.{◌≡◌, ◌∙◌, refl, ap}
use mathlib.Core.Logic.{inl, inr}
use mathlib.Core.Option.{Option, none, some}
use mathlib.Core.List.{List, [], ◌∷◌, ◌++◌}
use semaphore_xds.Prelude.Tests.{Eq, ◌==◌, if◌then◌else◌, Bool-cases, Option-cases, eq_of_beq}
use semaphore_xds.Prelude.GoMap.{GoMap, lookup, insert, lookup-insert, Distinct, insert-Distinct}

-- What a map of slices holds for a key: nothing, where the key is missing.
abbrev pub held {ℓ} : {A : Type ℓ} → Option (List A) → List A
held none = []
held (some xs) = xs

module _ {ℓ} {K A : Type ℓ} ⦃e : Eq K⦄ where
  unfoldable pub push : K → A → GoMap K (List A) → GoMap K (List A)
  push k x m = elim (lookup k m) [
    | none ↦ insert k (x ∷ []) m
    | some xs ↦ insert k (xs ++ x ∷ []) m
  ]

  -- All of a list is pushed, one after the other.
  abbrev pub pushes : List (K × A) → GoMap K (List A) → GoMap K (List A)
  pushes [] m = m
  pushes ((k, x) ∷ l) m = pushes l (push k x m)

  -- The values that a list has for a key, in order.
  abbrev pub values_of : K → List (K × A) → List A
  values_of k [] = []
  values_of k ((j, x) ∷ l) = if j == k then x ∷ values_of k l else values_of k l

  pub pushes-append :
      (xs ys : List (K × A)) (m : GoMap K (List A)) → pushes ys (pushes xs m) ≡ pushes (xs ++ ys) m
  pushes-append [] ys m = refl
  pushes-append ((k, x) ∷ xs) ys m = pushes-append xs ys (push k x m)

  push_lem :
      (k : K) (x : A) (m : GoMap K (List A)) → push k x m ≡ insert k (held (lookup k m) ++ x ∷ []) m
  unfolding push
  push_lem k x m = elim (Option-cases (lookup k m)) [
    | inl n ↦ rw (n, push) refl
    | inr (a, n) ↦ rw (n, push) refl
  ]

  held-push :
      (k j : K) (x : A) (m : GoMap K (List A))
      → held (lookup k (push j x m)) ≡ held (lookup k m) ++ (if j == k then x ∷ [] else [])
  held-push k j x m = elim (Bool-cases (j == k)) [
    | inl q ↦ rw (push_lem j x m, lookup-insert j k _ m, q, eq_of_beq j k q) refl
    | inr q ↦ rw (push_lem j x m, lookup-insert j k _ m, q) (simp append-nil)
  ]

  pub held-pushes :
      (k : K) (l : List (K × A)) (m : GoMap K (List A))
      → held (lookup k (pushes l m)) ≡ held (lookup k m) ++ values_of k l
  held-pushes k [] m = simp append-nil
  held-pushes k ((j, x) ∷ l) m =
      held-pushes k l (push j x m) ∙ ap (λ h. h ++ values_of k l) (held-push k j x m) ∙ regroup
    where
      regroup :
          (held (lookup k m) ++ (if j == k then x ∷ [] else [])) ++ values_of k l
          ≡ held (lookup k m) ++ values_of k ((j, x) ∷ l)
      regroup = elim (Bool-cases (j == k)) [
        | inl q ↦ rw q (append_assoc (held (lookup k m)) (x ∷ []) (values_of k l))
        | inr q ↦ rw q (simp append-nil)
      ]

  pub pushes-Distinct :
      (l : List (K × A)) (m : GoMap K (List A)) → Distinct m → Distinct (pushes l m)
  pushes-Distinct [] m h = h
  pushes-Distinct ((k, x) ∷ l) m h =
      pushes-Distinct l (push k x m) (rw (push_lem k x m) (insert-Distinct k _ m h))
