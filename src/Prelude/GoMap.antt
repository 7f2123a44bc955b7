-- ===== src/Prelude/GoMap.antt =====
-- Go's maps, as association lists with one entry for a key. The list's order stands for the order
-- in which a `range` loop visits the entries, which Go leaves open.
use mathlib.Core.Path.{ap, ◌≡◌, refl, sym, subst, ap₂}
use mathlib.Core.Logic.{◌≢◌, inl, inr}
use mathlib.Core.Option.{Option, none, some}
use mathlib.Core.List.{◌++◌, List, [], ◌∷◌}
use native.Mathlib.Omega.{arith}
use semaphore_xds.Prelude.Tests.{
  Eq, Bool-cases, eq_of_beq, beq_of_ne, ◌==◌, if◌then◌else◌, beq_refl,
}
use semaphore_xds.Prelude.Lists.{All, All-map_both}

pub some_inj {ℓ} : {A : Type ℓ} {a b : A} → some a ≡ some b → a ≡ b
some_inj h = cc

abbrev pub GoMap {ℓ κ} : Type ℓ → Type κ → Type (ℓ ⊔ κ)
GoMap K V = List (K × V)

module _ {ℓ κ} {K : Type ℓ} {V : Type κ} ⦃e : Eq K⦄ where
  -- v, ok := m[k]
  unfoldable pub lookup : K → GoMap K V → Option V
  lookup key [] = none
  lookup key ((other, w) ∷ rest) = if other == key then some w else lookup key rest

  -- delete(m, k)
  unfoldable pub delete : K → GoMap K V → GoMap K V
  delete k [] = []
  delete k ((j, v) ∷ m) = let rest = delete k m in if j == k then rest else (j, v) ∷ rest

  -- m[k] = v
  unfoldable pub insert : K → V → GoMap K V → GoMap K V
  insert key v [] = (key, v) ∷ []
  insert key v ((other, w) ∷ rest) =
      if other == key then (other, v) ∷ rest else (other, w) ∷ insert key v rest

  -- No key occurs twice.
  abbrev pub Distinct : GoMap K V → Type ℓ
  Distinct [] = Unit
  Distinct ((k, v) ∷ m) = All (λ (e : K × V). e.0 ≢ k) m × Distinct m

  pub lookup-insert :
      (key other : K) (new : V) (m : GoMap K V)
      → lookup other (insert key new m) ≡ (if key == other then some new else lookup other m)
  unfolding insert lookup
  lookup-insert key other new [] = refl
  lookup-insert key other new ((first, old) ∷ rest) = ground (
    arith,
    lookup-insert key other new rest,
    e.beq_iff first key,
    e.beq_iff first other,
    e.beq_iff key other,
  )

  pub lookup-delete :
      (k j : K) (m : GoMap K V) → lookup j (delete k m) ≡ (if k == j then none else lookup j m)
  unfolding lookup delete
  lookup-delete k j [] = ground arith
  lookup-delete k j ((i, w) ∷ m) =
      ground (arith, e.beq_iff k j, e.beq_iff i k, e.beq_iff i j, lookup-delete k j m)

  pub lookup-insert_self : (k : K) (v : V) (m : GoMap K V) → lookup k (insert k v m) ≡ some v
  lookup-insert_self k v m = rw (lookup-insert k k v m, beq_refl k)

  pub lookup-delete_self : (k : K) (m : GoMap K V) → lookup k (delete k m) ≡ none
  lookup-delete_self k m = rw (lookup-delete k k m, beq_refl k)

  -- What holds of every entry and of the new one holds of every entry afterwards.
  pub insert-All {μ} :
      (P : K × V → Type μ) (k : K) (v : V) (m : GoMap K V)
      → P (k, v)
      → All P m
      → All P (insert k v m)
  unfolding insert
  insert-All P k v [] p h = (p, h)
  insert-All P k v ((j, w) ∷ m) p h = elim (Bool-cases (j == k)) [
    | inl q ↦ rw (q, eq_of_beq j k q) (p, h.1)
    | inr q ↦ rw q (h.0, insert-All P k v m p h.1)
  ]

  pub delete-All {μ} : (P : K × V → Type μ) (k : K) (m : GoMap K V) → All P m → All P (delete k m)
  unfolding delete
  delete-All P k [] h = h
  delete-All P k ((j, w) ∷ m) h = elim (Bool-cases (j == k)) [
    | inl q ↦ rw q (delete-All P k m h.1)
    | inr q ↦ rw q (h.0, delete-All P k m h.1)
  ]

  pub lookup-All {μ} :
      (P : K × V → Type μ) (k : K) (m : GoMap K V) {v : V}
      → All P m
      → lookup k m ≡ some v
      → P (k, v)
  unfolding lookup
  lookup-All P k [] h q = absurd (ground arith)
  lookup-All P k ((j, w) ∷ m) {v} h q = elim (Bool-cases (j == k)) [
    | inl r ↦ subst P (ap₂ (λ a b. (a, b)) (eq_of_beq j k r) (some_inj (rw r at q))) h.0
    | inr r ↦ lookup-All P k m h.1 (rw r at q)
  ]

  pub delete-Distinct : (k : K) (m : GoMap K V) → Distinct m → Distinct (delete k m)
  unfolding delete
  delete-Distinct k [] h = h
  delete-Distinct k ((j, w) ∷ m) h = elim (Bool-cases (j == k)) [
    | inl q ↦ rw q (delete-Distinct k m h.1)
    | inr q ↦ rw q (delete-All (λ (x : K × V). x.0 ≢ j) k m h.0, delete-Distinct k m h.1)
  ]

  pub insert-Distinct : (k : K) (v : V) (m : GoMap K V) → Distinct m → Distinct (insert k v m)
  unfolding insert
  insert-Distinct k v [] h = (tt, h)
  insert-Distinct k v ((j, w) ∷ m) h = elim (Bool-cases (j == k)) [
    | inl q ↦ rw q h
    | inr q ↦ rw q (
      insert-All (λ (x : K × V). x.0 ≢ j) k v m (λ r. absurd (ground (arith, e.beq_iff j k))) h.0,
      insert-Distinct k v m h.1,
    )
  ]

  pub insert-ne-nil : (k : K) (v : V) (m : GoMap K V) → insert k v m ≢ []
  unfolding insert
  insert-ne-nil k v [] h = cc
  insert-ne-nil k v ((j, w) ∷ m) h = elim (Bool-cases (j == k)) [
    | inl q ↦ cc (rw q at h)
    | inr q ↦ cc (rw q at h)
  ]

  pub lookup-absent : (k : K) (m : GoMap K V) → All (λ (x : K × V). x.0 ≢ k) m → lookup k m ≡ none
  unfolding lookup
  lookup-absent k [] h = refl
  lookup-absent k ((j, v) ∷ m) h = rw (beq_of_ne j k h.0) (lookup-absent k m h.1)

  -- Every entry is found under its key.
  pub lookup-entries : (m : GoMap K V) → Distinct m → All (λ (x : K × V). lookup x.0 m ≡ some x.1) m
  unfolding lookup
  lookup-entries [] h = tt
  lookup-entries ((k, v) ∷ m) h = (
    rw (beq_refl k) refl,
    All-map_both m (λ x ne q. rw (beq_of_ne k x.0 (λ r. ne (sym r))) q) h.0 (lookup-entries m h.1),
  )

  -- To put in again what is there.
  pub lookup-insert_same :
      (k j : K) (v : V) (m : GoMap K V) → lookup k m ≡ some v → lookup j (insert k v m) ≡ lookup j m
  lookup-insert_same k j v m h =
      rw (lookup-insert k j v m) (elim (Bool-cases (k == j)) [
        | inl q ↦ rw (q, ← eq_of_beq k j q, h) refl
        | inr q ↦ rw q refl
      ])

  -- A new key goes to the end.
  pub insert_absent :
      (k : K) (v : V) (m : GoMap K V)
      → All (λ (x : K × V). x.0 ≢ k) m
      → insert k v m ≡ m ++ (k, v) ∷ []
  unfolding insert
  insert_absent k v [] h = refl
  insert_absent k v ((j, w) ∷ m) h =
      rw (beq_of_ne j k h.0) (ap (◌∷◌ (j, w)) (insert_absent k v m h.1))

pub ruleset map_laws = (lookup-insert, lookup-delete)
