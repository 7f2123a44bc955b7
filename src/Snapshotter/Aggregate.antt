-- ===== src/Snapshotter/Aggregate.antt =====
-- What aggregateNodeResources collects: the resources of all streams of a node, by their type.
use mathlib.Core.List.{append_assoc}
use semaphore_xds.Prelude.{
  ℕ, String, ◌≡◌, ◌∙◌, refl, sym, ap, some, List, [], ◌∷◌, ◌++◌, map, inl, inr, Bool-cases, ◌==◌,
  eq_of_beq, beq_refl, string_eq, nat_eq,
}
use semaphore_xds.Prelude.GoMap.{GoMap, lookup, some_inj}
use semaphore_xds.Prelude.Groups.{pushes, values_of, pushes-append}
use semaphore_xds.Resource.{Resource}
use semaphore_xds.Snapshotter.State.{
  NodeSnapshotResources, aggregate_resources, aggregate_types, aggregate_streams,
}

-- The first list stands in the second in one piece.
abbrev pub Within {ℓ} : {A : Type ℓ} → List A → List A → Type ℓ
Within {A} xs ys = (before after : List A) × (ys ≡ before ++ (xs ++ after))

module _ {ℓ} {A : Type ℓ} where
  Within-prepend : (xs ys front : List A) → Within xs ys → Within xs (front ++ ys)
  Within-prepend xs ys front (before, after, e) = (
    front ++ before,
    after,
    ap (λ l. front ++ l) e ∙ sym (append_assoc front before (xs ++ after)),
  )

  Within-append : (xs ys back : List A) → Within xs ys → Within xs (ys ++ back)
  Within-append xs ys back (before, after, e) =
      (before, after ++ back, ap (λ l. l ++ back) e ∙ simp append_assoc)

-- The resources of a map, each with its type.
abbrev pub typed : GoMap String (List Resource) → List (String × Resource)
typed [] = []
typed ((t, rs) ∷ m) = map (λ r. (t, r)) rs ++ typed m

abbrev pub typed_of_streams :
    (NodeSnapshotResources → GoMap String (List Resource))
    → GoMap ℕ NodeSnapshotResources
    → List (String × Resource)
typed_of_streams field [] = []
typed_of_streams field ((id, r) ∷ streams) = typed (field r) ++ typed_of_streams field streams

aggregate_resources-pushes :
    (t : String) (rs : List Resource) (aggr : GoMap String (List Resource))
    → aggregate_resources t rs aggr ≡ pushes (map (λ r. (t, r)) rs) aggr
unfolding aggregate_resources
aggregate_resources-pushes t [] aggr = refl
aggregate_resources-pushes t (r ∷ rs) aggr = aggregate_resources-pushes t rs _

aggregate_types-pushes :
    (m : GoMap String (List Resource)) (aggr : GoMap String (List Resource))
    → aggregate_types m aggr ≡ pushes (typed m) aggr
unfolding aggregate_types
aggregate_types-pushes [] aggr = refl
aggregate_types-pushes ((t, rs) ∷ m) aggr =
    aggregate_types-pushes m _
    ∙ ap (pushes (typed m)) (aggregate_resources-pushes t rs aggr)
    ∙ pushes-append (map (λ r. (t, r)) rs) (typed m) aggr

pub aggregate_streams-pushes :
    (field : NodeSnapshotResources → GoMap String (List Resource))
    (streams : GoMap ℕ NodeSnapshotResources) (aggr : GoMap String (List Resource))
    → aggregate_streams field streams aggr ≡ pushes (typed_of_streams field streams) aggr
unfolding aggregate_streams
aggregate_streams-pushes field [] aggr = refl
aggregate_streams-pushes field ((id, r) ∷ streams) aggr =
    aggregate_streams-pushes field streams _
    ∙ ap (pushes (typed_of_streams field streams)) (aggregate_types-pushes (field r) aggr)
    ∙ pushes-append (typed (field r)) (typed_of_streams field streams) aggr

values_of-append :
    (t : String) (xs ys : List (String × Resource))
    → values_of t (xs ++ ys) ≡ values_of t xs ++ values_of t ys
values_of-append t [] ys = refl
values_of-append t ((k, x) ∷ xs) ys = elim (Bool-cases (k == t)) [
  | inl e ↦ rw (e, values_of-append t xs ys) refl
  | inr e ↦ rw (e, values_of-append t xs ys) refl
]

values_of-map : (t : String) (rs : List Resource) → values_of t (map (λ r. (t, r)) rs) ≡ rs
values_of-map t [] = refl
values_of-map t (r ∷ rs) = rw (beq_refl t, values_of-map t rs) refl

typed-Within :
    (t : String) (xs : List Resource) (m : GoMap String (List Resource))
    → lookup t m ≡ some xs
    → Within xs (values_of t (typed m))
unfolding lookup
typed-Within t xs [] h = cc
typed-Within t xs ((k, rs) ∷ m) h = elim (Bool-cases (k == t)) [
  | inl e ↦ (
    [],
    values_of t (typed m),
    values_of-append t (map (λ r. (k, r)) rs) (typed m)
        ∙ ap (λ l. l ++ values_of t (typed m))
            (rw (eq_of_beq k t e) (values_of-map t rs) ∙ some_inj (rw e at h)),
  )
  | inr e ↦
      rw (values_of-append t (map (λ r. (k, r)) rs) (typed m))
        (Within-prepend xs (values_of t (typed m)) _ (typed-Within t xs m (rw e at h)))
]

pub typed_of_streams-Within :
    (field : NodeSnapshotResources → GoMap String (List Resource)) (id : ℕ) (t : String)
    (r : NodeSnapshotResources) (xs : List Resource) (streams : GoMap ℕ NodeSnapshotResources)
    → lookup id streams ≡ some r
    → lookup t (field r) ≡ some xs
    → Within xs (values_of t (typed_of_streams field streams))
unfolding lookup
typed_of_streams-Within field id t r xs [] h k = cc
typed_of_streams-Within field id t r xs ((i, r') ∷ streams) h k =
    rw (values_of-append t (typed (field r')) (typed_of_streams field streams))
      (elim (Bool-cases (i == id)) [
        | inl e ↦
            Within-append xs (values_of t (typed (field r'))) _
              (typed-Within t xs (field r') (rw (some_inj (rw e at h)) k))
        | inr e ↦
            Within-prepend xs (values_of t (typed_of_streams field streams)) _
              (typed_of_streams-Within field id t r xs streams (rw e at h) k)
      ])
