-- ===== src/Snapshotter/Fresh/Loops.antt =====
-- The loops over a node's streams and their types make all of them match.
use semaphore_xds.Prelude.{
  ℕ, String, ◌≡◌, subst, some, List, [], ◌∷◌, All, inl, inr, Bool-cases, Option-cases, ◌==◌,
  eq_of_beq, string_eq, nat_eq,
}
use semaphore_xds.Prelude.GoMap.{some_inj, GoMap, lookup}
use semaphore_xds.Snapshotter.State.{NodeSnapshotResources, Node}
use semaphore_xds.Snapshotter.Snap.{Update, update_types, update_streams}
use semaphore_xds.Snapshotter.Safe.{Returns, bind-Returns, Returns-map}
use semaphore_xds.Snapshotter.Invariant.{NamesOfKind}
use semaphore_xds.Snapshotter.Fresh.{Content, Fields, NodeMatches, KeepsMatches, FreshUpdate}

module _ (content : Content) (f : Fields) (kind : String) (update : Update)
    (fresh : FreshUpdate content f kind update) where
  -- After the loop over a list of types all of them match at the stream.
  abbrev TypesMatch : ℕ → GoMap String (List String) → Node → Node → Type 0
  TypesMatch id types node node' =
      KeepsMatches content f node node'
      × ((t : String) (names : List String)
          → lookup t types ≡ some names
          → NodeMatches content f node' id t)

  types_step :
      (id : ℕ) (t : String) (names : List String) (types : GoMap String (List String))
      (node mid node' : Node)
      → KeepsMatches content f node mid
      → NodeMatches content f mid id t
      → TypesMatch id types mid node'
      → TypesMatch id ((t, names) ∷ types) node node'
  unfolding lookup
  types_step id t names types node mid node' keeps here rest = (
    λ i u h. rest.0 i u (keeps i u h),
    λ u ns q. elim (Bool-cases (t == u)) [
      | inl e ↦ subst (NodeMatches content f node' id) (eq_of_beq t u e) (rest.0 id t here)
      | inr e ↦ rest.1 u ns (rw e at q)
    ],
  )

  update_types-Returns :
      (id : ℕ) (types : GoMap String (List String)) (node : Node)
      → NamesOfKind kind types
      → Returns (TypesMatch id types node) (update_types update id types node)
  unfolding update_types lookup
  update_types-Returns id [] node h = ((λ i u m. m), (λ u ns q. cc))
  update_types-Returns id ((t, names) ∷ types) node h =
      bind-Returns (λ mid. KeepsMatches content f node mid × NodeMatches content f mid id t)
        (TypesMatch id ((t, names) ∷ types) node) _ _ (fresh t node id names h.0)
        λ mid k.
          Returns-map _ (TypesMatch id ((t, names) ∷ types) node) _
            (update_types-Returns id types mid h.1)
            λ node' rest. types_step id t names types node mid node' k.0 k.1 rest

  -- After the loop over a list of streams all of them match at all types that they ask for.
  abbrev StreamsMatch : GoMap ℕ NodeSnapshotResources → Node → Node → Type 0
  StreamsMatch streams node node' =
      KeepsMatches content f node node'
      × ((id : ℕ) (r : NodeSnapshotResources) (t : String) (names : List String)
          → lookup id streams ≡ some r
          → lookup t (f.asked r) ≡ some names
          → NodeMatches content f node' id t)

  streams_step :
      (id : ℕ) (r : NodeSnapshotResources) (streams : GoMap ℕ NodeSnapshotResources)
      (node mid node' : Node)
      → TypesMatch id (f.asked r) node mid
      → StreamsMatch streams mid node'
      → StreamsMatch ((id, r) ∷ streams) node node'
  unfolding lookup
  streams_step id r streams node mid node' types rest = (
    λ i u h. rest.0 i u (types.0 i u h),
    λ i x u ns q a. elim (Bool-cases (id == i)) [
      | inl e ↦
          let same : r ≡ x = some_inj (rw e at q) in
          subst (λ j. NodeMatches content f node' j u) (eq_of_beq id i e)
            (rest.0 id u (types.1 u ns (rw (← same) at a)))
      | inr e ↦ rest.1 i x u ns (rw e at q) a
    ],
  )

  update_streams-Returns :
      (streams : GoMap ℕ NodeSnapshotResources) (node : Node)
      → All (λ (x : ℕ × NodeSnapshotResources). NamesOfKind kind (f.asked x.1)) streams
      → Returns (StreamsMatch streams node) (update_streams update f.asked streams node)
  unfolding update_streams lookup
  update_streams-Returns [] node h = ((λ i u m. m), (λ i x u ns q a. cc))
  update_streams-Returns ((id, r) ∷ streams) node h =
      bind-Returns _ (StreamsMatch ((id, r) ∷ streams) node) _ _
        (update_types-Returns id (f.asked r) node h.0)
        λ mid k.
          Returns-map _ (StreamsMatch ((id, r) ∷ streams) node) _
            (update_streams-Returns streams mid h.1)
            λ node' rest. streams_step id r streams node mid node' k rest

  streams-all :
      (node node' : Node)
      → StreamsMatch node.resources node node'
      → (id : ℕ) (t : String) → NodeMatches content f node' id t
  streams-all node node' h id t = elim (Option-cases (lookup id node.resources)) [
    | inl e ↦ h.0 id t (rw e tt)
    | inr (r, e) ↦ elim (Option-cases (lookup t (f.asked r))) [
      | inl q ↦ h.0 id t (rw (e, q) tt)
      | inr (names, q) ↦ h.1 id r t names e q
    ]
  ]

  -- The loop over all streams of a node makes the whole node match.
  pub update_streams_lem :
      (node : Node)
      → All (λ (x : ℕ × NodeSnapshotResources). NamesOfKind kind (f.asked x.1)) node.resources
      → Returns
          (λ node'. (id : ℕ) (t : String) → NodeMatches content f node' id t)
          (update_streams update f.asked node.resources node)
  update_streams_lem node h =
      Returns-map _ _ _ (update_streams-Returns node.resources node h)
        λ node' m. streams-all node node' m
