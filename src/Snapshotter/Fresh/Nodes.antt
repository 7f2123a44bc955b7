-- ===== src/Snapshotter/Fresh/Nodes.antt =====
-- The loop over the nodes: each is put back with all its streams in order.
use semaphore_xds.Prelude.{
  ℕ, String, ◌≡◌, Option, none, some, [], ◌∷◌, inl, inr, Bool-cases, Option-cases, ◌==◌, string_eq,
}
use semaphore_xds.Prelude.GoMap.{GoMap, lookup, insert, lookup-insert}
use semaphore_xds.Snapshotter.State.{Node}
use semaphore_xds.Snapshotter.Fresh.{Content, Fields, NodeMatches}

-- A node that is there matches at all streams and types.
abbrev pub EntryMatches : Content → Fields → Option Node → Type 0
EntryMatches content f none = Unit
EntryMatches content f (some node) = (id : ℕ) (t : String) → NodeMatches content f node id t

module _ (content : Content) (f : Fields) where
  -- The nodes of a list match afterwards, and so does every other one that did before.
  abbrev pub NodesMatch : GoMap String Node → GoMap String Node → GoMap String Node → Type 0
  NodesMatch nodes before after =
      ((n : String)
        → EntryMatches content f (lookup n before)
        → EntryMatches content f (lookup n after))
      × ((n : String) (node : Node)
          → lookup n nodes ≡ some node
          → EntryMatches content f (lookup n after))

  pub NodesMatch-nil : (nodes : GoMap String Node) → NodesMatch [] nodes nodes
  unfolding lookup
  NodesMatch-nil nodes = ((λ n m. m), (λ n node q. cc))

  pub NodesMatch-cons :
      (n : String) (node node' : Node) (nodes before after : GoMap String Node)
      → ((id : ℕ) (t : String) → NodeMatches content f node' id t)
      → NodesMatch nodes (insert n node' before) after
      → NodesMatch ((n, node) ∷ nodes) before after
  unfolding lookup
  NodesMatch-cons n node node' nodes before after new rest = (
    λ m h. rest.0 m (
        rw (lookup-insert n m node' before)
          (elim (Bool-cases (n == m)) [ inl e ↦ rw e new | inr e ↦ rw e h ])),
    λ m x q. elim (Bool-cases (n == m)) [
      | inl e ↦ rest.0 m (rw (lookup-insert n m node' before, e) new)
      | inr e ↦ rest.1 m x (rw e at q)
    ],
  )

  pub NodesMatch-all :
      (before after : GoMap String Node)
      → NodesMatch before before after
      → (n : String) → EntryMatches content f (lookup n after)
  NodesMatch-all before after h n = elim (Option-cases (lookup n before)) [
    | inl e ↦ h.0 n (rw e tt)
    | inr (node, e) ↦ h.1 n node e
  ]
