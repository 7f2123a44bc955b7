-- ===== src/Snapshotter/Fresh/Asked.antt =====
-- SnapServices and SnapEndpoints do not change what the streams ask for.
use semaphore_xds.Prelude.{
  ℕ, String, ◌≡◌, ◌∙◌, refl, subst, Option, none, some, List, [], ◌∷◌, All, All-map, All-map_both,
  inl, inr, Bool-cases, ◌==◌, eq_of_beq, string_eq, nat_eq,
}
use semaphore_xds.Prelude.GoMap.{
  GoMap, lookup, insert, lookup-insert, lookup-entries, lookup-All, insert-All, insert-Distinct,
  Distinct,
}
use semaphore_xds.Prelude.Result.{ok, ok_inj, >>=-eq-ok}
use semaphore_xds.Snapshotter.State.{Node, NodeSnapshotResources}
use semaphore_xds.Snapshotter.Snap.{Update, or_logged, update_types, update_streams}

-- The two kinds of resources, and the names that a stream asks for of a kind.
pub data Kind : Type 0 where
  services endpoints : Kind

abbrev pub asks : Kind → NodeSnapshotResources → GoMap String (List String)
asks services = λ r. r.services_names
asks endpoints = λ r. r.endpoints_names

-- What a stream of a node asks for of a type, if there are the node, the stream and the type.
abbrev pub asked_at : Kind → Option Node → ℕ → String → Option (List String)
asked_at k none id t = none
asked_at k (some node) id t = elim (lookup id node.resources) [
  | none ↦ none
  | some r ↦ lookup t (asks k r)
]

abbrev pub SameAsked : Option Node → Option Node → Type 0
SameAsked x y = (k : Kind) (id : ℕ) (t : String) → asked_at k y id t ≡ asked_at k x id t

-- The maps of a node repeat no key.
abbrev pub IsOnce : ℕ × NodeSnapshotResources → Type 0
IsOnce (id, r) = (k : Kind) → Distinct (asks k r)

abbrev pub AskedOnce : Node → Type 0
AskedOnce node = Distinct node.resources × All IsOnce node.resources

-- An operation on a node keeps what is asked for.
abbrev pub Kept : Node → Node → Type 0
Kept node node' = (AskedOnce node → AskedOnce node') × SameAsked (some node) (some node')

Kept-refl : (node : Node) → Kept node node
Kept-refl node = ((λ h. h), (λ k id t. refl))

Kept-trans : (a b c : Node) → Kept a b → Kept b c → Kept a c
Kept-trans a b c h g = ((λ o. g.0 (h.0 o)), (λ k id t. g.1 k id t ∙ h.1 k id t))

pub set_stream-AskedOnce :
    (id : ℕ) (r r' : NodeSnapshotResources) (node : Node)
    → lookup id node.resources ≡ some r
    → (IsOnce (id, r) → IsOnce (id, r'))
    → AskedOnce node
    → AskedOnce (record node { resources = insert id r' node.resources })
set_stream-AskedOnce id r r' node e once h = (
  insert-Distinct id r' node.resources h.0,
  insert-All IsOnce id r' node.resources (once (lookup-All IsOnce id node.resources h.1 e)) h.1,
)

pub set_stream-Kept :
    (id : ℕ) (r r' : NodeSnapshotResources) (node : Node)
    → lookup id node.resources ≡ some r
    → (IsOnce (id, r) → IsOnce (id, r'))
    → ((k : Kind) (t : String) → lookup t (asks k r') ≡ lookup t (asks k r))
    → Kept node (record node { resources = insert id r' node.resources })
set_stream-Kept id r r' node e once same = (
  set_stream-AskedOnce id r r' node e once,
  λ k i t.
      rw (asked_at, lookup-insert id i r' node.resources)
        (elim (Bool-cases (id == i)) [
          | inl q ↦ rw (q, asked_at, ← eq_of_beq id i q, e) (same k t)
          | inr q ↦ rw q refl
        ]),
)

module _ (kind : Kind) (update : Update) where
  -- An update with the names that the stream asks for already keeps what is asked for.
  abbrev pub KeepsAsked : Type 0
  KeepsAsked =
      (t : String) (node : Node) (id : ℕ) (names : List String) (node' : Node)
      → asked_at kind (some node) id t ≡ some names
      → or_logged node (update t node id names) ≡ ok node'
      → Kept node node'

  pub same-Kept : (node node' : Node) → ok node ≡ ok node' → Kept node node'
  same-Kept node node' h = subst (Kept node) (ok_inj h) (Kept-refl node)

  -- What a list of types, or of streams, says is what the node asks for.
  abbrev TypesAsked : Node → ℕ → GoMap String (List String) → Type 0
  TypesAsked node id types =
      All (λ (x : String × List String). asked_at kind (some node) id x.0 ≡ some x.1) types

  abbrev StreamsAsked : Node → GoMap ℕ NodeSnapshotResources → Type 0
  StreamsAsked node streams =
      All (λ (x : ℕ × NodeSnapshotResources). TypesAsked node x.0 (asks kind x.1)) streams

  TypesAsked-Kept :
      (node node' : Node) (id : ℕ) (types : GoMap String (List String))
      → Kept node node'
      → TypesAsked node id types
      → TypesAsked node' id types
  TypesAsked-Kept node node' id types g = All-map types λ x q. g.1 kind id x.0 ∙ q

  update_types-Kept :
      (id : ℕ) (types : GoMap String (List String)) (node node' : Node)
      → KeepsAsked
      → TypesAsked node id types
      → update_types update id types node ≡ ok node'
      → Kept node node'
  unfolding update_types
  update_types-Kept id [] node node' u a h = same-Kept node node' h
  update_types-Kept id ((t, names) ∷ types) node node' u a h =
      let (mid, first, rest) = >>=-eq-ok (or_logged node (update t node id names)) _ h in
      let g = u t node id names mid a.0 first in
      Kept-trans node mid node' g
        (update_types-Kept id types mid node' u (TypesAsked-Kept node mid id types g a.1) rest)

  update_streams-Kept :
      (streams : GoMap ℕ NodeSnapshotResources) (node node' : Node)
      → KeepsAsked
      → StreamsAsked node streams
      → update_streams update (asks kind) streams node ≡ ok node'
      → Kept node node'
  unfolding update_streams
  update_streams-Kept [] node node' u a h = same-Kept node node' h
  update_streams-Kept ((id, r) ∷ streams) node node' u a h =
      let (mid, first, rest) = >>=-eq-ok (update_types update id (asks kind r) node) _ h in
      let g = update_types-Kept id (asks kind r) node mid u a.0 first in
      Kept-trans node mid node' g (
        update_streams-Kept streams mid node' u
          (All-map streams (λ x q. TypesAsked-Kept node mid x.0 (asks kind x.1) g q) a.1) rest)

  stream-TypesAsked :
      (node : Node) (id : ℕ) (r : NodeSnapshotResources)
      → lookup id node.resources ≡ some r
      → IsOnce (id, r)
      → TypesAsked node id (asks kind r)
  stream-TypesAsked node id r here once =
      All-map (asks kind r) (λ y q. rw (asked_at, here) q)
        (lookup-entries (asks kind r) (once kind))

  StreamsAsked-self : (node : Node) → AskedOnce node → StreamsAsked node node.resources
  StreamsAsked-self node h =
      All-map_both node.resources (λ x. stream-TypesAsked node x.0 x.1)
        (lookup-entries node.resources h.0) h.1

  pub node-Kept :
      (node node' : Node)
      → KeepsAsked
      → AskedOnce node
      → update_streams update (asks kind) node.resources node ≡ ok node'
      → Kept node node'
  node-Kept node node' u once h =
      update_streams-Kept node.resources node node' u (StreamsAsked-self node once) h
