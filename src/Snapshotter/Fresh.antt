-- ===== src/Snapshotter/Fresh.antt =====
-- What a stream is given is what it asks for: the resources that it holds for a type are those of
-- the full snapshot under its names. The loops of SnapServices and SnapEndpoints over a node's
-- streams and types bring this about, in Loops and Nodes; Services and Endpoints apply it to the two.
-- Asked, Updates, Unchanged and Snaps are about what the streams ask for.
pub mod Loops
pub mod Nodes
pub mod Asked
pub mod Updates
pub mod Unchanged
pub mod Snaps
pub mod Found
pub mod Services
pub mod Endpoints
pub mod Keep
pub mod Frame
use semaphore_xds.Prelude.{
  ℕ, String, ◌≡◌, refl, Bool, Option, none, some, List, [], ◌∷◌, inl, inr, Bool-cases, Option-cases,
  ◌==◌, eq_of_beq, string_eq, nat_eq, if◌then◌else◌,
}
use semaphore_xds.Prelude.GoMap.{GoMap, lookup, insert, lookup-insert, lookup-insert_self}
use semaphore_xds.Prelude.Result.{Result, ok, err, panic}
use semaphore_xds.Resource.{Resource}
use semaphore_xds.Snapshotter.State.{NodeSnapshotResources, Node, map_type_url}
use semaphore_xds.Snapshotter.Snap.{Update, or_logged, update_types, update_streams}
use semaphore_xds.Snapshotter.Safe.{Returns, Safe, bind-Safe}
use semaphore_xds.Snapshotter.Invariant.{NamesOfKind}

-- The resources of a type that a list of names stands for.
abbrev pub Content : Type 0
Content = String → List String → List Resource

-- Where names are known for the type, the resources are theirs.
abbrev pub Matches : Content → String → Option (List String) → Option (List Resource) → Type 0
Matches content t none resources = Unit
Matches content t (some names) resources = resources ≡ some (content t names)

-- The two maps of a stream: what it asks for, and what it holds.
pub record Fields : Type 0 where
  pub asked : NodeSnapshotResources → GoMap String (List String)
  pub holds : NodeSnapshotResources → GoMap String (List Resource)

abbrev pub StreamMatches : Content → Fields → String → Option NodeSnapshotResources → Type 0
StreamMatches content f t none = Unit
StreamMatches content f t (some r) = Matches content t (lookup t (f.asked r)) (lookup t (f.holds r))

-- At one stream of a node and one type.
abbrev pub NodeMatches : Content → Fields → Node → ℕ → String → Type 0
NodeMatches content f node id t = StreamMatches content f t (lookup id node.resources)

pub insert-Matches :
    (content : Content) (t' t : String) (names : List String) (asked : GoMap String (List String))
    (holds : GoMap String (List Resource))
    → Matches content t (lookup t asked) (lookup t holds)
    → Matches content t
        (lookup t (insert t' names asked))
        (lookup t (insert t' (content t' names) holds))
insert-Matches content t' t names asked holds h =
    rw (lookup-insert t' t names asked, lookup-insert t' t (content t' names) holds)
      (elim (Bool-cases (t' == t)) [ inl e ↦ rw (e, eq_of_beq t' t e) refl | inr e ↦ rw e h ])

pub insert-Matches_self :
    (content : Content) (t : String) (names : List String) (asked : GoMap String (List String))
    (holds : GoMap String (List Resource))
    → Matches content t
        (lookup t (insert t names asked))
        (lookup t (insert t (content t names) holds))
insert-Matches_self content t names asked holds =
    rw (lookup-insert_self t names asked, lookup-insert_self t (content t names) holds) refl

module _ (content : Content) (f : Fields) where
  -- A stream that is put back with other maps.
  pub insert-StreamMatches :
      (id' id : ℕ) (t : String) (r r' : NodeSnapshotResources)
      (streams : GoMap ℕ NodeSnapshotResources)
      → lookup id' streams ≡ some r
      → (StreamMatches content f t (some r) → StreamMatches content f t (some r'))
      → StreamMatches content f t (lookup id streams)
      → StreamMatches content f t (lookup id (insert id' r' streams))
  insert-StreamMatches id' id t r r' streams e k h =
      rw (lookup-insert id' id r' streams) (elim (Bool-cases (id' == id)) [
        | inl q ↦ rw q (k (rw (← eq_of_beq id' id q, e) at h))
        | inr q ↦ rw q h
      ])

  -- A node that matches wherever another one does.
  abbrev pub KeepsMatches : Node → Node → Type 0
  KeepsMatches node node' =
      (id : ℕ) (t : String) → NodeMatches content f node id t → NodeMatches content f node' id t

  -- An update that keeps what matches, and makes its own stream and type match.
  abbrev pub FreshUpdate : String → Update → Type 0
  FreshUpdate kind update =
      (t : String) (node : Node) (id : ℕ) (names : List String)
      → map_type_url t ≡ kind
      → Returns (λ node'. KeepsMatches node node' × NodeMatches content f node' id t)
          (or_logged node (update t node id names))

  pub set_stream-Matches :
      (id : ℕ) (t : String) (r r' : NodeSnapshotResources) (node : Node)
      → lookup id node.resources ≡ some r
      → ((u : String) → StreamMatches content f u (some r) → StreamMatches content f u (some r'))
      → StreamMatches content f t (some r')
      → KeepsMatches node (record node { resources = insert id r' node.resources })
        × NodeMatches content f (record node { resources = insert id r' node.resources }) id t
  set_stream-Matches id t r r' node e keeps here = (
    λ i u m. insert-StreamMatches id i u r r' node.resources e (keeps u) m,
    rw (lookup-insert_self id r' node.resources) here,
  )
