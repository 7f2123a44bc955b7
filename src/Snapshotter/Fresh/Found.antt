-- ===== src/Snapshotter/Fresh/Found.antt =====
-- What getResourcesFromCache finds in a full snapshot.
use mathlib.Core.List.{filter_map, append_assoc, append-nil}
use semaphore_xds.Prelude.{
  String, ◌≡◌, ◌∙◌, sym, List, [], ◌∷◌, ◌++◌, inl, inr, Option-cases, string_eq,
}
use semaphore_xds.Prelude.GoMap.{GoMap, lookup}
use semaphore_xds.Resource.{Resource}
use semaphore_xds.Snapshotter.Library.{Library}
use semaphore_xds.Snapshotter.Nodes.{collect}
use semaphore_xds.Snapshotter.Fresh.{Content}

-- What the snapshot has for the type under each of the names, in order; a name that it does not
-- have gives nothing.
abbrev pub found_in : (lib : Library) → lib.Snapshot → Content
found_in lib full t names = filter_map (λ name. lookup name (lib.get_resources full t)) names

collect-filter_map :
    (m : GoMap String Resource) (names : List String) (res : List Resource)
    → collect m names res ≡ res ++ filter_map (λ name. lookup name m) names
unfolding collect filter_map
collect-filter_map m [] res = sym (append-nil res)
collect-filter_map m (name ∷ names) res = elim (Option-cases (lookup name m)) [
  | inl e ↦ rw (e, collect) (collect-filter_map m names res)
  | inr (r, e) ↦
      rw (e, collect)
        (collect-filter_map m names (res ++ r ∷ [])
          ∙ append_assoc res (r ∷ []) (filter_map (λ n. lookup n m) names))
]

-- getResourcesFromCache loops to what is found.
pub collect_lem :
    (lib : Library) (full : lib.Snapshot) (t : String) (names : List String)
    → collect (lib.get_resources full t) names [] ≡ found_in lib full t names
collect_lem lib full t names = collect-filter_map (lib.get_resources full t) names []
