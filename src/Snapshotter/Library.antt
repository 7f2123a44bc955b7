-- ===== src/Snapshotter/Library.antt =====
-- What xds/snapshotter.go uses of other packages: the snapshot and the linear caches of
-- go-control-plane, the packing of messages of protobuf, and the rates of golang.org/x/time.
use semaphore_xds.Prelude.{
  String, ◌≡◌, Bool, true, Option, none, some, List, if◌then◌else◌, ◌==◌, string_eq, ◌≢◌,
}
use semaphore_xds.Prelude.GoMap.{GoMap}
use semaphore_xds.Resource.{Resource, Message, Any}

pub record Library : Type 1 where
  -- cache.ResourceSnapshot, cache.SnapshotCache and cache.LinearCache
  pub Snapshot : Type 0
  pub Cache : Type 0
  pub Linear : Type 0
  -- rate.Limit, a float64
  pub Rate : Type 0
  -- cache.NewSnapshot(version, resources); `none` is an error
  pub new_snapshot : String → GoMap String (List Resource) → Option Snapshot
  -- snapshot.GetResources(typeURL)
  pub get_resources : Snapshot → String → GoMap String Resource
  -- SetSnapshot(ctx, node, snapshot): the cache afterwards, and whether the error is nil
  pub set_snapshot : Cache → String → Snapshot → Cache × Bool
  -- GetSnapshot(node); `none` is an error
  pub get_snapshot : Cache → String → Option Snapshot
  pub clear_snapshot : Cache → String → Cache
  -- LinearCache.SetResources and GetResources
  pub set_resources : Linear → GoMap String Resource → Linear
  pub linear_resources : Linear → GoMap String Resource
  -- limit == 0
  pub is_zero : Rate → Bool
  -- anypb.New; `none` is an error
  pub pack : Message → Option Any

-- The documented behaviour of the snapshot cache: it keeps one snapshot for each node.
pub record IsLawful (lib : Library) : Type 0 where
  -- A snapshot that is set without an error is the node's snapshot.
  pub get_set_self :
      (c : lib.Cache) (n : String) (s : lib.Snapshot)
      → (lib.set_snapshot c n s).1 ≡ true
      → lib.get_snapshot (lib.set_snapshot c n s).0 n ≡ some s
  -- To set a node's snapshot leaves the other nodes' alone.
  pub get_set_ne :
      (c : lib.Cache) (n m : String) (s : lib.Snapshot)
      → n ≢ m
      → lib.get_snapshot (lib.set_snapshot c n s).0 m ≡ lib.get_snapshot c m
  -- To clear a node's snapshot removes it and no other.
  pub get_clear :
      (c : lib.Cache) (n m : String)
      → lib.get_snapshot (lib.clear_snapshot c n) m
        ≡ (if n == m then none else lib.get_snapshot c m)
