-- ===== src/Snapshotter/Versions.antt =====
-- Each snapshot of a node has another version than the one before: a client sees that it is new.
use semaphore_xds.Prelude.{String, ◌≢◌}
use semaphore_xds.Prelude.Decimal.{itoa}
use semaphore_xds.Prelude.Decimal.Injective.{itoa-inc32_ne}
use semaphore_xds.Snapshotter.Library.{Library}
use semaphore_xds.Snapshotter.State.{Node, Snapshotter}
use semaphore_xds.Snapshotter.Nodes.{node_service_snapshot, node_endpoints_snapshot}
use semaphore_xds.Snapshotter.Invariant.{node_service_snapshot-node, node_endpoints_snapshot-node}

-- The versions that a node has after nodeServiceSnapshot and after nodeEndpointsSnapshot print
-- differently from those before, errors and the counters' wrap-around included.
pub node_snapshots-version_ne :
    {lib : Library} (s : Snapshotter lib) (node_id : String) (node : Node)
    → (itoa (node_service_snapshot s node_id node).0.service_snap_version
        ≢ itoa node.service_snap_version)
      × (itoa (node_endpoints_snapshot s node_id node).0.endpoints_snap_version
          ≢ itoa node.endpoints_snap_version)
node_snapshots-version_ne s node_id node = (
  rw (node_service_snapshot-node s node_id node) (itoa-inc32_ne node.service_snap_version),
  rw (node_endpoints_snapshot-node s node_id node) (itoa-inc32_ne node.endpoints_snap_version),
)
