-- ===== src/Lib.antt =====
-- A model of semaphore-xds, an xDS control plane that serves Kubernetes services to gRPC clients.
--
-- The controller (controller/controller.go) watches Services, XdsServices and EndpointSlices. Each
-- change puts a key into a queue (queue/queue.go), whose reconcile function computes two stores,
-- one of services and one of endpoints, and gives them to the snapshotter (xds/snapshotter.go). The
-- snapshotter translates the stores to xDS resources (xds/service.go, xds/endpoints.go) and puts
-- them into a full snapshot and into linear caches. For each node, a client with an id, it keeps
-- the names that the node's streams have asked for, and a snapshot with these resources alone,
-- which changes when a stream asks for other names and when a store changes.
--
-- Which file models which part:
--   Names, Policy, Retry    xds/utils.go and types/types.go
--   Resource                the messages of go-control-plane, with the fields that are set
--   Service                 xds/service.go: the store, Build for the builders, Translate for
--                           servicesToResources and servicesToResourcesWithNames; Complete,
--                           Unique, WithNames and Routed say what these two return
--   Endpoint                xds/endpoints.go: Build for the load assignments
--   Dummy                   xds/dummy.go
--   Snapshotter             xds/snapshotter.go: Library for what it uses of other packages, State,
--                           Nodes, Snap for SnapServices and SnapEndpoints, Handlers for the stream
--                           callbacks; Reach has the state machine of all of them, Delta the
--                           delta requests, Fresh what streams ask for and are given when a store
--                           changes, and Request and Welcome what nodes are given when a stream
--                           asks
--   Metrics                 xds/snapshotter_metrics.go: Unmarshal for the functions of xds/utils.go
--                           that read a resource back, Collect for the collector
--   Controller              controller/controller.go: Kube for the resource and the clients, Extract,
--                           Stores and Reconcile; Contents for the endpoint store, Steps, Skipped and
--                           Served for reconciliations from the cluster to the streams; Wrapper
--                           for kube/client.go
--   Watcher                 kube/service_watcher.go, newEventHandlerFunc of kube/client.go and the
--                           controller's handler of Services
--   Queue                   queue/queue.go
--   Config, Main            config.go and createClientsFromConfig of main.go
--   Backoff                 backoff/retry.go
--   Prelude                 what all share: tests, lists, Go's maps and results, decimal numbers
--   Tests                   concrete inputs
-- Functions have the source's names, in lower case with underscores. A function of the source with
-- nested loops is one function for each loop, named after it with `_loop` where it has no better
-- name. The controller's snapEndpoints is refresh_endpoints, for the snapshotter has one too.
--
-- Conventions. A Go map is a list of keys and values without repeated keys, in the order in which
-- they were put in; Go visits a map in any order, and no statement here says more of an order than
-- the list itself does. An operation that fails returns `err` with a message, and where Go would
-- panic the result is `panic`. A state is passed along; where an operation fails half way its
-- result has the state that it leaves. An error's message is kept up to the values printed in it,
-- for no code depends on them. int32 counters wrap around as in Go; ports are ℤ and are printed by
-- itoa. Every loop goes through a list, so no fuel is needed and every function is total. The
-- exception is the retry loop, which Go runs for ever if the operation keeps failing: it takes a
-- number of rounds, and Backoff/Stops says which number is enough.
--
-- What other packages do is an argument: the caches of go-control-plane, anypb.New, the answers of
-- the rate limiters, Kubernetes' clients, client-go's queue, json.Unmarshal, time.ParseDuration,
-- strings.ToLower and strings.TrimSpace, the unmarshalling of protobuf, the reading of files, the
-- making of clients, and the Backoff type, a copy of another project's code.
--
-- Not modelled: locks, for each callback and each reconciliation is one step here; the set-up of
-- gRPC, flags and the servers of main.go; the rest of kube; the counters of metrics and logging;
-- generated code and examples. A listener of the model has the message that is inside its
-- ApiListener, for the program makes no others, so that the nil pointer that
-- ExtractManagerFromListener would follow in another listener is not modelled.
pub mod Prelude
pub mod Main
pub mod Metrics
pub mod Names
pub mod Policy
pub mod Retry
pub mod Resource
pub mod Service
pub mod Endpoint
pub mod Dummy
pub mod Snapshotter
pub mod Controller
pub mod Queue
pub mod Watcher
pub mod Backoff
pub mod Config
pub mod Tests
