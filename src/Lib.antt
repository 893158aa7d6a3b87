-- ===== src/Lib.antt =====
-- hcloud-csi-rwx: ReadWriteMany volumes for Kubernetes on block volumes of Hetzner Cloud. Each volume
-- is a block volume that one share-manager pod mounts and exports by NFS-Ganesha.
--
-- The parts and how they interact:
-- - The CSI driver (src/csi.rs) creates a volume: a backing claim, a service and the share-manager pod
--   on a node that `pick_node` (src/provision.rs) chooses, and waits until the pod runs. On a node it
--   resolves the endpoint of a volume over the service and the share-manager's API, and mounts it.
-- - The failover controller (src/controller.rs) keeps the state of each share in a ConfigMap. When the
--   pod of a share is gone or its node is not Ready, it marks the failover, detaches the backing volume
--   by force, evicts the pods that use it, and creates the pod again on another node.
-- - The share-manager (src/sharemanager.rs, src/block.rs, src/nfs.rs, src/api.rs) runs in the pod: it
--   mounts the device, starts ganesha and watches it, and shows the endpoint by HTTP. Its exit makes the
--   pod fail, which is what the controller reacts to.
-- - The recovery backend (src/recovery.rs) keeps, for the ganesha of each share, which NFS clients may
--   reclaim their locks: a ConfigMap for each host, with the current version as an annotation, and the
--   clients of each version under its key in the data.
--
-- Where each part is modelled:
-- - Kube: the objects and the API of the cluster. The API server is not part of the repository: `Client`
--   is a record of functions over an unknown world, and each operation of the program is a function of
--   a `Session`, the world and the list of the requests sent so far, the latest first. A `Result`
--   is the value that `?` passes on; `do` blocks chain such steps. Kube.Store states what is relied on
--   of a healthy API server for ConfigMaps, Kube.Avoids how to show that steps send no request of a kind,
--   Kube.Keeps how to show that steps keep a property of the world, and Kube.Yields that they succeed as
--   long as it holds.
-- - Map: BTreeMap. Json: serde_json::Value, with the `json!` texts of src/provision.rs in
--   Provision.Specs and the types of the API's fields in Specs.Schema. Decoding and encoding by
--   serde is a parameter (`Codec`).
-- - Provision: Config (the environment), Names, Specs, Nodes. Number parses numbers of the environment.
-- - Controller: State (`ShareState`, load_or_create_state, save_state, pick_node_with_reset,
--   ensure_service), Detach, Evict, Reconcile (reconcile_body cut at its branches: `on_pod` for a pod
--   that exists, `on_missing` for the 404 branch, `recreate` for the new pod). Reconcile.Requests says
--   which of its steps send only requests for other objects than ConfigMaps, and Reconcile.Healthy what
--   is relied on of an API server on which a round gets through.
--   Reconcile.Stored follows what the ConfigMap of a share holds along rounds of the controller. Watch
--   is the claim that the event of a pod wakes.
-- - Csi: Capacity (requested_gib on i64 with its wrap-around), Volumes, Endpoint, Mounts, and Service,
--   the dispatch of the procedures with those that answer a constant; Service.Protocol is what
--   proto/csi.proto ties them to.
-- - Exec: src/exec.rs, SystemExec over tokio and, in Fake, FakeExec, which also serves as the system of
--   a share-manager.
-- - Recovery: Types, Input, Handlers (one function for each handler), Router (the bearer token and the
--   routes). Hosts states what the backend promises on the state of a host, and Refinement and Creation
--   show it of each handler; Sessions draws from it what a read after a handler lists, and Traces
--   takes any sequence of requests from several hosts, the creation of a host among them.
-- - Share: Config (src/nfs.rs, the configuration of ganesha), Block (src/block.rs), Api (src/api.rs),
--   Manager (src/sharemanager.rs, with ganesha's child process). Machine is the operating system, a
--   parameter; the state that the API shows is passed on beside it. Server is the server of that API,
--   over sockets that are a parameter. Of a run, Shown says what the API shows after it, Children whether
--   a child is left (with the drop of the handle), Device which commands it runs on the device, and
--   Health, Startup and Ending how it fails and ends; Outside holds what they share. CommandLine is
--   src/main.rs, and CommandLine.Container sets it beside the pod's container. Csi.Mounts.Served puts a
--   node of the driver and a share-manager together.
-- - Testing: src/testing.rs, the routing table that the program's own tests put in the place of a
--   cluster.
-- - Suite: the repository's own tests, each a Boolean function of its name that runs the models, and a
--   proof, in each file, that they come out true; Suite.Disk stands in the place of std::fs, and
--   Suite.Server in that of kube's client over FakeApi. Left out are the tests of real processes,
--   sockets and environments, and what they ask of texts that the models do not hold.
-- - Tests: a cluster in memory, a text format in the place of JSON, and runs of the models.
--
-- Loops and bounds: the loop that strips NUL bytes runs on as much fuel as there are bytes, each round
-- taking one (Recovery.Input); the polls of CreateVolume run on their own number of attempts, as in the
-- source; the wait for the device is taken to poll twice a second; the health loop runs along a
-- sequence of timer ticks and a shutdown, and answers `none` where it still runs after them; a child of
-- FakeExec has a count of polls on 64 bits, of which the largest stands for ever; every
-- other loop goes over a list. Integers of the source that can wrap are written with the wrap-around
-- (Csi.Capacity); the other numbers are codes and delays.
--
-- Not modelled: the loop that the controller's main starts, the servers of the other mains, tracing,
-- how clap reads its arguments and axum matches paths, the C module of ganesha. Error
-- texts of other crates are parameters, and error texts of the program leave out how Rust quotes a
-- value in them.
pub mod Prelude
pub mod Map
pub mod Kube
pub mod Json
pub mod Provision
pub mod Controller
pub mod Csi
pub mod Recovery
pub mod Exec
pub mod Share
pub mod Testing
pub mod Tests
pub mod Suite
