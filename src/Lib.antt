-- ===== src/Lib.antt =====
-- ToyDFS, a distributed file system of one coordinator, data nodes and clients, over gRPC.
--
-- The coordinator (coordinator/) keeps the metadata of all files and a registry of data nodes. An
-- upload is cut into chunks of 1 MB, each chunk is written to three nodes that a round robin selects,
-- and then the file is entered in the metadata. A download reads each chunk from the first of its
-- nodes that answers. A deletion turns the file into a tombstone; a background thread removes the
-- chunks of expired tombstones. A data node (datanode/) stores a chunk in a file of its own.
--
-- The files and the code:
--   Prelude, Bytes, Grpc, Table: Boolean tests, lists, `int` and byte strings; what the program uses
--     of the C++ library (`std::to_string`, `std::stoi`, `std::unordered_map`) and of gRPC's status
--     and messages (proto/).
--   MetadataStore: coordinator/include/metadata_store.h. A record with a function for each method.
--     Files is the view as a partial map, Tombstones the cleanups, Invariant and History what holds
--     after any sequence of calls.
--   Coordinator: coordinator/include/coordinator_service_impl.h and
--     coordinator/src/coordinator_service_impl.cpp. Registry (RegisterDataNode, UnregisterDataNode,
--     extractClientAddress, resolveNodeAddresses), Placement (selectNodesForReplication),
--     Distribution (distributeChunkToNodes, distributeChunkToSingleNode), Upload (PutFile),
--     Download (GetFile, readChunkWithFallback), Deletion (DeleteFile, and one round of
--     cleanupWorker with its chunk deleter), RoundTrip (an upload and a download). Worker is the
--     thread of cleanupWorker: its naps, its start in DeleteFile, its end in the destructor, and
--     its interleaving with the handlers. Concurrent is several calls of PutFile at once, a lookup,
--     a chunk or an entry a step; Alone compares a call alone with the handler, Sound is about the
--     chunks of calls together, Entered about the files that the store names then, Served about a
--     download. System is the service as a whole: any sequence of calls and cleanup rounds,
--     its contract (Spec), how the state of the coordinator and the data nodes represents the
--     contract's map (Represents), a module for each kind of call, and the refinement (Refinement,
--     Lasting). Client is the interface of datanode/include/datanode_stub_wrapper.h, Environment
--     the parameters of the handlers.
--   DataNode: Paths is datanode/src/datanode_utils.cpp, Service datanode/src/datanode_service_impl.cpp,
--     Stub datanode/src/datanode_stub_wrapper.cpp with the link to the coordinator's interface in
--     Stub/Reliable, and the configuration is datanode/include/datanode_config.h with
--     datanode/src/datanode_config.cpp.
--   Client: client/src/dfs_client.cpp (putFileSync, getFileSync, deleteFileSync, and the
--     asynchronous calls that hand on their results); Transfers joins it to the coordinator, and
--     Deletions does so over a connection that may fail.
--   Server: server/src/datanode_server.cpp, the registration of a data node that starts and stops;
--     Lifecycle is server/include/dfs_server.h.
--   Program: the three `main` functions. ClientMain is client/src/main.cpp, CoordinatorMain
--     coordinator/src/main.cpp, DataNodeMain datanode/src/main.cpp; RoundTrip runs the client's program
--     against the coordinator.
--   The modules named Tests, TransferTests and Samples try the definitions on a small cluster.
--
-- State is passed explicitly: a handler takes the coordinator and the world `W` of the data nodes and
-- returns both. Each handler is one step but in Concurrent, as the store's mutex makes each method of
-- the store one. The
-- tasks of `std::async` run in the order of an arbitrary schedule. Clock readings are arguments, in
-- nanoseconds. `int`, `size_t` and `uint32_t` wrap or overflow as written; an overflow of `int` that
-- the standard leaves undefined is a result of its own.
--
-- Parameters, with the behaviour relied on: the data nodes as the coordinator sees them (IsReliable),
-- the iteration order of the registry (a permutation of its keys), the file system (IsLasting), and
-- the transport below the stub. `getopt_long` and gRPC's server are parameters without assumptions.
--
-- Fuel: `send_blocks` and `send_data` take fuel for their rounds, and their callers give one more
-- than the length of the content, of which every round but the last removes a full buffer. The
-- printing of a number takes the number plus one as fuel, since each digit divides it by ten. All
-- other loops are structural.
--
-- Not modelled: the generated gRPC code, log lines but for those of the chunk deleter, and the
-- interleaving of handlers other than uploads: elsewhere a handler is one step, and so is a round of
-- the cleanup. UnregisterDataNode is modelled alone and is no call of System: a node that leaves takes
-- its replicas along. What follows an overflow of `int` in PutFile is left open.
pub mod Prelude
pub mod Bytes
pub mod Grpc
pub mod Table
pub mod MetadataStore
pub mod Coordinator
pub mod DataNode
pub mod Client
pub mod Server
pub mod Program
