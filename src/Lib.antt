-- ===== src/Lib.antt =====
-- A model of the core of Distributed-File-Grid, a distributed file store: a head server keeps the
-- metadata of files and a registry of cluster servers, clients upload and download files through it
-- in chunks that lie on several cluster servers, and a cluster server that falls silent has its
-- chunks replicated elsewhere.
--
-- The parts and the files that model them, each with one definition for each function of the source
-- and named after it:
--   * Address: the printed form `host:port` (`ServerEntry::address`) and `parse_address` of
--     src/common/include/dfg/net_utils.hpp.
--   * Registry: `ServerRegistry` of src/common/include/dfg/server_registry.hpp, a map from ids to
--     entries and the next id. An operation returns the new registry and what the change callback is
--     told.
--   * Health: `HealthMonitor` of src/common/include/dfg/health_monitor.hpp, and the periodic check
--     of `health_check_thread` in src/head_server/head_server.cpp as a run over the times at which
--     it wakes up. An operation returns the new monitor and the calls of its callbacks.
--   * Metadata: the on-disk store of src/head_server/redis_handler.hpp (the build without
--     WITH_REDIS). Metadata.Disk is the text that `persist_locked` writes and `load_from_disk`
--     reads, Metadata.Request the text that `store_metadata` of src/head_server/file_upload.cpp
--     hands to `create_entry`.
--   * Failover: `rereplicate_dead_server_chunks` of src/head_server/head_server.cpp, which reads the
--     registry's addresses, the health records and the metadata store and returns the new store;
--     Failover.Callback is `on_server_unhealthy_callback` around it.
--   * Consensus: `verify_cluster_server_dead_consensus` of the same file, which asks Zookeeper and the
--     control API of the other head servers before the callback gives a server up.
--   * ControlApi: src/head_server/control_api.hpp, from the bytes of a request to the answer and the
--     new registry and monitor.
--   * Download: `stream_file_to_client` and `handle_client_delete` of
--     src/head_server/head_server.cpp.
--   * Upload: `select_servers_for_chunk`, `submit_chunk_transfers` and `collect_transfers` of
--     src/head_server/file_upload.cpp.
--   * Zookeeper: `ZooKeeperClient` of src/common/src/zookeeper_client.cpp, the tree of nodes of a
--     process and the connection of one client.
--   * Sha256: src/common/include/dfg/sha256.hpp. The state keeps the bytes in the buffer, the bits
--     that went through whole blocks, and the eight words.
--   * ChunkStorage: `ChunkStorage` of src/cluster_server/chunk_service.cpp, the registry of a cluster
--     server and its files; ChunkStorage.Files has the loops over ::write and ::read, for which the
--     answers of the calls are a list.
--   * ChunkService: `handle_connection` of the same file, from the bytes of a connection to those of
--     the answer; ChunkService.Listeners is `emergency_listener` and `handle_public_connection`. A
--     handler uses ChunkStorage, and Sha256 for a hash.
--   * ThreadPool: src/common/include/dfg/thread_pool.hpp, its queue and its workers as transitions.
--   * HealthChecker: src/health_checker/health_checker.cpp, which uses Zookeeper and Metadata.
--   * ZkMonitor: the discovery and the health checks of head servers in src/zk_monitor/zk_monitor.cpp,
--     which read the tree of Zookeeper.
--   * ConfigLoader: src/common/include/dfg/config_loader.hpp; ConfigLoader.Parser is its JSON reader.
--   * Prelude: lists, maps, integers and texts. A text is a list of bytes. A `std::map` is a list of
--     entries in the order of its keys, an `unordered_map` the same, since its order is open.
--     `std::stoi`, `operator>>` and the like are modelled by what the C++ standard says of them.
--
-- An object that a mutex protects is a value, and a function that holds the mutex is one step on it.
-- Two loops take fuel. The loop of Sha256 over whole blocks gets the number of bytes, of which each
-- round takes 64. The parser of ConfigLoader takes one unit for each round of its loops, and is `none`
-- without; ConfigLoader.Printing.size is enough for a printed text. All other recursion is
-- structural. `int` and `long long` values are integers with
-- the range checked where text is read. The id counter of the registry wraps round at 2^31 - 1, as an
-- atomic int does, and a chunk id is narrowed in a download; other counters do not come near their
-- limits, and their wrap-around is not modelled. A `float` is left
-- open (Prelude.Floats). Calls over the network are parameters: what a server returns for a chunk or
-- a hash, whether a connection succeeds. Console output is left out.
--
-- Not modelled: sockets and event loops, the Redis backend, the loop of an upload, the
-- election of a leader by the ZooKeeper monitor, metrics, the command line tools. The tasks that a cluster server gives to its
-- thread pool run at once, and its process is replaced by `restart`.
-- What protoc generates is a parameter (ChunkService.Messages.Protobuf).
pub mod Prelude
pub mod Address
pub mod ChunkService
pub mod ChunkStorage
pub mod ConfigLoader
pub mod Consensus
pub mod ControlApi
pub mod Download
pub mod Failover
pub mod Health
pub mod HealthChecker
pub mod Metadata
pub mod Registry
pub mod Sha256
pub mod ThreadPool
pub mod Upload
pub mod ZkMonitor
pub mod Zookeeper
