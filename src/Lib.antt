-- ===== src/Lib.antt =====
-- SkiffDB: a key-value server that speaks RESP and replicates its writes through HashiCorp Raft.
--
-- Parts and files (paths of the program from the repository's root):
-- * Resp models src/resp. Resp/Build has the builders of util.go, Resp/Context the parser's context,
--   Resp/Parser the parser of parser.go as functions on a `Reader`: the bytes that a client has sent
--   and the context. ParseRESPCommand is `parse_resp_command`; the conditions, early returns and state
--   changes of its loop are `read_array`, `read_bulk_string` and `read_command`. Its outcomes are a
--   result, an error, a panic, or no fuel.
-- * Core/MemDb is src/core/memdb.go, Core/Cmd and Core/Executor src/core/cmd_executor.go (BuildCmd,
--   IsWriteOp, executeOnDB): a command is a function from a database to a reply and a database.
--   Core/Executor/Abstract has the database without the order in which a map keeps its pairs.
-- * Core/Fsm is the state machine of src/core/raft.go: Apply, Snapshot, Persist, Restore and
--   applyCmdViaRaftNode. Core/Cluster is a cluster of processes that share one log, as a step relation:
--   commits, applied entries, snapshots, restarts. Core/Observer is observeClusterLeaderChange: its
--   channels and goroutines as the steps of a schedule.
-- * Core/Membership is joining in src/core/raft.go: recordJoinProgress, clusterMemberProgress,
--   buildClusterInfo, validateJoiningMember, JoinClusterWithProgress. Raft is the parameter `RaftApi`.
-- * Core/Config, Core/Identity and Core/Startup are src/core/config.go, src/core/raft_identity.go
--   (also the writing of the identity) and StartRaft with its checks in src/core/raft.go. Core/Storage
--   is src/core/raft_storage.go, Core/Node initRaftNodeWithDB, createNewCluster, Close and ShutdownRaft
--   of src/core/raft.go. They return, beside a result, the trace of the calls that open, change or close
--   something (Core/Calls); Core/Lifecycle puts starts and shutdowns in sequence.
--   Core/JoinClient is joinCluster: the reading of an answer, and its attempts. Proto is proto/cluster/cluster.proto.
-- * Server/Connection is src/server/resp_server.go: handleConnection reads a command with the parser,
--   builds it with BuildCmd and executes it locally or through Raft. Server/Admin is JoinCluster of
--   src/server/raft_server.go, which calls Core/Membership. Server/Main is src/main.go with InitRaft and
--   InitRESPTCPServer, from the flags to each exit.
-- * Harness/Client is benchmarks/harness/client.go: the benchmark's writer and reader of RESP;
--   Harness/Compare is sameMetricKeys of benchmarks/harness/compare.go.
-- * Go has what the program uses of Go's standard library: strconv, strings, filepath.Base, maps and
--   the UTF-8 that encoding/json coerces strings to. Prelude has the shared types, tests and lemmas.
-- * Examples has runs at concrete inputs.
--
-- State and numbers. A Go `int` is 64 bits wide and wraps (Prelude/Int); a string is a list of its
-- bytes; a map is an association list that is seen through `lookup`. The keyspace's mutex is held
-- through each method, and the membership mutex through each join, so they are single steps.
-- `make` panics above 2^48 bytes or 2^44 strings (linux/amd64).
--
-- Fuel. `array_loop` gets one unit more than the bytes that are left, since each of its rounds reads a
-- byte or more or is the last; `handle_connection` takes its fuel as an argument, and more than the
-- length of the input is enough, since every round but the last reads a byte or more.
--
-- Parameters. HashiCorp Raft (`RaftApi`, `IsRaftApply`: without an error an entry has been applied and
-- its response is returned), the JSON of commands and of snapshots (`CmdJson`, `SnapshotJson`: a value
-- that is read back is the one written, with its strings coerced to UTF-8), the part of
-- strings.ToUpper behind ASCII, `retry.Do` (`RetryDo`: it returns nil only if an attempt has
-- succeeded), and the answers of files, stores and sockets.
--
-- Not modelled: goroutines and channels other than as the order of steps, logging, timeouts and
-- contexts, and the rest of the benchmark harness and the benchmark programs.
pub mod Prelude
pub mod Go
pub mod Proto
pub mod Resp
pub mod Core
pub mod Server
pub mod Harness
pub mod Examples
