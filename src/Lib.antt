-- ===== src/Lib.antt =====
-- A verification library for the distributed systems labs in this repository: the key/value
-- server, MapReduce, Raft, and the shard configurations, with the simulated network that the tests
-- run them on.
--
-- The parts and how they interact. A clerk of the key/value server (src/kvsrv1/client.go) sends its
-- requests through the simulated network (src/labrpc/labrpc.go), in which requests and replies are
-- lost, to the server (src/kvsrv1/server.go). The tests record the operations and check them against
-- the register model (src/models1/kv.go). The MapReduce coordinator (src/mr/coordinator.go) hands out
-- tasks to workers (src/mr/worker.go), and src/main/mrsequential.go does the same in one process,
-- without tasks. Raft peers (src/raft1/raft.go) elect a leader by
-- RequestVote and AppendEntries calls. Configurations (src/shardkv1/shardcfg/shardcfg.go)
-- assign shards to groups of servers.
--
-- Which file models what:
--   Prelude              names of the libraries, Boolean tests, lists, maps, integers
--   Kvsrv/Rpc, Server    src/kvsrv1/rpc/rpc.go and src/kvsrv1/server.go: MakeKVServer, AddRecord,
--                        UpdateRecord, Get, Put on a record with the map as an association list
--   Kvsrv/Registers      the specification: a versioned compare-and-set register for each key
--   Kvsrv/Clerk          src/kvsrv1/client.go: Get and Put as loops over the fates of their calls
--   Kvsrv/Lock           src/kvsrv1/lock/lock.go: Acquire, Release, CheckAndReput, ReadUntilSuccess; in
--                        Clients the same as steps of clients whose calls interleave
--   Kvtest               src/kvtest1: clients whose calls interleave. In Clients those of OneClientPut with
--                        CheckPutConcurrent, in Appends those of OneClientAppend with CheckAppends, both
--                        of kvtest.go; in AtLeastOnce PutAtLeastOnce and CheckGet; in Porcupine the log
--                        of porcupine.go
--   Models               src/models1/kv.go: Partition, Init and Step of KvModel
--   Mr/Coordinator       src/mr/coordinator.go: MakeCoordinator, GetTask, ReportTask, checkTimeout, Done
--   Mr/Worker            src/mr/worker.go: ihash, doMap, doReduce, Worker
--   Mr/Sequential        src/main/mrsequential.go: main; src/mrapps/wc.go: Map, Reduce
--   Raft/Peer            src/raft1/raft.go: Make, AppendEntries, RequestVote, the reply part of
--                        sendRequestVote, the steps of ticker, Start, Kill
--   ShardCfg/Config      src/shardkv1/shardcfg/shardcfg.go: analyze, Rebalance, Join, Leave, CheckConfig
--   Labgob               src/labgob/labgob.go: checkType; in Defaults checkDefault
--   Labrpc               src/labrpc/labrpc.go: the network's state, processReq, services and dispatch
--   Raft/Rfsrv           src/raft1/server.go and the checks of src/raft1/test.go: applier, applierSnap,
--                        ingestSnap, checkLogs, nCommitted; in Leaders checkOneLeader, checkTerms
--   Tester               src/tester1: persister.go, clnts.go, srv.go, group.go; in Annotation and Framework
--                        annotation.go
-- A file Tests in a tree holds runs at concrete inputs.
--
-- State is passed explicitly: an operation takes the record of its component and returns the new one,
-- beside its reply. Each handler holds its component's lock throughout, so it is one step, and a run is
-- a sequence of steps. The ticker of a Raft peer takes its lock only in preElection, so that in a run only
-- preElection is a step, which may come at any time; what the ticker does around it only reads the state.
-- `tick` puts these together for a round in which no handler comes between them.
-- `none` as a result is a panic or log.Fatal, which ends the process. Points in
-- time are numbers of nanoseconds that the clock gives, as an argument. Integers that the
-- program's own bounds keep small are natural numbers; Tversion is written out modulo 2^64, and
-- the shard groups' identifiers, among which -1 stands for no group, are integers.
--
-- Fuel: the outer loop of Rebalance runs on fuel; more than triangle (number of shards) of it is enough,
-- which is 66 for the 12 shards of the program. The loop of mrsequential.go runs on as much fuel as there
-- are records, and one, which is enough since each round takes a record; checkType runs on as much as there
-- are types, and one, which is enough since it marks each type once. The loops of a clerk, of the lock and
-- of PutAtLeastOnce run over a given list of turns or rounds and say if they have not come to their end,
-- and the loop of a worker runs a given number of rounds. The clients of the lock and of src/kvtest1 take turns by a given schedule, of
-- which the theorems ask that it is shorter than 2^64, so that no version wraps.
--
-- Parameters: the FNV hash, the sorts of the standard library (which permute their list, and leave it in
-- order where the records are grouped by key), the records that a worker reads from the files, the texts of
-- the files and their words, the split of a method's name, the names of servers, which strconv formats, the
-- formats of numbers in annotations and in the word count, the values that RandValue draws (which differ and
-- are not empty), the services that a group starts, what reflection tells of a type, and the encodings of a
-- snapshot by labgob and of a value by encoding/json, which a decoding reverts.
--
-- Not modelled: sockets, files and JSON; goroutines, channels and delays of the network; labgob's
-- encoding; the skeletons of src/kvraft1 and src/shardkv1, which have no bodies; the command lines in
-- src/main and the plugins in src/mrapps but wc.go; the set-up of the tests.
pub mod Prelude
pub mod Kvsrv
pub mod Kvtest
pub mod Models
pub mod Mr
pub mod Raft
pub mod ShardCfg
pub mod Labgob
pub mod Labrpc
pub mod Tester
