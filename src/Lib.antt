-- ===== src/Lib.antt =====
-- Verification of mini2, a distributed query service over partitions of the NYC 311 records.
--
-- Each node of the overlay holds one partition of the rows in memory. A client submits a query at the
-- root node; the node forwards it along the edges of the topology, every node runs it over its own
-- partition and pushes the rows, in chunks, towards the root, which keeps them in a bounded buffer
-- until the client fetches them. This library is about the parts of the C++ node
-- and the client:
--
--   Domain    the rows, the boroughs and the queries: cpp/include/Record311.hpp, and the messages
--             Row311 and QuerySpec of proto/overlay.proto. Domain/Ymd is about parseYmd.
--   Store     the loader of a partition, cpp/src/PartitionStore.cpp: Store/Csv is splitCsv, Store/Load
--             is ColMap::detect and PartitionStore::load, Store/Table says what load leaves,
--             and Store/Scan is the loop `scan` over a range of rows.
--   Indices   cpp/src/Indices.cpp: Indices/Buckets is the fill of a hash bucket, Indices/Dates is
--             dateRange, Indices/Grid is cellKey and geoBox, Indices/Build is the class with build.
--   Engine    cpp/src/QueryEngine.cpp. `run` is QueryEngine::run: `gather` is its first step,
--             `work_list` the ordering and intersection of the candidate sets, `emit_one` the lambda
--             of that name, and `emit_loop` the loop. Engine/Plan is about the work list, Engine/Emit
--             about the loop, Engine/Gather and Engine/Answer put them together; Engine/Complete
--             compares the grid with the exact box, and Engine/Cancel a cancelled run
--             with one that is not.
--   Buffer    cpp/src/ChunkBuffer.cpp: one function per method. Buffer/Fifo is about any sequence of
--             calls, Buffer/Final about the end of a stream.
--   Cache     cpp/src/QueryCache.cpp: `get`, `put`, `hash_spec` and `spec_equal`. Cache/Lru is about
--             the lookup through the moves of the list, Cache/Linked about the list and the index,
--             Cache/Laws and Cache/Kept about the methods.
--   Registry  cpp/src/RequestRegistry.cpp: the requests in flight and the size of a client's chunks.
--   Config    cpp/src/Config.cpp: the parser of the topology file and its accessors.
--   Node      cpp/src/NodeServer.cpp, a node and the network of them, by handler: Node has the state
--             and what one node does for ForwardQuery and PushChunk; Node/Portal the requests,
--             FetchChunk, GetStats and Ping; Node/Network the calls ForwardQuery, PushChunk and Abort
--             from node to node; Node/Submit is SubmitQuery, Node/Execute executeLocal, Node/Ending
--             CancelQuery and a round of janitorLoop, Node/Startup the constructor, run and
--             cpp/src/server_main.cpp, Node/Peer the calls of cpp/src/PeerClient.cpp, Node/Threads the
--             threads of executeLocal by turns. The proofs:
--             Node/Views, Spread, Flood, Joined, Forward and Reached are about ForwardQuery, Launch
--             and Submitted about SubmitQuery, Served about its answer from the cache, Delivery
--             about PushChunk, Deposit and Collected about executeLocal up to the buffer, Storm
--             about Abort in an overlay with a cycle, Calmed, Aborted and Canceled about Abort and
--             CancelQuery in one without, Booted about the network that one topology makes.
--             Interleaved, Gathered and Finished are about threads that take turns; Aimed, Settled,
--             Started, Ways, Counted and Opened say that a launched query leaves what they need,
--             and Answered and Whole put the parts together.
--   Client    cpp/src/client_main.cpp: its arguments and its fetch loop. Client/Fetched and
--             Client/Cached put the loop, FetchChunk and the cache together, Client/Repeated adds a
--             second query, Client/Streamed and Client/Printed say what the client prints;
--             Client/Main is the whole program, Client/Ended
--             and Client/Shown are about its end.
--   Base      what they share: Boolean tests, lists, hash maps as association lists, integers.
--   Tests     the theorems at concrete inputs.
--
-- The engine uses the store and its indices; the registry owns the buffers; the store's `load` ends
-- with `build` of the indices, and Engine/Answer is stated for a store with these indices. A node has
-- a cache, a store, a registry and its routes; a network is an association list of nodes by id. The
-- portal launches a query (Node/Launch), every node's worker runs the engine and pushes the chunks up
-- (Node/Collected for one, Node/Whole for all of them at once), and the client fetches them
-- (Client/Cached).
--
-- How the code is written here:
--   * A method that holds its mutex is one step, a function from the state to the new state and the
--     result. A wait of `popUpTo` is a function argument, what other threads do meanwhile.
--   * `sink` is the list of the calls made of it, and `is_canceled` a function of the position at which
--     it is asked.
--   * An unsigned integer is a natural number, with its wrap-around written out where the code can
--     reach it: `produced`, the chunk sizes, the counters, the cell keys, the hash, parseYmd. Row ids
--     are not wrapped: a partition has fewer than 2 ^ 32 rows.
--   * A double is an element of any type with the operations that the code uses (`Floating`, and
--     `Timing` for the clock arithmetic). The one law on them, `IsOrdered`, is a
--     hypothesis where it is used: it holds of doubles that are not NaN.
--   * The number parsers of <cstdlib> and std::hash are parameters (`Parsing`, `atoi`, `Hashing`).
--   * The threads of executeLocal take turns between two calls of their sinks; a schedule is the
--     list of the positions of the threads in their list. Handlers run one after the other: a call
--     of another node, with the calls that it makes in turn, ends before anything else happens, and
--     before its deadline. A call fails if the node is not there. Calls are nested to a depth
--     bounded by fuel: `none` is that it runs out, which tells nothing of what the callers do when
--     their deadlines come, and as much fuel as there are nodes without a route for the request is
--     enough for ForwardQuery; more than the hops up to the root is enough for PushChunk. In a tree,
--     its depth is enough for Abort. In an overlay with a cycle, Node/Storm has the calls of Abort
--     as they wait, answered or given up at their deadlines. What other threads do to a buffer while
--     a fetch waits, or to the flag of a route while a query runs, is an argument; the flags of one
--     response are read at one moment, where the code takes a lock for each.
--   * `peer_clients` is the list of the ids that have a stub, in the order in which loops visit them;
--     the id of a node is its key in the network. Routes are never collected, as in the code.
--   * Memory is there: `geo_box` does not have the `reserve` of geoBox, which throws where the row ids
--     that `reserve_hint` counts do not fit. An iterator of the cache that dangles is passed over.
--   * Clocks, the random end of a request's id and the file system are arguments.
--   * An exception is a value: `header_missing`, `Failure`, or `none`.
--   * All loops are structural recursion on a list, but the scan of the grid cells, which recurses on
--     the number of rounds, the difference of the cell indices plus one; that is every round that the
--     loop over int32_t makes, since the counter does not overflow in the range of `InGrid`.
--
-- Not modelled: signals and what gRPC does between a call and its handler, so that no call of the
-- network of nodes meets its deadline; the messages and the measurement of time of client_main.cpp; the
-- Python node under python/, a second implementation; the diagnostics of Indices (estimateBytes and the
-- bucket counts), which no other code reads.
pub mod Base
pub mod Domain
pub mod Indices
pub mod Engine
pub mod Buffer
pub mod Registry
pub mod Store
pub mod Cache
pub mod Config
pub mod Node
pub mod Client
pub mod Tests
