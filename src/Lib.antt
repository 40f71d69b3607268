-- ===== src/Lib.antt =====
-- koorde_dht_web_cache: a Koorde and Chord distributed hash table under a web cache, written in Go.
--
-- A node has an identifier on a ring of 2 ^ Bits, keeps links to its successors, its predecessor and
-- its de Bruijn window, stores resources, and serves web pages out of a local cache. A request for a
-- URL is routed to the node whose identifier follows the hash of the URL.
--
-- The parts, by file of this library and of the repository:
--
-- Prelude: native numbers with Boolean tests, lists, byte strings, maps with string keys as
-- association lists (Prelude/Maps), bits and powers of two (Prelude/Bits, Prelude/Pow), and the result
-- of a Go call that returns, fails or panics (Prelude/Failure).
--
-- Domain: internal/domain/identifier.go. Domain/Space is the type Space with NewSpace (new_space),
-- Zero, IsValidID and the mask of the unused bits; Domain/Value is ToBigInt; Domain/Valid,
-- Domain/Build say what a space and an identifier are; Domain/Arith is FromUint64, MulKMod, AddMod;
-- Domain/Ring is Cmp, Equal, Between; Domain/Digits is NextDigitBaseK; Domain/BigInt, Domain/Imaginary
-- and Domain/Target are BestImaginary, BestImaginarySimple and ComputeFaultTolerantTarget with what
-- they use of math/big. Bytes are numbers below 256, with the wrap-around of a byte and of a uint64
-- written out.
--
-- Cache: internal/node/cache/cache.go. A method that holds the lock is one step on the record
-- WebCache, and the readings of the clock are arguments. Cache/Invariant is what every method keeps,
-- Cache/Eviction and Cache/Laws are Put, Cache/RoundTrip is Put followed by Get, Cache/Expiry is
-- CleanExpired, and Cache/Steps is the relation of the states that calls reach.
--
-- Domain/Hex: ToHexString, with the types of internal/domain/node.go and resource.go.
--
-- Storage: internal/node/storage/memory.go, the resources of a node by the hexadecimal text of their
-- key.
--
-- Routing: internal/node/routingtable/routingtable.go, the successors, the predecessor and the de
-- Bruijn window of a node. Storage and Routing use the identifiers and nodes of Domain.
--
-- Domain/Proto: the conversions of nodes and resources to and from the messages between nodes and to
-- clients. Domain/Text: NewIdFromString, ToBinaryString and FromHexString, with SHA-1 as an argument.
--
-- Rpc: internal/node/client/handler.go, the calls of a remote node. Stub is the generated client, with
-- the answer of each of its methods, and RpcError what the code asks of an error.
--
-- Lookup: internal/node/logicnode/operation.go, the change at a de Bruijn hop of the pair of an
-- imaginary node and a shifted target that a lookup carries. Lookup/NextHop is findNextHop,
-- Lookup/FindSuccessor is FindSuccessorInit, FindSuccessorStep and LookUp, Lookup/Ends is why a lookup
-- ends, and Lookup/Sources where its node comes from.
--
-- Actions: what the operations of a node share. Run is the course of an operation, which finishes,
-- panics, is stuck on the mutex of the pool or is out of fuel; Network is what a dialled connection
-- gives. A node is the record LogicNode of Membership, with stubs as connections.
--
-- Service: internal/node/logicnode/operation.go, HandleFindSuccessor, Put, Get, Delete and the
-- transfer of resources that Notify starts. Service/Ends is why Put, Get and Delete end.
--
-- Worker: internal/node/logicnode/worker.go and node.go, stabilizeSuccessor, fixSuccessorList and
-- checkPredecessor; Worker/DeBruijn is fixDeBruijn and seedDeBruijnWindow, Worker/Repair is
-- resourceRepair, Leave and Stop, and Worker/Join is Join and CreateNewDHT.
--
-- Server: internal/node/server/dht_service.go, the handlers of the service between nodes, at a Koorde
-- node. Server/Laws joins them to the calls of Rpc. Server/Clients is client_service.go, the service
-- for clients, and Server/Clients/Answers why its calls end. Server/Listen is config.go, the address
-- that a node tells its peers.
--
-- Metrics: internal/node/logicnode/metrics.go and internal/node/dht/metrics.go, the counters of the
-- lookups, and GetMetrics of the cache; Http/Metrics is handleMetrics.
--
-- Query: internal/client/query.go, the calls of the clients. Query/Stores joins GetStore to the
-- service for clients.
--
-- Hotspot: internal/node/cache/hotspot.go, the detector of pages that are often asked for. The
-- floating point numbers are an argument.
--
-- Http: internal/node/server/http.go, the server of pages, which joins a node, a WebCache of Cache and
-- a detector of Hotspot. DhtNode is what it calls of a node (internal/node/dht/interface.go), and
-- Http/Nodes gives it for both kinds of node. Web is the world around a request: the answers of other
-- nodes and of origins, the clock, and what is used of the net, net/http, strconv and time packages.
-- Http/Handle is handleCacheRequest in its steps, Http/Proxy is pickRandomNode, proxyToNode and
-- fetchFromOrigin, and Http/Status is handleHealth and handleDebug. Http/Answers is why a request
-- ends; Http/Owned, Http/Forwarded with Http/Candidates for the nodes that it goes on to, and
-- Http/Loops follow the requests for pages that the node owns, that it does not own, and that it was
-- told to own.
--
-- Chord: internal/node/chord, the other kind of node: node.go, and below it Chord/Fingers
-- (routingtable.go) and Chord/Stabilization (stabilization.go). It uses Rpc, Pool and Storage too.
--
-- Config: internal/node/config/config.go, ValidateConfig and the defaults. Floating point numbers and
-- SplitHostPort are arguments. Config/Load is LoadConfig with internal/configloader/override.go; what
-- the YAML file holds is an argument.
--
-- Membership: internal/node/logicnode/operation.go, Notify, StoreLocal and HandleLeave, on a node with
-- the routing table, the storage and the pool of the modules Routing, Storage and Pool.
--
-- Estimate: internal/node/logicnode/operation.go, EstimateNetworkSize. Int64 of math/big is an
-- argument.
--
-- Pool: internal/node/client/clientpool.go, the connections of a node, counted by reference, with the
-- mutex in the state. gRPC is not modelled: what NewClient returns and whether Close of a connection
-- fails are arguments, and a connection is a value of any type.
--
-- Fuel: the loop of Put that makes room takes one more round than there are URLs, and each round drops
-- one (Cache/Eviction); the loops on the bytes and bits of a number take as many rounds as the number,
-- which has fewer bytes and bits; TrailingZeros takes the 64 rounds of a uint.
--
-- A lookup runs on fuel, one for each call of FindSuccessorStep that a node makes of itself. After
-- Bits such calls the shifted target is used up, and after Bits more the imaginary node does not
-- change, which the code reports; lookup_fuel of Actions is 2 * Bits + 1. The search for a free slot
-- in findNextHop goes once around the list. The loops of the maintenance run over lists, and
-- StartStabilizers over the list of its ticks.
--
-- Not modelled: the start of the servers, logging, tracing, the measuring of the time of a hop, the
-- command line programs, the load tester, the bootstrap, and the reading of YAML. The generated gRPC
-- stubs, the dialling of a connection, and Int64 of math/big are arguments. Each call, tick or request
-- runs to its end before the next: no two of them interleave inside a node. An ephemeral connection
-- that is closed at the end of a call leaves no trace. The counters of the cache are natural numbers
-- and do not wrap at 2 ^ 63. A pointer to an entry that Get returned is not followed after later
-- calls.
pub mod Prelude
pub mod Domain
pub mod Cache
pub mod Storage
pub mod Routing
pub mod Pool
pub mod Lookup
pub mod Membership
pub mod Rpc
pub mod Actions
pub mod Service
pub mod Worker
pub mod Estimate
pub mod Server
pub mod Chord
pub mod Config
pub mod Hotspot
pub mod Http
pub mod Metrics
pub mod Query
pub mod Tests
