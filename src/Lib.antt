-- ===== src/Lib.antt =====
-- knirvbase: a model of the Go implementation (go/) of the distributed database.
--
-- The program keeps documents in collections. Each write becomes an operation with a vector clock
-- that is sent to the other peers; the resolver decides what an operation does to a document and
-- which of two versions wins. Documents are files; secondary indexes are kept beside them, and
-- sensitive fields are encrypted with post-quantum keys. Queries in the language KNIRVQL are parsed,
-- planned over the indexes and executed. A network manager keeps the connections to the peers.
--
-- Parts and files
--   Clock          go/internal/clock/vector_clock.go: VectorClock (a Go map), Increment, Merge,
--                  Compare, HappensBefore, Clone. The loops of Merge and Compare are merge_into and
--                  scan; Clock/Scan, Clock/Order and Clock/Merge are about them.
--   Types          go/internal/types/types.go: documents, operations and sync states.
--   Resolver       go/internal/resolver/crdt_resolver.go: ResolveConflict, mergeDocuments,
--                  ApplyOperation, ToDistributed, ToRegular. ResolveConflict returns its arguments as
--                  the call leaves them, since the code writes through its pointers. Resolver/Resolve,
--                  Resolver/Apply and Resolver/Replicas are about it.
--   Value          the values that the code keeps in interface{}, with fmt's %v in Value/Print.
--   Index          go/internal/storage/index.go: the B-tree, GIN and HNSW structures and what one
--                  document does to them; Index/Buckets is about the two that are maps of buckets.
--   IndexManager   the same file: CreateIndex, DropIndex, GetIndex, Insert, Delete, QueryIndex over
--                  the map of all indexes; IndexManager/Files has the metadata files and LoadIndexes.
--                  IndexManager/Laws, IndexManager/Lookup and IndexManager/Created are about the map,
--                  IndexManager/Restart and IndexManager/Forgets about a storage that is opened again.
--   Query          go/internal/query/knirvql.go: Query and Filter. Query/Parse has KNIRVQLParser, with
--                  parseCreate and parseDrop in Query/Schema, values and numbers in Query/Values, and
--                  what it returns in Query/Parsed.
--                  Query/Execute has executeGet and what it calls, and Query/Statements has Execute
--                  for every kind of query. Query/Words, Query/RoundTrip and Query/Clauses are about
--                  the parser, Query/Results about GET, Query/Effects about SET, and
--                  Query/IndexEffects about CREATE INDEX and DROP INDEX.
--   Optimizer      go/internal/query/optimizer.go: NewQueryOptimizer, Optimize and the estimates;
--                  Optimizer/Choice and Optimizer/Plan are about it.
--   Store          go/internal/storage/storage.go: the interface Storage, as its clients take it.
--   Collection     go/internal/collection/distributed_collection.go: Insert, Update, Delete and
--                  broadcastOperation with the operation log. Collection/Local has LocalCollection,
--                  Collection/Sync has handleRemoteOperation, the networks and the exchange of missing
--                  operations, Collection/Handlers has setupMessageHandlers, and Collection/Steps the
--                  step relation of a collection. Collection/Announce, Collection/Withheld,
--                  Collection/Numbering, Collection/Remote, Collection/Ignored, Collection/Arrival and
--                  Collection/Attached, with its History, Serves and Received, are about it, and
--                  Collection/Replication about two peers.
--   Storage        go/internal/storage/storage.go: FileStorage, its fields' encryption and the files;
--                  Storage/Files has Insert, Storage/Reading Find and FindAll, Storage/Changes Update
--                  and Delete, and Storage/IndexMethods the index methods. Storage/Instance fills
--                  Store by it. Storage/Locks is about the lock, Storage/Frame about what an Insert
--                  leaves alone, Storage/Reads, Storage/Deletes, Storage/Inserts and Storage/Accepted
--                  about what Find reads afterwards, Storage/Marks and Storage/Restored about the
--                  encryption of fields. Storage/Copies and Storage/Directories have lemmas on
--                  deepCopyDoc and on the files.
--   Crypto         go/internal/crypto/pqc: the libraries that it calls, as a parameter (Primitives).
--                  Crypto/Kyber is kyber.go, Crypto/Dilithium dilithium.go, Crypto/Keys keys.go and
--                  Crypto/Encryption encryption.go. Crypto/Hybrid, Crypto/Pairs and Crypto/Envelope
--                  are about them.
--   Network        go/internal/network/network_manager.go: NetworkManager and its networks;
--                  Network/Peers has the connections and their handshakes, Network/Sharing the
--                  collections of a network, Network/Messages what is sent and received. Network/Steps
--                  is the step relation of a manager and its invariant, Network/Sends and Network/Ends
--                  are about messages and connections.
--   Database       go/internal/database/distributed_database.go, over Network and Collection: all its
--                  methods. Database/Calls has what a client does through a collection of a database,
--                  with the storage that all collections share and the messages that go to the
--                  network, and Database/Steps the step relation of a database. Database/History,
--                  Database/Kept and Database/Reached are about its invariant; Database/Laws,
--                  Database/Inserts and Database/Refusals about its calls.
--   Public         go/pkg/knirvbase/knirvbase.go: the package that programs use; Public/Open has New.
--                  Public/Documents is about what a program finds of its documents.
--   Json, Call, Result: encoding/json and base64 as a parameter, calls that take locks, calls that
--                  return an error.
--   GoMap, GoStrings, Outcome, Floats, Base: Go's maps, the functions of package strings that the
--                  code calls, calls that may panic, float64, and shared helpers.
--   Tests          the theorems at concrete inputs, and runs of the functions.
--
-- How Go is modelled
--   A map is nil or made, with its entries as a list of pairs whose keys are distinct. Go ranges over
--   a map in no fixed order; a list has one, and where the order could be seen the file says so. An
--   int64 is an integer, with the wrap-around of the increment written out (add64). A nil pointer is
--   none; a call that may panic has an Outcome. Strings are lists of code points, and case is mapped
--   on ASCII letters only. float64 is a parameter (Floats): the definitions take its operations and
--   assume nothing of them, and the theorems that need laws name them as hypotheses. sort.Slice is an
--   insertion sort that keeps the order of equal elements. A number is printed with at most 20
--   decimal digits, which is enough for 64 bits. Every loop is a structural recursion.
--   The locks of the index manager and of the key cache are left out: each operation holds its lock
--   throughout. The lock of FileStorage is part of the model, since its calls take it twice: a call
--   says whether it is done, has panicked, or waits for ever for a lock that its caller holds. Files
--   are maps from names to bytes, a name is a single path component, and the errors of the operating
--   system are a parameter (Disk). JSON, base64, the cryptographic schemes and their random bytes are
--   parameters, and the theorems name the documented behaviour that they need. The statistics and
--   configurations of a network are behind pointers, and a goroutine that sends holds such a pointer;
--   the 64 bits of their counters wrap around. Nothing runs on fuel.
--   A collection calls its storage through Store, and so may wait or panic with it. All collections of
--   a database share one storage: the database holds it, and a collection gets it when it runs. What a
--   goroutine that a message handler starts does is done when the message is handled; the timer of a
--   synchronization is a step of its own (clear_flag). How encoding/json writes and reads an operation
--   or an Index is a parameter.
--
-- Not modelled
--   The command go/cmd/main.go, a demonstration that calls the public package with fixed arguments and
--   prints what it returns. Of the network manager, the field dht, which nothing uses, the log, and
--   the end of a connection, which changes none of its state. Names of collections, documents and
--   indexes that are more than one path component. What two goroutines of one collection do when they
--   interleave within an operation, of which the collection's locks exclude a part only. The Go tests
--   and benchmarks, and the implementations in other languages.
pub mod Base
pub mod GoMap
pub mod Outcome
pub mod Result
pub mod Clock
pub mod Types
pub mod Resolver
pub mod GoStrings
pub mod Floats
pub mod Value
pub mod Index
pub mod IndexManager
pub mod Query
pub mod Optimizer
pub mod Store
pub mod Collection
pub mod Call
pub mod Crypto
pub mod Json
pub mod Storage
pub mod Network
pub mod Database
pub mod Public
pub mod Tests
