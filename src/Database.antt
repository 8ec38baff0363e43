-- ===== src/Database.antt =====
-- go/internal/database/distributed_database.go: the facade over the network manager, the storage and
-- the collections. A collection that a client holds is known by its name, under which the database
-- keeps it for good. All collections share one storage, which is the database's own: a collection gets
-- it when it runs. Messages that a collection sends are handed to the network manager; how they are
-- written into a payload is an argument, and so are the errors of writes. The message handlers that a
-- new collection registers are named by the numbers of the call.
pub mod Calls
pub mod Inserts
pub mod Refusals
pub mod Steps
pub mod History
pub mod Kept
pub mod Reached
pub mod Laws
use Prim.Native.String.{◌++◌ as append}
use knirvbase.Base.{
  String, Bool, true, false, Option, none, some, List, [], ◌∷◌, if◌then◌else◌, ◌==◌, ℕ,
}
use knirvbase.Base.Int.{ℤ}
use knirvbase.GoMap.{lookup, insert}
use knirvbase.Outcome.{Outcome}
use knirvbase.Call.{Call, done, ◌>>=◌}
use knirvbase.Result.{Result, ok, err}
use knirvbase.Floats.{Floats}
use knirvbase.Value.{Value, Document}
use knirvbase.Index.{Index, IndexType}
use knirvbase.IndexManager.{
  IndexError, create_index, drop_index, get_index, get_indexes_for_collection, query_index,
}
use knirvbase.Store.{Store}
use knirvbase.Collection.{
  Replica, new_distributed_collection, Message, operation_message, sync_request, sync_response,
  Changed, Reply,
}
use knirvbase.Collection.Sync.{attach_to_network, detach_from_network}
use knirvbase.Network.{
  NetworkConfig, ProtocolMessage, NetworkManager, new_network_manager, initialize, create_network,
  join_network, leave_network, no_settings,
}
use knirvbase.Network.Sharing.{remove_collection_from_network}
use knirvbase.Network.Messages.{
  add_collection_to_network, on_message, shutdown, broadcast_message, send_to_peer,
}

-- DistributedDbOptions
pub record DatabaseOptions : Type 0 where
  pub enabled : Bool
  pub network_id : String
  pub bootstrap_peers : List String

-- the network that a database creates at its start
abbrev pub first_network : DatabaseOptions → NetworkConfig
first_network opts = record {
  network_id = opts.network_id;
  name = append "Network " opts.network_id;
  collections = [];
  settings = no_settings;
}

module _ (fl : Floats) (st : Store fl) (Byte : Type 0) where
  open fl use {Float}
  open st use {State, indexes, set_indexes}

  pub record DistributedDatabase : Type 0 where
    pub network : NetworkManager Byte
    pub distributed : Bool
    pub collections : List (String × Replica fl st)
    pub storage : State

  -- the network of the options: joined through the peers if there are any, else created
  unfoldable pub start_network :
      Option String
      → DatabaseOptions
      → NetworkManager Byte
      → NetworkManager Byte × Result (List String)
  unfolding join_network create_network no_settings
  start_network failed opts n =
      if opts.network_id == "" then (n, ok []) else elim opts.bootstrap_peers [
        | peer ∷ peers ↦ join_network failed n opts.network_id (peer ∷ peers)
        | [] ↦
            let (n', r) = create_network failed n (first_network opts) in
            (n', elim r [ err e ↦ err e | ok _ ↦ ok [] ])
      ]

  -- NewDistributedDatabase, with the addresses that are dialled
  unfoldable pub new_distributed_database :
      Option String → String → DatabaseOptions → State → Result (DistributedDatabase × List String)
  unfolding new_network_manager initialize start_network
  new_distributed_database failed own_id opts store =
      let n = new_network_manager own_id in
      if opts.enabled
      then (let (n1, e) = initialize failed n in
          elim e [
            | some text ↦ err text
            | none ↦
                let (n2, r) = start_network failed opts n1 in
                elim r [
                  | err text ↦ err text
                  | ok dials ↦ ok (
                    record { network = n2; distributed = true; collections = []; storage = store },
                    dials,
                  )
                ]
          ])
      else ok (record { network = n; distributed = false; collections = []; storage = store }, [])

  -- setupMessageHandlers
  unfoldable pub setup_message_handlers : ℕ → ℕ → ℕ → NetworkManager Byte → NetworkManager Byte
  unfolding on_message
  setup_message_handlers h1 h2 h3 n =
      on_message (on_message (on_message n "operation" h1) "sync_request" h2) "sync_response" h3

  -- Collection, which the public package gives the database's own storage
  unfoldable pub collection :
      ℕ → ℕ → ℕ → DistributedDatabase → String → DistributedDatabase × Replica fl st
  unfolding new_distributed_collection setup_message_handlers
  collection h1 h2 h3 db name = elim (lookup name db.collections) [
    | some c ↦ (db, c)
    | none ↦
        let c = new_distributed_collection fl st db.network.own_id name db.storage in
        (
          record db {
            network = setup_message_handlers h1 h2 h3 db.network;
            collections = insert name c db.collections;
          },
          c,
        )
  ]

  -- CreateNetwork, JoinNetwork and LeaveNetwork
  unfoldable pub create_db_network :
      Option String → DistributedDatabase → NetworkConfig → DistributedDatabase × Result String
  unfolding create_network
  create_db_network failed db cfg =
      let (n, r) = create_network failed db.network cfg in (record db { network = n }, r)

  unfoldable pub join_db_network :
      Option String
      → DistributedDatabase
      → String
      → List String
      → DistributedDatabase × Result (List String)
  unfolding join_network
  join_db_network failed db network_id bootstrap_peers =
      let (n, r) = join_network failed db.network network_id bootstrap_peers in
      (record db { network = n }, r)

  unfoldable pub leave_db_network : DistributedDatabase → String → DistributedDatabase
  unfolding leave_network
  leave_db_network db network_id = record db { network = leave_network db.network network_id }

  -- RemoveCollectionFromNetwork
  unfoldable pub remove_from_network : DistributedDatabase → String → DistributedDatabase
  unfolding detach_from_network remove_collection_from_network
  remove_from_network db name = elim (lookup name db.collections) [
    | none ↦ db
    | some c ↦ record db {
      network =
          if c.network_id == ""
          then db.network
          else remove_collection_from_network db.network c.network_id c.name;
      collections = insert name (detach_from_network fl st c) db.collections;
    }
  ]

  unfoldable pub shutdown_database : DistributedDatabase → DistributedDatabase
  unfolding shutdown
  shutdown_database db = record db { network = shutdown db.network }

  -- The index methods, which the storage passes on to its index manager. `saved` is the error of
  -- saving the metadata of a new index.
  unfoldable pub create_db_index :
      (Index Float → Option String)
      → DistributedDatabase
      → String
      → String
      → IndexType
      → List String
      → Bool
      → String
      → Document Float
      → DistributedDatabase × Option IndexError
  unfolding create_index
  create_db_index saved db c name index_type indexed_fields unique partial_expr options =
      let (im, e) =
        create_index fl saved (indexes db.storage) c name index_type indexed_fields unique
          partial_expr options in
      (record db { storage = set_indexes db.storage im }, e)

  unfoldable pub drop_db_index :
      DistributedDatabase → String → String → DistributedDatabase × Option IndexError
  unfolding drop_index
  drop_db_index db c name =
      let (im, e) = drop_index fl (indexes db.storage) c name in
      (record db { storage = set_indexes db.storage im }, e)

  unfoldable pub get_db_index : DistributedDatabase → String → String → Option (Index Float)
  unfolding get_index
  get_db_index db c name = get_index fl (indexes db.storage) c name

  -- GetIndexesForCollection and QueryIndex
  unfoldable pub get_db_indexes_for_collection : DistributedDatabase → String → List (Index Float)
  unfolding get_indexes_for_collection
  get_db_indexes_for_collection db c = get_indexes_for_collection fl (indexes db.storage) c

  unfoldable pub query_db_index :
      DistributedDatabase
      → String
      → String
      → Document Float
      → Outcome (List String × Option IndexError)
  unfolding query_index
  query_db_index db c name query = query_index fl (indexes db.storage) c name query
