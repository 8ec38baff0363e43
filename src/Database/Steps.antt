-- ===== src/Database/Steps.antt =====
-- What a database can become (database/distributed_database.go): the methods that its clients call, the
-- messages that its collections handle, and what its network manager does by itself.
use knirvbase.Base.{ℕ, String, ◌≡◌, Bool, Option, some, List}
use knirvbase.Base.Int.{ℤ}
use knirvbase.GoMap.{GoMap, lookup, insert}
use knirvbase.Result.{Result, ok}
use knirvbase.Call.{done}
use knirvbase.Floats.{Floats}
use knirvbase.Value.{Value, Document}
use knirvbase.Index.{Index, IndexType}
use knirvbase.Store.{Store}
use knirvbase.Collection.{
  Operation, Message, Replica, Reply, insert_local, update_local, delete_local,
}
use knirvbase.Collection.Sync.{request_sync, clear_flag}
use knirvbase.Collection.Handlers.{on_operation, on_sync_response}
use knirvbase.Network.{NetworkConfig, NetworkManager, ProtocolMessage}
use knirvbase.Network.Steps.{Step as NetworkStep}
use knirvbase.Database.{
  DatabaseOptions, new_distributed_database, collection, create_db_network, join_db_network,
  leave_db_network, remove_from_network, shutdown_database, create_db_index, drop_db_index,
}
use knirvbase.Database.Calls.{Database, run_collection, add_to_network}

module _ (fl : Floats) (st : Store fl) (Byte : Type 0) {V : Type 0}
    (marshal : ProtocolMessage V → Result (List Byte)) (payload : String → Message fl st → V)
    (read_operation : Value fl.Float → Operation fl st) where
  open fl use {Float}

  -- the database with a collection that has handled a message
  abbrev pub with_collection : Database fl st Byte → String → Replica fl st → Database fl st Byte
  with_collection db name c = record db {
    collections = insert name c db.collections;
    storage = c.store;
  }

  -- a method of the database or of one of its collections, or something that comes from the network
  pub data Step (db : Database fl st Byte) : Database fl st Byte → Type 0 where
    collection_step :
        (h1 h2 h3 : ℕ) (name : String) → Step db ((collection fl st Byte h1 h2 h3 db name).0)
    create_step :
        (failed : Option String) (cfg : NetworkConfig)
        → Step db ((create_db_network fl st Byte failed db cfg).0)
    join_step :
        (failed : Option String) (id : String) (peers : List String)
        → Step db ((join_db_network fl st Byte failed db id peers).0)
    leave_step : (id : String) → Step db (leave_db_network fl st Byte db id)
    insert_step :
        (now : ℤ) (failed : Option String) (op_id name : String) (doc : GoMap (Value Float))
        {o : Database fl st Byte × Option (Reply (GoMap (Value Float)))}
        → run_collection fl st Byte marshal payload now failed
            (λ c. insert_local fl st c op_id now doc)
            db
            name
          ≡ done o
        → Step db (o.0)
    update_step :
        (now : ℤ) (failed : Option String) (op_id name id : String) (update : GoMap (Value Float))
        {o : Database fl st Byte × Option (Reply ℕ)}
        → run_collection fl st Byte marshal payload now failed
            (λ c. update_local fl st c op_id now id update)
            db
            name
          ≡ done o
        → Step db (o.0)
    delete_step :
        (now : ℤ) (failed : Option String) (op_id name id : String)
        {o : Database fl st Byte × Option (Reply ℕ)}
        → run_collection fl st Byte marshal payload now failed
            (λ c. delete_local fl st c op_id now id)
            db
            name
          ≡ done o
        → Step db (o.0)
    force_step :
        (now : ℤ) (failed : Option String) (name : String)
        {o : Database fl st Byte × Option (Reply (Unit {0}))}
        → run_collection fl st Byte marshal payload now failed (λ c. request_sync fl st c) db name
          ≡ done o
        → Step db (o.0)
    attach_step :
        (announcement : String → V) (now : ℤ) (failed : Option String) (id name : String)
        {o : Database fl st Byte × Option (Reply (Unit {0}))}
        → add_to_network fl st Byte marshal payload announcement now failed db id name ≡ done o
        → Step db (o.0)
    detach_step : (name : String) → Step db (remove_from_network fl st Byte db name)
    operation_step :
        (now : ℤ) (name : String) (c : Replica fl st) (v : Value Float) {c' : Replica fl st}
        → lookup name db.collections ≡ some c
        → on_operation fl st read_operation (record c { store = db.storage }) now v ≡ done c'
        → Step db (with_collection db name c')
    response_step :
        (now : ℤ) (name : String) (c : Replica fl st) (v : Value Float) {c' : Replica fl st}
        → lookup name db.collections ≡ some c
        → on_sync_response fl st read_operation (record c { store = db.storage }) now v ≡ done c'
        → Step db (with_collection db name c')
    timeout_step :
        (name id : String) (c : Replica fl st)
        → lookup name db.collections ≡ some c
        → Step db (with_collection db name (clear_flag fl st (record c { store = db.storage }) id))
    create_index_step :
        (saved : Index Float → Option String) (c name : String) (t : IndexType)
        (indexed_fields : List String) (unique : Bool) (partial_expr : String)
        (options : Document Float)
        → Step db (
            (create_db_index fl st Byte saved db c name t indexed_fields unique partial_expr
              options).0)
    drop_index_step : (c name : String) → Step db ((drop_db_index fl st Byte db c name).0)
    network_step :
        {n : NetworkManager Byte}
        → NetworkStep marshal db.network n
        → Step db (record db { network = n })
    shutdown_step : Step db (shutdown_database fl st Byte db)

  -- what a database can become, from one that NewDistributedDatabase returns
  pub data Reachable (own_id : String) : Database fl st Byte → Type 0 where
    start :
        (failed : Option String) (opts : DatabaseOptions) (s : st.State)
        {o : Database fl st Byte × List String}
        → new_distributed_database fl st Byte failed own_id opts s ≡ ok o
        → Reachable own_id (o.0)
    after :
        {db db' : Database fl st Byte} → Reachable own_id db → Step db db' → Reachable own_id db'
