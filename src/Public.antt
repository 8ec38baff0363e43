-- ===== src/Public.antt =====
-- go/pkg/knirvbase/knirvbase.go: the package that programs use. A DB holds the internal database, or
-- none where it is nil; a collection that it returns is the name of one of the database. Over any
-- storage, but for New, which opens a FileStorage (Public/Open).
pub mod Open
pub mod Documents
use knirvbase.Base.{ℕ, String, Bool, true, false, Option, none, some, List, if◌then◌else◌, ◌==◌}
use knirvbase.Base.Int.{ℤ}
use knirvbase.GoMap.{GoMap, nil, made, get, lookup}
use knirvbase.Result.{Result, ok, err}
use knirvbase.Call.{Call, done, panicked, ◌>>=◌}
use knirvbase.Floats.{Floats}
use knirvbase.Value.{Value, Document, as_string}
use knirvbase.Store.{Store}
use knirvbase.Collection.{
  Replica, Message, Reply, insert_local, update_local, delete_local, find_document, find_documents,
}
use knirvbase.Collection.Sync.{request_sync}
use knirvbase.Network.{NetworkConfig, ProtocolMessage}
use knirvbase.Database.{
  create_db_network, join_db_network, leave_db_network, collection, remove_from_network,
  shutdown_database,
}
use knirvbase.Database.Calls.{Database, run_collection, add_to_network}

-- what a method of the adapter returns: the error of a check of its own, or what the collection replies
pub data Answer (A : Type 0) : Type 0 where
  invalid : String → Answer A
  replied : Reply A → Answer A

module _ (fl : Floats) (st : Store fl) (Byte : Type 0) where
  open fl use {Float}

  -- DB; the storage is that of the database
  pub record Db : Type 0 where
    pub db : Option (Database fl st Byte)

  abbrev with_db : Database fl st Byte → Db
  with_db db = record { db = some db }

  unfoldable pub create_network : Option String → Db → NetworkConfig → Db × Result String
  unfolding create_db_network
  create_network failed d cfg = elim d.db [
    | none ↦ (d, err "database not initialized")
    | some db ↦ let (db', r) = create_db_network fl st Byte failed db cfg in (with_db db', r)
  ]

  -- JoinNetwork; a nil database is followed
  unfoldable pub join_network :
      Option String → Db → String → List String → Call (Db × Result (List String))
  unfolding join_db_network
  join_network failed d network_id bootstrap_peers = elim d.db [
    | none ↦ panicked
    | some db ↦
        let (db', r) = join_db_network fl st Byte failed db network_id bootstrap_peers in
        done (with_db db', r)
  ]

  unfoldable pub leave_network : Db → String → Call Db
  unfolding leave_db_network
  leave_network d network_id = elim d.db [
    | none ↦ panicked
    | some db ↦ done (with_db (leave_db_network fl st Byte db network_id))
  ]

  -- RawCollection
  unfoldable pub raw_collection : ℕ → ℕ → ℕ → Db → String → Call (Db × Replica fl st)
  unfolding collection
  raw_collection h1 h2 h3 d name = elim d.db [
    | none ↦ panicked
    | some db ↦ let (db', c) = collection fl st Byte h1 h2 h3 db name in done (with_db db', c)
  ]

  -- Collection
  unfoldable pub open_collection : ℕ → ℕ → ℕ → Db → String → Call (Db × Replica fl st)
  unfolding raw_collection
  open_collection h1 h2 h3 d name = if name == "" then panicked else raw_collection h1 h2 h3 d name

  unfoldable pub shutdown : Db → Call Db
  unfolding shutdown_database
  shutdown d = elim d.db [
    | none ↦ panicked
    | some db ↦ done (with_db (shutdown_database fl st Byte db))
  ]

  module _ {V : Type 0} (marshal : ProtocolMessage V → Result (List Byte))
      (payload : String → Message fl st → V) (now : ℤ) (failed : Option String) where
    abbrev replies :
        {A : Type 0}
        → Database fl st Byte × Option (Reply A)
        → Call (Database fl st Byte × Answer A)
    replies (db, none) = panicked
    replies (db, some r) = done (db, replied r)

    -- doc["id"] as a text that is not empty
    unfoldable pub has_id : GoMap (Value Float) → Bool
    has_id doc = elim (get doc "id") [
      | none ↦ false
      | some v ↦ elim (as_string v) [ none ↦ false | some id ↦ if id == "" then false else true ]
    ]

    -- Insert; whether the context is nil is an argument
    unfoldable pub insert :
        Bool
        → String
        → Database fl st Byte
        → String
        → GoMap (Value Float)
        → Call (Database fl st Byte × Answer (GoMap (Value Float)))
    unfolding run_collection insert_local has_id
    insert context_nil op_id db name nil =
        done
          (db, invalid (if context_nil then "context cannot be nil" else "document cannot be nil"))
    insert context_nil op_id db name (made es) =
        if context_nil
        then done (db, invalid "context cannot be nil")
        else if has_id (made es)
        then (do
          r ←
              run_collection fl st Byte marshal payload now failed
                (λ c. insert_local fl st c op_id now (made es)) db name
          replies r)
        else done (db, invalid "document must contain a non-empty 'id' field")

    unfoldable pub update :
        String
        → Database fl st Byte
        → String
        → String
        → GoMap (Value Float)
        → Call (Database fl st Byte × Answer ℕ)
    unfolding run_collection update_local
    update op_id db name id changes = do
      r ←
          run_collection fl st Byte marshal payload now failed
            (λ c. update_local fl st c op_id now id changes) db name
      replies r

    unfoldable pub delete :
        String → Database fl st Byte → String → String → Call (Database fl st Byte × Answer ℕ)
    unfolding run_collection delete_local
    delete op_id db name id = do
      r ←
          run_collection fl st Byte marshal payload now failed
            (λ c. delete_local fl st c op_id now id) db name
      replies r

    unfoldable pub force_sync :
        Database fl st Byte → String → Call (Database fl st Byte × Answer (Unit {0}))
    unfolding run_collection request_sync
    force_sync db name = do
      r ← run_collection fl st Byte marshal payload now failed (λ c. request_sync fl st c) db name
      replies r

    unfoldable pub attach_to_network :
        (String → V)
        → Database fl st Byte
        → String
        → String
        → Call (Database fl st Byte × Answer (Unit {0}))
    unfolding add_to_network
    attach_to_network announcement db name network_id = do
      r ← add_to_network fl st Byte marshal payload announcement now failed db network_id name
      replies r

  -- DetachFromNetwork
  unfoldable pub detach_from_network : Database fl st Byte → String → Database fl st Byte
  unfolding remove_from_network
  detach_from_network db name = remove_from_network fl st Byte db name

  unfoldable pub find : Database fl st Byte → String → String → Call (Result (GoMap (Value Float)))
  unfolding find_document
  find db name id = elim (lookup name db.collections) [
    | none ↦ panicked
    | some c ↦ find_document fl st (record c { store = db.storage }) id
  ]

  unfoldable pub find_all : Database fl st Byte → String → Call (Result (List (Document Float)))
  unfolding find_documents
  find_all db name = elim (lookup name db.collections) [
    | none ↦ panicked
    | some c ↦ find_documents fl st (record c { store = db.storage })
  ]
