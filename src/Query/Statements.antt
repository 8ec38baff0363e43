-- ===== src/Query/Statements.antt =====
-- go/internal/query/knirvql.go: Execute, for every kind of query, on a database and one of its
-- collections. The collection is named as the database keeps it; a name that it does not keep stands for
-- a nil pointer. The text of an operation's identifier, times and the errors of writes are arguments.
use knirvbase.Base.{String, Option, none, some, List, [], ◌∷◌, if◌then◌else◌, ◌==◌}
use knirvbase.Base.Int.{ℤ}
use knirvbase.GoMap.{GoMap, nil, made, lookup}
use knirvbase.Result.{Result, ok, err}
use knirvbase.Call.{Call, done, panicked, ◌>>=◌}
use knirvbase.Floats.{Floats}
use knirvbase.Types.{entry_type_auth}
use knirvbase.Value.{Value, Document, str, entry_type, obj, field, no_fields}
use knirvbase.Index.{Index, IndexType, btree, hnsw}
use knirvbase.IndexManager.{IndexError}
use knirvbase.Store.{Store}
use knirvbase.Collection.{
  Replica, Message, CollectionError, Reply, gives, fails, insert_local, delete_local, find_document,
  find_documents,
}
use knirvbase.Network.{ProtocolMessage}
use knirvbase.Database.{create_db_index, drop_db_index}
use knirvbase.Database.Calls.{Database, run_collection}
use knirvbase.Query.{
  Query, QueryType, query_get, query_set, query_delete, query_create_index, query_create_collection,
  query_drop_index, query_drop_collection,
}
use knirvbase.Query.Execute.{Collection, QueryResult, execute_get}

-- what Execute returns: the result of a GET query, nil, or an error
pub data Executed (F : Type 0) : Type 0 where
  result : QueryResult F → Executed F
  nothing : Executed F
  collection_error : CollectionError → Executed F
  index_error : IndexError → Executed F

module _ (fl : Floats) (st : Store fl) (Byte : Type 0) where
  open fl use {Float}
  open st use {State}

  abbrev pub documents_or_none : Result (List (Document Float)) → Option (List (Document Float))
  documents_or_none (ok docs) = some docs
  documents_or_none (err e) = none

  abbrev pub document_or_none : Result (GoMap (Value Float)) → Option (Document Float)
  document_or_none (ok (made es)) = some es
  document_or_none (ok nil) = none
  document_or_none (err e) = none

  -- the collection, as a GET query reads it
  unfoldable pub readable : State → Option (Replica fl st) → Collection Float
  unfolding find_document find_documents
  readable s none = record { find_all = panicked; find = λ id. panicked }
  readable s (some r) =
      let c = record r { store = s } in
      record {
        find_all = find_documents fl st c >>= λ docs. done (documents_or_none docs);
        find = λ id. (find_document fl st c id >>= λ doc. done (document_or_none doc));
      }

  -- the document that SET inserts
  unfoldable pub set_document : Query Float → Document Float
  set_document q =
      ("id", str q.key)
      ∷ ("entryType", entry_type entry_type_auth)
      ∷ ("payload", obj (field "key" (str q.key) (field "value" (str q.value) no_fields)))
      ∷ []

  abbrev pub collection_done :
      {A : Type 0}
      → Database fl st Byte × Option (Reply A)
      → Call (Database fl st Byte × Executed Float)
  collection_done (db, none) = panicked
  collection_done (db, some (gives a)) = done (db, nothing)
  collection_done (db, some (fails e)) = done (db, collection_error e)

  abbrev pub index_done :
      Database fl st Byte × Option IndexError → Call (Database fl st Byte × Executed Float)
  index_done (db, none) = done (db, nothing)
  index_done (db, some e) = done (db, index_error e)

  -- the type of a new index
  unfoldable pub index_type_of : Query Float → IndexType
  index_type_of q = if q.index_name == "vector" then hnsw else btree

  module _ {V : Type 0} (marshal : ProtocolMessage V → Result (List Byte))
      (payload : String → Message fl st → V) (saved : Index Float → Option String) (op_id : String)
      (now : ℤ) (failed : Option String) where
    unfoldable pub execute_set :
        Database fl st Byte → String → Query Float → Call (Database fl st Byte × Executed Float)
    unfolding run_collection insert_local set_document
    execute_set db name q = do
      r ←
          run_collection fl st Byte marshal payload now failed
            (λ c. insert_local fl st c op_id now (made (set_document q))) db name
      collection_done r

    unfoldable pub execute_delete :
        Database fl st Byte → String → Query Float → Call (Database fl st Byte × Executed Float)
    unfolding run_collection delete_local
    execute_delete db name q = do
      r ←
          run_collection fl st Byte marshal payload now failed
            (λ c. delete_local fl st c op_id now q.id) db name
      collection_done r

    unfoldable pub execute_create_index :
        Database fl st Byte → Query Float → Call (Database fl st Byte × Executed Float)
    unfolding create_db_index index_type_of
    execute_create_index db q = index_done (
        create_db_index fl st Byte saved db q.collection q.index_name (index_type_of q)
          q.field_names q.unique "" [])

    unfoldable pub execute_drop_index :
        Database fl st Byte → Query Float → Call (Database fl st Byte × Executed Float)
    unfolding drop_db_index
    execute_drop_index db q = index_done (drop_db_index fl st Byte db q.collection q.index_name)

    -- executeGet on the database's storage
    unfoldable pub execute_read :
        Database fl st Byte → String → Query Float → Call (Database fl st Byte × Executed Float)
    unfolding execute_get readable
    execute_read db name q = do
      r ←
          execute_get fl q (st.indexes db.storage)
            (readable db.storage (lookup name db.collections))
      done (db, result r)

    abbrev pub execute_type :
        QueryType
        → Database fl st Byte
        → String
        → Query Float
        → Call (Database fl st Byte × Executed Float)
    execute_type query_get db name q = execute_read db name q
    execute_type query_set db name q = execute_set db name q
    execute_type query_delete db name q = execute_delete db name q
    execute_type query_create_index db name q = execute_create_index db q
    execute_type query_create_collection db name q = done (db, nothing)
    execute_type query_drop_index db name q = execute_drop_index db q
    execute_type query_drop_collection db name q = done (db, nothing)

    unfoldable pub execute :
        Database fl st Byte → String → Query Float → Call (Database fl st Byte × Executed Float)
    unfolding execute_read execute_set execute_delete execute_create_index execute_drop_index
    execute db name q = execute_type q.query_type db name q
