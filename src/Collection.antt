-- ===== src/Collection.antt =====
-- go/internal/collection/distributed_collection.go: a collection with its operation log and its
-- synchronization. The storage is behind the interface Store; times and the texts of operation
-- identifiers are arguments. What is sent is a list of messages.
pub mod Local
pub mod Sync
pub mod Announce
pub mod Withheld
pub mod Remote
pub mod Numbering
pub mod Handlers
pub mod Steps
pub mod Attached
pub mod Arrival
pub mod Replication
pub mod Ignored
use knirvbase.Base.{
  ℕ, ◌-◌, String, Bool, true, false, Option, none, some, List, [], ◌∷◌, ◌++◌, if◌then◌else◌, ◌==◌,
  ltb, length, drop,
}
use knirvbase.Base.Int.{ℤ, pos, ltb_ℤ}
use knirvbase.GoMap.{GoMap, nil, made, get, lookup, insert, remove}
use knirvbase.Result.{Result, ok, err}
use knirvbase.Call.{Call, done, panicked, ◌>>=◌, of_outcome}
use knirvbase.Store.{Store}
use knirvbase.Collection.Local.{insert_copy, update_copy, delete_copy, find_copy}
use knirvbase.Floats.{Floats}
use knirvbase.Value.{Value, Document, as_string, int, float, entry_type}
use knirvbase.Clock.{VectorClock, new_vector_clock, clone, increment, merge, at}
use knirvbase.Types.{
  DistributedDocument, CrdtOperation, op_insert, op_update, op_delete, OperationType, SyncState,
}
use knirvbase.Resolver.{apply_operation, to_distributed, to_regular}

pub data CollectionError : Type 0 where
  no_id already_attached not_attached : CollectionError
  storage_failed network_refused : String → CollectionError

-- what a method returns: a value, or an error
pub data Reply (A : Type 0) : Type 0 where
  gives : A → Reply A
  fails : CollectionError → Reply A

module _ (fl : Floats) (st : Store fl) where
  open fl use {Float, truncate}
  open st use {State}

  abbrev pub Operation : Type 0
  Operation = CrdtOperation (Value Float)

  pub data Message : Type 0 where
    operation_message : String → Operation → Message
    sync_request : String → VectorClock → Message
    sync_response : String → List Operation → VectorClock → Message

  -- DistributedCollection, with the peer's name that its network returns; `network_id` is "" when it
  -- is not attached.
  pub record Replica : Type 0 where
    pub peer_id : String
    pub name : String
    pub network_id : String
    pub sync_states : List (String × SyncState (Value Float))
    pub operation_log : List Operation
    pub max_log_size : ℕ
    pub store : State

  -- NewDistributedCollection, with the peer's name that its network returns
  unfoldable pub new_distributed_collection : String → String → State → Replica
  new_distributed_collection own_id name store = record {
    peer_id = own_id;
    name = name;
    network_id = "";
    sync_states = [];
    operation_log = [];
    max_log_size = 10000;
    store = store;
  }

  unfoldable pub prune_operation_log : ℕ → List Operation → List Operation
  prune_operation_log max_size log =
      if ltb max_size (length log) then drop (length log - max_size) log else log

  unfoldable pub get_current_vector : Replica → VectorClock
  get_current_vector r =
      if r.network_id == "" then new_vector_clock else elim (lookup r.network_id r.sync_states) [
        | none ↦ new_vector_clock
        | some s ↦ clone s.local_vector
      ]

  -- the sync state of the network that the collection is attached to; reading through a nil pointer
  -- panics
  unfoldable pub sync_state : Replica → Call (SyncState (Value Float))
  sync_state r = elim (lookup r.network_id r.sync_states) [ none ↦ panicked | some s ↦ done s ]

  abbrev pub set_sync_state : Replica → SyncState (Value Float) → Replica
  set_sync_state r s = record r { sync_states = insert r.network_id s r.sync_states }

  unfoldable pub broadcast_operation : Replica → Operation → Call (Replica × List Message)
  unfolding prune_operation_log sync_state
  broadcast_operation r op = if r.network_id == "" then done (r, []) else (do
    s ← sync_state r
    done (
      record (set_sync_state r (record s { local_vector = increment s.local_vector r.peer_id })) {
        operation_log = prune_operation_log r.max_log_size (r.operation_log ++ op ∷ []);
      },
      operation_message r.network_id op ∷ [],
    ))

  -- doc["entryType"].(types.EntryType), "" if it is none
  abbrev pub entry_type_of : GoMap (Value Float) → String
  entry_type_of doc = elim (get doc "entryType") [ some (entry_type s) ↦ s | _ ↦ "" ]

  -- the operation of a local change
  abbrev pub operation :
      Replica → OperationType → String → ℤ → String → DistributedDocument (Value Float) → Operation
  operation r t op_id now id doc = record {
    id = op_id;
    op_type = t;
    collection = r.name;
    document_id = id;
    doc = some doc;
    vector = get_current_vector r;
    timestamp = now;
    peer_id = r.peer_id;
  }

  -- what a local change returns, with the replica and the messages
  abbrev pub Changed : Type 0 → Type 0
  Changed A = Reply A × Replica × List Message

  abbrev pub sent : {A : Type 0} → A → Replica × List Message → Call (Changed A)
  sent a (r, ms) = done (gives a, r, ms)

  -- the part of Insert behind the local insertion
  unfoldable pub announce_insert :
      Replica → String → ℤ → GoMap (Value Float) → String → Call (Changed (GoMap (Value Float)))
  unfolding broadcast_operation get_current_vector
  announce_insert r op_id now doc id = if r.network_id == "" then done (gives doc, r, []) else (do
    d ← of_outcome (to_distributed as_string now doc r.peer_id)
    b ←
        broadcast_operation r
          (operation r op_insert op_id now id (record d { entry_type = entry_type_of doc }))
    sent doc b)

  abbrev pub after_insert :
      Replica
      → String
      → ℤ
      → String
      → State × Result (GoMap (Value Float))
      → Call (Changed (GoMap (Value Float)))
  after_insert r op_id now id (s, err e) =
      done (fails (storage_failed e), record r { store = s }, [])
  after_insert r op_id now id (s, ok inserted) =
      announce_insert (record r { store = s }) op_id now inserted id

  unfoldable pub insert_local :
      Replica → String → ℤ → GoMap (Value Float) → Call (Changed (GoMap (Value Float)))
  unfolding announce_insert insert_copy
  insert_local r op_id now doc = elim (get doc "id") [
    | none ↦ done (fails no_id, r, [])
    | some v ↦ elim (as_string v) [
      | none ↦ done (fails no_id, r, [])
      | some id ↦ do o ← insert_copy fl st r.store r.name doc; after_insert r op_id now id o
    ]
  ]

  -- a document that is read, with the error dropped
  abbrev pub or_nil : Result (GoMap (Value Float)) → GoMap (Value Float)
  or_nil (ok doc) = doc
  or_nil (err e) = nil

  -- the part of Update behind the local update
  unfoldable pub announce_update : Replica → String → ℤ → String → ℕ → Call (Changed ℕ)
  unfolding broadcast_operation get_current_vector find_copy
  announce_update r op_id now id affected =
      if r.network_id == ""
      then done (gives affected, r, [])
      else if ltb 0 affected
      then (do
        found ← find_copy fl st r.store r.name id
        d ← of_outcome (to_distributed as_string now (or_nil found) r.peer_id)
        b ← broadcast_operation r (operation r op_update op_id now id d)
        sent affected b)
      else done (gives affected, r, [])

  abbrev pub after_update : Replica → String → ℤ → String → State × Result ℕ → Call (Changed ℕ)
  after_update r op_id now id (s, err e) =
      done (fails (storage_failed e), record r { store = s }, [])
  after_update r op_id now id (s, ok affected) =
      announce_update (record r { store = s }) op_id now id affected

  unfoldable pub update_local :
      Replica → String → ℤ → String → GoMap (Value Float) → Call (Changed ℕ)
  unfolding announce_update update_copy
  update_local r op_id now id update = do
    o ← update_copy fl st r.store r.name id update
    after_update r op_id now id o

  -- the document that a deletion carries
  abbrev pub tombstone : String → DistributedDocument (Value Float)
  tombstone id = record {
    id = id;
    entry_type = "";
    payload = nil;
    vector = nil;
    timestamp = pos 0;
    peer_id = "";
    stage = "";
    deleted = true;
  }

  -- the part of Delete behind the local deletion
  unfoldable pub announce_delete : Replica → String → ℤ → String → ℕ → Call (Changed ℕ)
  unfolding broadcast_operation get_current_vector
  announce_delete r op_id now id affected =
      if r.network_id == ""
      then done (gives affected, r, [])
      else if ltb 0 affected
      then (do
        b ← broadcast_operation r (operation r op_delete op_id now id (tombstone id))
        sent affected b)
      else done (gives affected, r, [])

  abbrev pub after_delete : Replica → String → ℤ → String → State × Result ℕ → Call (Changed ℕ)
  after_delete r op_id now id (s, err e) =
      done (fails (storage_failed e), record r { store = s }, [])
  after_delete r op_id now id (s, ok affected) =
      announce_delete (record r { store = s }) op_id now id affected

  unfoldable pub delete_local : Replica → String → ℤ → String → Call (Changed ℕ)
  unfolding announce_delete delete_copy
  delete_local r op_id now id = do
    o ← delete_copy fl st r.store r.name id
    after_delete r op_id now id o

  -- Find and FindAll
  unfoldable pub find_document : Replica → String → Call (Result (GoMap (Value Float)))
  unfolding find_copy
  find_document r id = find_copy fl st r.store r.name id

  unfoldable pub find_documents : Replica → Call (Result (List (Document Float)))
  find_documents r = st.find_all r.store r.name

  unfoldable pub get_sync_state : Replica → Option (SyncState (Value Float))
  get_sync_state r = if r.network_id == "" then none else lookup r.network_id r.sync_states
