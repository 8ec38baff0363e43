-- ===== src/Types.antt =====
-- go/internal/types/types.go: documents with CRDT metadata, operations and sync states.
-- A payload's values are never looked into by the resolver, so their type is a parameter here.
use knirvbase.Base.{String, Bool, Option, List}
use knirvbase.Base.Int.{ℤ}
use knirvbase.GoMap.{GoMap}
use knirvbase.Clock.{VectorClock}

abbrev pub EntryType : Type 0
EntryType = String

abbrev pub entry_type_memory : EntryType
entry_type_memory = "MEMORY"

abbrev pub entry_type_auth : EntryType
entry_type_auth = "AUTH"

pub record DistributedDocument (V : Type 0) : Type 0 where
  pub id : String
  pub entry_type : EntryType
  pub payload : GoMap V
  pub vector : VectorClock
  pub timestamp : ℤ
  pub peer_id : String
  pub stage : String
  pub deleted : Bool

-- The three constants, and any other int that a peer may send.
pub data OperationType : Type 0 where
  op_insert op_update op_delete : OperationType
  op_other : ℤ → OperationType

-- `doc` is the field Data, a pointer that may be nil.
pub record CrdtOperation (V : Type 0) : Type 0 where
  pub id : String
  pub op_type : OperationType
  pub collection : String
  pub document_id : String
  pub doc : Option (DistributedDocument V)
  pub vector : VectorClock
  pub timestamp : ℤ
  pub peer_id : String

-- LastSync is a clock time, which no modelled code reads.
pub record SyncState (V : Type 0) : Type 0 where
  pub collection : String
  pub network_id : String
  pub local_vector : VectorClock
  pub pending_operations : List (CrdtOperation V)
  pub staged_entries : List String
  pub sync_in_progress : Bool
