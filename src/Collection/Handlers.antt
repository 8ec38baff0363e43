-- ===== src/Collection/Handlers.antt =====
-- The message handlers of a collection (setupMessageHandlers of
-- go/internal/collection/distributed_collection.go). What encoding/json makes of a value that is
-- marshalled and unmarshalled into an operation is a parameter; a failure leaves some operation too,
-- since the errors are dropped. The goroutines that the handlers start are run at once here.
use knirvbase.Base.{String, Option, none, some, List, [], ◌∷◌, if◌then◌else◌, ◌==◌}
use knirvbase.Base.Int.{ℤ}
use knirvbase.GoMap.{lookup}
use knirvbase.Call.{Call, done, ◌>>=◌}
use knirvbase.Floats.{Floats}
use knirvbase.Value.{Value, Document, Items, as_string, as_document, null, obj, arr, no_items, item}
use knirvbase.Store.{Store}
use knirvbase.Collection.{Operation, Message, Replica}
use knirvbase.Collection.Sync.{handle_remote_operation, handle_sync_request, handle_sync_response}

module _ (fl : Floats) (st : Store fl) where
  open fl use {Float}

  -- payload, _ := msg.Payload.(map[string]interface{}), where nil reads as an empty map
  abbrev pub fields_or_none : Option (Value Float) → Document Float
  fields_or_none none = []
  fields_or_none (some v) = elim (as_document v) [ none ↦ [] | some p ↦ p ]

  -- coll, _ := payload["collection"].(string)
  unfoldable pub collection_name : Document Float → String
  collection_name payload = elim (lookup "collection" payload) [
    | none ↦ ""
    | some v ↦ elim (as_string v) [ none ↦ "" | some s ↦ s ]
  ]

  -- x.(map[string]interface{}) as it is marshalled again: null, if it is no map
  abbrev pub object_or_null : Option (Value Float) → Value Float
  object_or_null (some (obj fs)) = obj fs
  object_or_null _ = null

  module _ (read_operation : Value Float → Operation fl st) where
    unfoldable pub on_operation : Replica fl st → ℤ → Value Float → Call (Replica fl st)
    unfolding handle_remote_operation collection_name as_document
    on_operation r now payload = elim (as_document payload) [
      | none ↦ done r
      | some p ↦
          if collection_name p == r.name
          then handle_remote_operation fl st r now
              (read_operation (object_or_null (lookup "operation" p)))
          else done r
    ]

    unfoldable pub read_operations : Items Float → List (Operation fl st)
    read_operations no_items = []
    read_operations (item v vs) = read_operation v ∷ read_operations vs

    -- opsIface, _ := payload["operations"].([]interface{})
    abbrev pub items_or_none : Option (Value Float) → Items Float
    items_or_none (some (arr vs)) = vs
    items_or_none _ = no_items

    unfoldable pub on_sync_response : Replica fl st → ℤ → Value Float → Call (Replica fl st)
    unfolding handle_sync_response read_operations collection_name as_document
    on_sync_response r now payload =
        let p = fields_or_none (some payload) in
        if collection_name p == r.name
        then handle_sync_response fl st r now
            (read_operations (items_or_none (lookup "operations" p)))
        else done r

  -- the answer to a sync request
  unfoldable pub on_sync_request :
      Replica fl st → String → Value Float → Call (List (Message fl st))
  unfolding handle_sync_request collection_name as_document
  on_sync_request r sender payload =
      let p = fields_or_none (some payload) in
      if collection_name p == r.name
      then (do
        m ← handle_sync_request fl st r sender (fields_or_none (lookup "vector" p))
        done (m ∷ []))
      else done []
