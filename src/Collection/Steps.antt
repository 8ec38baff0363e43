-- ===== src/Collection/Steps.antt =====
-- What a collection can become (collection/distributed_collection.go): its steps, one for each method
-- and each message that it handles. Others change the storage that it shares at any time.
use knirvbase.Base.{ℕ, String, ◌≡◌, Option, List}
use knirvbase.Base.Int.{ℤ}
use knirvbase.GoMap.{GoMap}
use knirvbase.Call.{done}
use knirvbase.Floats.{Floats}
use knirvbase.Value.{Value}
use knirvbase.Store.{Store}
use knirvbase.Collection.{
  Operation, Message, Replica, Reply, new_distributed_collection, insert_local, update_local,
  delete_local,
}
use knirvbase.Collection.Sync.{request_sync, attach_to_network, detach_from_network, clear_flag}
use knirvbase.Collection.Handlers.{on_operation, on_sync_response}

module _ (fl : Floats) (st : Store fl) (read_operation : Value fl.Float → Operation fl st) where
  open fl use {Float}
  open st use {State}

  -- an operation that returns
  pub data Step (r : Replica fl st) : Replica fl st → Type 0 where
    insert_step :
        {r' : Replica fl st} (op_id : String) (now : ℤ) (doc : GoMap (Value Float))
        (reply : Reply (GoMap (Value Float))) (ms : List (Message fl st))
        → insert_local fl st r op_id now doc ≡ done (reply, r', ms)
        → Step r r'
    update_step :
        {r' : Replica fl st} (op_id : String) (now : ℤ) (id : String) (update : GoMap (Value Float))
        (reply : Reply ℕ) (ms : List (Message fl st))
        → update_local fl st r op_id now id update ≡ done (reply, r', ms)
        → Step r r'
    delete_step :
        {r' : Replica fl st} (op_id : String) (now : ℤ) (id : String) (reply : Reply ℕ)
        (ms : List (Message fl st))
        → delete_local fl st r op_id now id ≡ done (reply, r', ms)
        → Step r r'
    operation_step :
        {r' : Replica fl st} (now : ℤ) (payload : Value Float)
        → on_operation fl st read_operation r now payload ≡ done r'
        → Step r r'
    response_step :
        {r' : Replica fl st} (now : ℤ) (payload : Value Float)
        → on_sync_response fl st read_operation r now payload ≡ done r'
        → Step r r'
    force_step :
        {r' : Replica fl st} (reply : Reply (Unit {0})) (ms : List (Message fl st))
        → request_sync fl st r ≡ done (reply, r', ms)
        → Step r r'
    attach_step :
        {r' : Replica fl st} (refused : Option String) (network_id : String)
        (reply : Reply (Unit {0})) (ms : List (Message fl st))
        → attach_to_network fl st refused r network_id ≡ done (reply, r', ms)
        → Step r r'
    detach_step : Step r (detach_from_network fl st r)
    timeout_step : (network_id : String) → Step r (clear_flag fl st r network_id)
    storage_step : (s : State) → Step r (record r { store = s })

  -- what a collection can become, from the one that NewDistributedCollection returns
  pub data Reachable (own_id name : String) (s : State) : Replica fl st → Type 0 where
    start : Reachable own_id name s (new_distributed_collection fl st own_id name s)
    after :
        {r r' : Replica fl st} → Reachable own_id name s r → Step r r' → Reachable own_id name s r'
