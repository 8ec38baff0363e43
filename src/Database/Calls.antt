-- ===== src/Database/Calls.antt =====
-- go/internal/database/distributed_database.go: the methods of a collection that a client of the
-- database calls, with the storage that all collections share, and the messages that they send through
-- the network manager (the network's calls of collection/distributed_collection.go).
use knirvbase.Base.{String, Option, none, some, List, [], ◌∷◌, if◌then◌else◌, ◌==◌}
use knirvbase.Base.Int.{ℤ}
use knirvbase.GoMap.{lookup, insert}
use knirvbase.Call.{Call, done, ◌>>=◌}
use knirvbase.Result.{Result}
use knirvbase.Floats.{Floats}
use knirvbase.Store.{Store}
use knirvbase.Collection.{
  Replica, Message, operation_message, sync_request, sync_response, Changed, Reply,
}
use knirvbase.Collection.Sync.{attach_to_network}
use knirvbase.Database.{DistributedDatabase}
use knirvbase.Network.{ProtocolMessage, NetworkManager}
use knirvbase.Network.Messages.{add_collection_to_network, broadcast_message, send_to_peer}

module _ (fl : Floats) (st : Store fl) (Byte : Type 0) where
  open fl use {Float}
  open st use {State}

  abbrev pub Database : Type 0
  Database = DistributedDatabase fl st Byte

  module _ {V : Type 0} (marshal : ProtocolMessage V → Result (List Byte))
      (payload : String → Message fl st → V) where
    abbrev protocol_message : ℤ → NetworkManager Byte → String → String → V → ProtocolMessage V
    protocol_message now n message_type network_id v = record {
      message_type = message_type;
      network_id = network_id;
      sender_id = n.own_id;
      timestamp = now;
      payload = v;
    }

    -- what a collection sends; the error of the network is dropped
    unfoldable pub send_message :
        ℤ
        → Option String
        → String
        → String
        → NetworkManager Byte
        → Message fl st
        → NetworkManager Byte
    unfolding broadcast_message send_to_peer
    send_message now failed name network_id n (operation_message id op) =
        (broadcast_message marshal n id
          (protocol_message now n "operation" id (payload name (operation_message id op)))).0
    send_message now failed name network_id n (sync_request id v) =
        (broadcast_message marshal n id
          (protocol_message now n "sync_request" id (payload name (sync_request id v)))).0
    send_message now failed name network_id n (sync_response peer ops v) =
        (send_to_peer marshal failed n peer network_id (
          protocol_message now n "sync_response" network_id
            (payload name (sync_response peer ops v)))).0

    unfoldable pub send_messages :
        ℤ
        → Option String
        → String
        → String
        → NetworkManager Byte
        → List (Message fl st)
        → NetworkManager Byte
    unfolding send_message
    send_messages now failed name network_id n [] = n
    send_messages now failed name network_id n (m ∷ ms) =
        send_messages now failed name network_id (send_message now failed name network_id n m) ms

    -- a collection back in the database, with its storage, and its messages sent
    unfoldable pub settle :
        {A : Type 0} → ℤ → Option String → String → Database → Changed fl st A → Database × Reply A
    unfolding send_messages
    settle now failed name db (reply, c, ms) = (
      record db {
        network = send_messages now failed c.name c.network_id db.network ms;
        collections = insert name c db.collections;
        storage = c.store;
      },
      reply,
    )

    -- a method of the collection that a client holds; none if there is no such collection
    unfoldable pub run_collection :
        {A : Type 0}
        → ℤ
        → Option String
        → (Replica fl st → Call (Changed fl st A))
        → Database
        → String
        → Call (Database × Option (Reply A))
    unfolding settle
    run_collection now failed f db name = elim (lookup name db.collections) [
      | none ↦ done (db, none)
      | some c ↦ do
        changed ← f (record c { store = db.storage })
        let settled = settle now failed name db changed
        done (settled.0, some (settled.1))
    ]

    -- AttachToNetwork of a collection that a client holds: the network, then the collection
    unfoldable pub attach_collection :
        (String → V)
        → ℤ
        → Option String
        → Database
        → String
        → Replica fl st
        → String
        → Call (Database × Reply (Unit {0}))
    unfolding attach_to_network add_collection_to_network settle
    attach_collection announcement now failed db name c network_id =
        let (n, refused) =
          if c.network_id == ""
          then add_collection_to_network marshal announcement now db.network network_id c.name
          else (db.network, none) in
        do
          changed ← attach_to_network fl st refused (record c { store = db.storage }) network_id
          done (settle now failed name (record db { network = n }) changed)

    -- AddCollectionToNetwork; none if the collection is not known
    unfoldable pub add_to_network :
        (String → V)
        → ℤ
        → Option String
        → Database
        → String
        → String
        → Call (Database × Option (Reply (Unit {0})))
    unfolding attach_collection
    add_to_network announcement now failed db network_id name = elim (lookup name db.collections) [
      | none ↦ done (db, none)
      | some c ↦ do
        r ← attach_collection announcement now failed db name c network_id
        done (r.0, some (r.1))
    ]
