-- ===== src/Collection/Replication.antt =====
-- The insertion of a document at one peer, and what another one finds, with a file storage under both
-- (collection/distributed_collection.go).
use knirvbase.Base.{String, ◌≡◌, ◌∙◌, Bool, false, [], ◌∷◌, ◌==◌}
use knirvbase.Base.Int.{ℤ}
use knirvbase.GoMap.{nil, made, Distinct}
use knirvbase.Result.{ok}
use knirvbase.Call.{done}
use knirvbase.Floats.{Floats}
use knirvbase.Value.{Value, Document, Fields, obj}
use knirvbase.Json.{Codec, JsonDecodes}
use knirvbase.Json.Laws.{json_document, json_document_idem}
use knirvbase.Crypto.{Primitives}
use knirvbase.Types.{CrdtOperation}
use knirvbase.Store.{Store}
use knirvbase.Storage.{Disk}
use knirvbase.Storage.Instance.{file_store}
use knirvbase.Storage.Accepted.{Accepts, accepted-found}
use knirvbase.Collection.Local.{find_copy}
use knirvbase.Collection.{Replica, gives, operation_message, insert_local, find_document}
use knirvbase.Collection.Handlers.{on_operation}
use knirvbase.Collection.Attached.{Sound}
use knirvbase.Collection.Arrival.{
  insertion, decoded, operation_payload, insert_local-insertion, on_operation-payload,
  handle_remote_operation-insertion,
}

-- A peer: its disk, a time, the seeds of its encryption, and where its lock is waited for.
pub record Peer (p : Primitives) (fl : Floats) (c : Codec fl.Float p.Byte) : Type 0 where
  pub disk : Disk p fl c
  pub now : ℤ
  pub seeds : String → p.Seed × p.Seed
  pub writer_waits : String → Bool

module _ (p : Primitives) (fl : Floats) (c : Codec fl.Float p.Byte) where
  open fl use {Float}

  abbrev pub store_of : Peer p fl c → Store fl
  store_of peer = file_store p fl c peer.disk peer.now peer.seeds peer.writer_waits

  abbrev pub Stores :
      (peer : Peer p fl c) → Replica fl (store_of peer) → String → Document Float → Type 0
  Stores peer r id es = Accepts p fl c peer.disk peer.now peer.seeds r.store r.name id es

  -- A document that is inserted through an attached collection of one peer is given back and
  -- announced, and when another peer that does not have it has handled the announcement, both find it
  -- as encoding/json gives it: if both collections are sound and have one name, the document has no
  -- key twice, the storages accept it, as it is and as it arrives, what encoding/json encodes comes
  -- back, and the operation is read with the payload that encoding/json makes of it.
  pub find-insert-announced :
      JsonDecodes fl c
      → (sender receiver : Peer p fl c) (a : Replica fl (store_of sender))
        (b : Replica fl (store_of receiver)) (op_id id : String) (sent_at received_at : ℤ)
        (es : Document Float) (w : Fields Float)
        (read_operation : Value Float → CrdtOperation (Value Float))
      → Sound fl (store_of sender) a
      → Sound fl (store_of receiver) b
      → (a.network_id == "") ≡ false
      → b.name ≡ a.name
      → Distinct es
      → Stores sender a id es
      → Stores receiver b id (json_document fl es)
      → (store_of receiver).find b.store b.name id ≡ done (ok nil)
      → read_operation (obj w) ≡ decoded fl (insertion fl (store_of sender) a op_id sent_at es id)
      → (a' : Replica fl (store_of sender)) × (b' : Replica fl (store_of receiver)) × (insert_local
            fl
            (store_of sender)
            a
            op_id
            sent_at
            (made es)
          ≡ done (
            gives (made es),
            a',
            operation_message a.network_id (insertion fl (store_of sender) a op_id sent_at es id)
                ∷ [],
          ))
        × (on_operation fl
              (store_of receiver)
              read_operation
              b
              received_at
              (operation_payload fl a.name w)
            ≡ done b')
        × (find_document fl (store_of sender) a' id ≡ done (ok (made (json_document fl es))))
        × (find_document fl (store_of receiver) b' id ≡ done (ok (made (json_document fl es))))
  unfolding find_document find_copy
  find-insert-announced json sender receiver a b op_id id sent_at received_at es w read_operation ha
        hb attached named distinct at_a at_b missing reads =
      let (s, stored_a, found_a) =
        accepted-found p fl c sender.disk sender.now sender.seeds json a.store a.name id es at_a in
      let (s', stored_b, found_b) =
        accepted-found p fl c receiver.disk receiver.now receiver.seeds json b.store b.name id
          (json_document fl es) at_b in
      let (a', inserted, e1, e2) =
        insert_local-insertion fl (store_of sender) a op_id sent_at es id s ha attached
          at_a.has_text stored_a in
      let (b', handled, e3, e4) =
        handle_remote_operation-insertion fl (store_of sender) (store_of receiver) b a received_at
          op_id sent_at es id s' hb distinct missing stored_b in
      (
        a',
        b',
        inserted,
        on_operation-payload fl (store_of sender) (store_of receiver) read_operation b a.name
              received_at w named
            ∙ rw reads handled,
        rw (e1, e2) found_a,
        rw (e3, e4) (rw (json_document_idem fl es) at found_b),
      )
