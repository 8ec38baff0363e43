-- ===== src/Public/Documents.antt =====
-- What a program that uses the package finds of the documents that it inserts and updates
-- (pkg/knirvbase/knirvbase.go), with the file storage under it.
use knirvbase.Base.{String, ◌≡◌, refl, ◌∙◌, Bool, true, false, Option, some, List, ◌==◌}
use knirvbase.Base.Int.{ℤ}
use knirvbase.GoMap.{GoMap, made, lookup}
use knirvbase.Result.{Result, ok}
use knirvbase.Call.{done, deadlocked, unlocked}
use knirvbase.Floats.{Floats}
use knirvbase.Value.{Value, Document}
use knirvbase.Json.{Codec, JsonDecodes}
use knirvbase.Json.Laws.{json_document}
use knirvbase.Crypto.{Primitives}
use knirvbase.Store.{Store}
use knirvbase.Storage.{Disk}
use knirvbase.Storage.Instance.{file_store}
use knirvbase.Storage.Accepted.{Accepts, accepted-found}
use knirvbase.Storage.Locks.{update_doc_deadlocks}
use knirvbase.Collection.{Replica, Message, gives, update_local, find_document}
use knirvbase.Collection.Local.{update_copy, find_copy}
use knirvbase.Collection.Attached.{Sound}
use knirvbase.Network.{ProtocolMessage}
use knirvbase.Database.Calls.{Database, run_collection}
use knirvbase.Database.Inserts.{run_collection-insert_local}
use knirvbase.Public.{insert, has_id, update, find, replied}

module _ (p : Primitives) (fl : Floats) (c : Codec fl.Float p.Byte) (disk : Disk p fl c) (now : ℤ)
    (seeds : String → p.Seed × p.Seed) (writer_waits : String → Bool) where
  open p use {Byte}
  open fl use {Float}

  abbrev store : Store fl
  store = file_store p fl c disk now seeds writer_waits

  find-there :
      (db : Database fl store Byte) (name id : String) (r : Replica fl store)
      → lookup name db.collections ≡ some r
      → find fl store Byte db name id ≡ store.find db.storage r.name id
  unfolding find find_document find_copy
  find-there db name id r there = rw (there, find) refl

  module _ {V : Type 0} (marshal : ProtocolMessage V → Result (List Byte))
      (payload : String → Message fl store → V) (time : ℤ) (failed : Option String) where
    -- A document that is inserted through a sound collection of a database, whose text under "id" is not
    -- empty and which the storage accepts, is given back, and found afterwards as encoding/json gives it.
    pub find-insert :
        JsonDecodes fl c
        → (op_id : String) (db : Database fl store Byte) (name id : String) (r : Replica fl store)
          (es : Document Float)
        → lookup name db.collections ≡ some r
        → Sound fl store r
        → (id == "") ≡ false
        → Accepts p fl c disk now seeds db.storage r.name id es
        → (db' : Database fl store Byte) × (insert fl store Byte marshal payload time failed false
              op_id db name
              (made es)
            ≡ done (db', replied (gives (made es))))
          × (find fl store Byte db' name id ≡ done (ok (made (json_document fl es))))
    unfolding insert
    find-insert json op_id db name id r es there sound named a =
        let (fs', stored, found) =
          accepted-found p fl c disk now seeds json db.storage r.name id es a in
        let (db', r', ran, storage, kept, same_name) =
          run_collection-insert_local fl store Byte marshal payload time failed op_id db name r
            (made es) id fs' there sound a.has_text stored in
        let checked : has_id fl store Byte marshal payload time failed (made es) ≡ true =
          rw (a.has_text, has_id, named, has_id) refl in
        (
          db',
          rw (checked, ran) refl,
          find-there db' name id r' kept ∙ rw (storage, same_name) found,
        )

    -- Update never returns, whatever the collection, the document and the changes are: the storage waits
    -- for the lock that it holds.
    pub update_never_returns :
        (op_id : String) (db : Database fl store Byte) (name id : String) (r : Replica fl store)
        (changes : GoMap (Value Float))
        → lookup name db.collections ≡ some r
        → update fl store Byte marshal payload time failed op_id db name id changes ≡ deadlocked
    unfolding update update_local update_copy
    update_never_returns op_id db name id r changes there =
        let waits =
          update_doc_deadlocks p fl c disk now seeds unlocked db.storage r.name id changes in
        let ran : run_collection fl store Byte marshal payload time failed
              (λ c. update_local fl store c op_id time id changes) db name
            ≡ deadlocked =
          rw (there, run_collection, waits, run_collection) refl in
        rw ran refl
