-- ===== src/Database/Inserts.antt =====
-- The insertion of a document through a collection of a database (database/distributed_database.go,
-- collection/distributed_collection.go), when the storage accepts it.
use knirvbase.Base.{
  String, ◌≡◌, refl, ap, ◌∙◌, Option, none, some, List, [], ◌==◌, arith, eq_refl, Bool-cases,
  Option-cases, inl, inr,
}
use knirvbase.Base.Int.{ℤ}
use knirvbase.GoMap.{GoMap, get, lookup}
use knirvbase.GoMap.Laws.{lookup-insert}
use knirvbase.Result.{Result}
use knirvbase.Call.{Call, done, ◌>>=◌}
use knirvbase.Floats.{Floats}
use knirvbase.Value.{Value, str}
use knirvbase.Store.{Store}
use knirvbase.Collection.{Replica, Message, gives, Changed, announce_insert, insert_local, sent}
use knirvbase.Collection.Announce.{
  to_distributed_returns, announce_insert-broadcast, broadcast-broadcasted, insert_local-accepted,
}
use knirvbase.Collection.Attached.{Sound, store-Sound}
use knirvbase.Network.{ProtocolMessage}
use knirvbase.Database.Calls.{Database, run_collection, settle}

module _ (fl : Floats) (st : Store fl) where
  open fl use {Float}
  open st use {State, insert_doc}

  -- A local insertion that the storage accepts is done, and leaves the collection with that storage.
  abbrev pub Inserted :
      Replica fl st
      → State
      → GoMap (Value Float)
      → Call (Changed fl st (GoMap (Value Float)))
      → Type 0
  Inserted r s doc m =
      (r' : Replica fl st) × (ms : List (Message fl st)) × (m ≡ done (gives doc, r', ms))
      × (r'.store ≡ s)
      × (r'.name ≡ r.name)

  announce_insert_returns :
      (r : Replica fl st) (op_id : String) (now : ℤ) (doc : GoMap (Value Float)) (id : String)
      → Sound fl st r
      → get doc "id" ≡ some (str id)
      → Inserted r r.store doc (announce_insert fl st r op_id now doc id)
  unfolding announce_insert
  announce_insert_returns r op_id now doc id h has = elim (Bool-cases (r.network_id == "")) [
    | inl b ↦ (r, [], rw b refl, refl, refl)
    | inr a ↦ elim (Option-cases (lookup r.network_id r.sync_states)) [
      | inl none_there ↦ absurd (let there = h.synced a in ground (arith, none_there, there))
      | inr (s, there) ↦
          let (d, e) = to_distributed_returns fl st now doc r.peer_id id has in
          (
            _,
            _,
            announce_insert-broadcast fl st r op_id now doc id d a e
                ∙ ap (λ b. b >>= sent fl st doc) (broadcast-broadcasted fl st r _ s a there),
            refl,
            refl,
          )
    ]
  ]

  pub insert_local_returns :
      (r : Replica fl st) (op_id : String) (now : ℤ) (doc : GoMap (Value Float)) (id : String)
      (s : State)
      → Sound fl st r
      → get doc "id" ≡ some (str id)
      → insert_doc r.store r.name doc ≡ done (s, none)
      → Inserted r s doc (insert_local fl st r op_id now doc)
  insert_local_returns r op_id now doc id s h has accepted =
      let (r', ms, e, stored, named) =
        announce_insert_returns (record r { store = s }) op_id now doc id (store-Sound fl st r s h)
          has in
      (r', ms, insert_local-accepted fl st r op_id now doc id s has accepted ∙ e, stored, named)

  -- An insertion through a sound collection of a database, of a document with a text under "id" that the
  -- storage accepts, is done: it gives the document, and the storage is the database's afterwards, also
  -- for its other collections.
  pub run_collection-insert_local :
      (Byte : Type 0) {V : Type 0} (marshal : ProtocolMessage V → Result (List Byte))
      (payload : String → Message fl st → V) (now : ℤ) (failed : Option String) (op_id : String)
      (db : Database fl st Byte) (name : String) (c : Replica fl st) (doc : GoMap (Value Float))
      (id : String) (s : State)
      → lookup name db.collections ≡ some c
      → Sound fl st c
      → get doc "id" ≡ some (str id)
      → insert_doc db.storage c.name doc ≡ done (s, none)
      → (db' : Database fl st Byte) × (c' : Replica fl st) × (run_collection fl st Byte marshal
            payload now failed
            (λ c. insert_local fl st c op_id now doc)
            db
            name
          ≡ done (db', some (gives doc)))
        × (db'.storage ≡ s)
        × (lookup name db'.collections ≡ some c')
        × (c'.name ≡ c.name)
  unfolding run_collection settle
  run_collection-insert_local Byte marshal payload now failed op_id db name c doc id s there h has
        accepted =
      let (c', ms, e, stored, named) =
        insert_local_returns (record c { store = db.storage }) op_id now doc id s
          (store-Sound fl st c db.storage h) has accepted in
      let run : run_collection fl st Byte marshal payload now failed
            (λ c. insert_local fl st c op_id now doc) db name
          ≡ done (
            (settle fl st Byte marshal payload now failed name db (gives doc, c', ms)).0,
            some (gives doc),
          ) =
        rw (there, run_collection, e, run_collection) refl in
      (
        (settle fl st Byte marshal payload now failed name db (gives doc, c', ms)).0,
        c',
        run,
        stored,
        ground (arith, lookup-insert name name c' db.collections, eq_refl name),
        named,
      )
