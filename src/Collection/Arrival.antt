-- ===== src/Collection/Arrival.antt =====
-- What becomes of the operation of an insertion at the peer that it comes from and at another one
-- (collection/distributed_collection.go).
use knirvbase.Base.{
  String, ◌≡◌, refl, sym, ap, ◌∙◌, false, none, some, [], ◌∷◌, ◌==◌, arith, eq_refl, Bool-cases,
  Option-cases, inl, inr,
}
use knirvbase.Base.Int.{ℤ, pos}
use knirvbase.GoMap.{nil, made, lookup, insert, Distinct}
use knirvbase.GoMap.Laws.{insert_all_nil}
use knirvbase.Outcome.{returns}
use knirvbase.Result.{ok}
use knirvbase.Call.{done, ◌>>=◌}
use knirvbase.Floats.{Floats}
use knirvbase.Value.{Value, Document, Fields, as_string, str, obj, no_fields, field}
use knirvbase.Json.Laws.{json_document, json_document-Distinct}
use knirvbase.Clock.{VectorClock, merge}
use knirvbase.Types.{DistributedDocument, CrdtOperation, op_insert}
use knirvbase.Resolver.{to_distributed, to_regular, clone_map, apply_operation}
use knirvbase.Store.{Store}
use knirvbase.Collection.Local.{find_copy, insert_copy-accepted}
use knirvbase.Collection.{
  Operation, Replica, gives, operation_message, operation, entry_type_of, get_current_vector,
  insert_local, sent, sync_state, set_sync_state,
}
use knirvbase.Collection.Announce.{
  broadcasted, announce_insert-broadcast, broadcast-broadcasted, insert_local-accepted,
}
use knirvbase.Collection.Sync.{merge_vector, handle_remote_operation}
use knirvbase.Collection.Handlers.{on_operation}
use knirvbase.Collection.Attached.{Sound, store-Sound}

module _ (fl : Floats) where
  open fl use {Float}

  -- what encoding/json makes of an operation: the payload of its document is decoded to a map again
  abbrev pub decoded : CrdtOperation (Value Float) → CrdtOperation (Value Float)
  decoded op = record op {
    doc = elim op.doc [
      | none ↦ none
      | some d ↦ some (record d {
        payload = elim d.payload [ nil ↦ nil | made es ↦ made (json_document fl es) ];
      })
    ];
  }

  -- the payload of the message that carries an operation, which encoding/json has made `w`
  abbrev pub operation_payload : String → Fields Float → Value Float
  operation_payload name w =
      obj (field "collection" (str name) (field "operation" (obj w) no_fields))

module _ (fl : Floats) (st : Store fl) where
  open fl use {Float}
  open st use {State, find, insert_doc}

  -- what to_distributed makes of a document
  abbrev pub distributed_document :
      Replica fl st → ℤ → Document Float → String → DistributedDocument (Value Float)
  distributed_document r now es id = record {
    id = id;
    entry_type = "";
    payload = clone_map (made es);
    vector = made (insert r.peer_id (pos 1) []);
    timestamp = now;
    peer_id = r.peer_id;
    stage = "";
    deleted = false;
  }

  -- the operation with which a peer announces the insertion of a document
  abbrev pub insertion : Replica fl st → String → ℤ → Document Float → String → Operation fl st
  insertion r op_id now es id =
      operation fl st r op_insert op_id now id
        (record (distributed_document r now es id) { entry_type = entry_type_of fl st (made es) })

  -- An attached collection whose storage accepts a document announces its insertion to the network.
  pub insert_local-insertion :
      (r : Replica fl st) (op_id : String) (now : ℤ) (es : Document Float) (id : String) (s : State)
      → Sound fl st r
      → (r.network_id == "") ≡ false
      → lookup "id" es ≡ some (str id)
      → insert_doc r.store r.name (made es) ≡ done (s, none)
      → (r' : Replica fl st) × (insert_local fl st r op_id now (made es)
          ≡ done (
            gives (made es),
            r',
            operation_message r.network_id (insertion r op_id now es id) ∷ [],
          ))
        × (r'.store ≡ s)
        × (r'.name ≡ r.name)
  unfolding get_current_vector to_distributed
  insert_local-insertion r op_id now es id s h a has accepted =
      elim (Option-cases (lookup r.network_id r.sync_states)) [
        | inl missing ↦ absurd (let there = h.synced a in ground (arith, missing, there))
        | inr (state, there) ↦
            let stored : Replica fl st = record r { store = s } in
            let d : DistributedDocument (Value Float) = distributed_document r now es id in
            let e : to_distributed as_string now (made es) r.peer_id ≡ returns d =
              rw (has, to_distributed) refl in
            (
              broadcasted fl st stored (insertion r op_id now es id) state,
              insert_local-accepted fl st r op_id now (made es) id s has accepted
                  ∙ announce_insert-broadcast fl st stored op_id now (made es) id d a e
                  ∙ ap (λ b. b >>= sent fl st (made es))
                      (broadcast-broadcasted fl st stored (insertion r op_id now es id) state a
                        there),
              refl,
              refl,
            )
      ]

  pub merge_vector_returns :
      (r : Replica fl st) (v : VectorClock)
      → Sound fl st r
      → (r' : Replica fl st) × (merge_vector fl st r v ≡ done r')
        × (r'.store ≡ r.store)
        × (r'.name ≡ r.name)
  unfolding merge_vector
  merge_vector_returns r v h = elim (Bool-cases (r.network_id == "")) [
    | inl b ↦ (r, rw b refl, refl, refl)
    | inr a ↦ elim (Option-cases (lookup r.network_id r.sync_states)) [
      | inl missing ↦ absurd (let there = h.synced a in ground (arith, missing, there))
      | inr (s, there) ↦ (
        set_sync_state fl st r (record s { local_vector = merge s.local_vector v }),
        simp (merge_vector, sync_state, a, there),
        refl,
        refl,
      )
    ]
  ]

module _ (fl : Floats) (sender st : Store fl) where
  open fl use {Float}
  open st use {State, find, insert_doc}

  -- An operation that arrives for a collection of this name is handled.
  pub on_operation-payload :
      (read_operation : Value Float → CrdtOperation (Value Float)) (r : Replica fl st)
      (name : String) (later : ℤ) (w : Fields Float)
      → r.name ≡ name
      → on_operation fl st read_operation r later (operation_payload fl name w)
        ≡ handle_remote_operation fl st r later (read_operation (obj w))
  unfolding on_operation lookup
  on_operation-payload read_operation r name later w named =
      rw (sym named) (rw (eq_refl r.name) refl)

  -- An insertion that arrives where the document is missing is stored.
  pub handle_remote_operation-insertion :
      (r : Replica fl st) (a : Replica fl sender) (later : ℤ) (op_id : String) (now : ℤ)
      (es : Document Float) (id : String) (s : State)
      → Sound fl st r
      → Distinct es
      → find r.store r.name id ≡ done (ok nil)
      → insert_doc r.store r.name (made (json_document fl es)) ≡ done (s, none)
      → (r' : Replica fl st) × (handle_remote_operation fl st r later
            (decoded fl (insertion fl sender a op_id now es id))
          ≡ done r')
        × (r'.store ≡ s)
        × (r'.name ≡ r.name)
  unfolding handle_remote_operation find_copy clone_map to_regular apply_operation
  handle_remote_operation-insertion r a later op_id now es id s h d missing accepted =
      let js : Document Float = json_document fl es in
      let op : CrdtOperation (Value Float) = decoded fl (insertion fl sender a op_id now es id) in
      let (r', merged, stored, named) =
        merge_vector_returns fl st (record r { store = s }) op.vector (store-Sound fl st r s h) in
      (
        r',
        rw
            (
              missing,
              handle_remote_operation,
              insert_all_nil es d,
              insert_all_nil js (json_document-Distinct fl es d),
              insert_copy-accepted fl st r.store s r.name (made js) accepted,
              merged,
            )
            refl,
        stored,
        named,
      )
