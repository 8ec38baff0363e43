-- ===== src/Collection/Remote.antt =====
-- What a stale remote operation does with a stored document (collection/distributed_collection.go).
use knirvbase.Base.{String, ◌≡◌, ap, ◌∙◌, true, false, Option, some, List, [], ◌∷◌}
use knirvbase.Base.Int.{ℤ, pos}
use knirvbase.GoMap.{made, get, lookup, insert}
use knirvbase.Result.{ok}
use knirvbase.Call.{Call, done, ◌>>=◌, of_outcome, bind_assoc}
use knirvbase.Store.{Store}
use knirvbase.Collection.Local.{insert_copy, find_copy}
use knirvbase.Floats.{Floats}
use knirvbase.Value.{Value, str}
use knirvbase.Clock.Scan.{Leq}
use knirvbase.Types.{DistributedDocument}
use knirvbase.Resolver.{apply_operation, to_distributed, to_regular, clone_map}
use knirvbase.Resolver.Apply.{apply_known_operation, is_known}
use knirvbase.Collection.{Operation, Replica, or_nil}
use knirvbase.Collection.Sync.{
  existing_document, store_result, merge_vector, handle_remote_operation,
}

module _ (fl : Floats) (st : Store fl) where
  open fl use {Float}
  open st use {State, find}

  -- the local document as the operation of a peer finds it
  abbrev as_found :
      ℤ → List (String × Value Float) → String → String → DistributedDocument (Value Float)
  as_found now es peer id = record {
    id = id;
    entry_type = "";
    payload = clone_map (made es);
    vector = made ((peer, pos 1) ∷ []);
    timestamp = now;
    peer_id = peer;
    stage = "";
    deleted = false;
  }

  existing-made :
      (now : ℤ) (es : List (String × Value Float)) (peer id : String)
      → get (made es) "id" ≡ some (str id)
      → existing_document fl st now (made es) peer ≡ done (some (as_found now es peer id))
  unfolding to_distributed insert lookup
  existing-made now es peer id has = simp (to_distributed, has)

  store_result-found :
      (r : Replica fl st) (now : ℤ) (es : List (String × Value Float)) (peer id doc_id : String)
      (f : State → Call (Replica fl st))
      → (store_result fl st r.store r.name doc_id (some (as_found now es peer id)) >>= f)
        ≡ (insert_copy fl st r.store r.name (clone_map (clone_map (made es))) >>= λ o. f (o.0))
  unfolding to_regular
  store_result-found r now es peer id doc_id f =
      bind_assoc (insert_copy fl st r.store r.name _) (λ o. done (o.0)) f

  -- what is left of an operation of a known kind with a clock of at most 1 for its own peer and 0 for
  -- the others: the stored document, which has a text under "id", is inserted again
  pub handle_remote_operation-stale :
      (r : Replica fl st) (now : ℤ) (op : Operation fl st) (es : List (String × Value Float))
      (id : String)
      → find r.store r.name op.document_id ≡ done (ok (made es))
      → get (made es) "id" ≡ some (str id)
      → is_known op.op_type ≡ true
      → Leq op.vector (made ((op.peer_id, pos 1) ∷ []))
      → handle_remote_operation fl st r now op ≡ (
          insert_copy fl st r.store r.name (clone_map (clone_map (made es))) >>= λ o.
          merge_vector fl st (record r { store = o.0 }) op.vector)
  unfolding handle_remote_operation find_copy
  handle_remote_operation-stale r now op es id there has known stale =
      let d : DistributedDocument (Value Float) = as_found now es op.peer_id id in
      let store : Option (DistributedDocument (Value Float)) → Call (Replica fl st) = λ result.
        store_result fl st r.store r.name op.document_id result >>= λ s.
        merge_vector fl st (record r { store = s }) op.vector in
      ap
        (λ o. o >>= λ found.
          existing_document fl st now (or_nil fl st found) op.peer_id >>= λ existing.
          of_outcome (apply_operation existing op) >>= store)
        there
      ∙ ap (λ o. o >>= λ existing. of_outcome (apply_operation existing op) >>= store)
          (existing-made now es op.peer_id id has)
      ∙ ap (λ o. of_outcome o >>= store) (apply_known_operation d op d known stale)
      ∙ store_result-found r now es op.peer_id id op.document_id
          (λ s. merge_vector fl st (record r { store = s }) op.vector)
