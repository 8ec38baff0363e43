-- ===== src/Collection/Ignored.antt =====
-- A change by another peer to a document that a file storage has
-- (collection/distributed_collection.go, handleRemoteOperation).
use knirvbase.Base.{◌≡◌, sym, ap, ◌∙◌, true, [], ◌∷◌}
use knirvbase.Base.Int.{ℤ, pos}
use knirvbase.GoMap.{made, Distinct}
use knirvbase.GoMap.Laws.{insert_all_nil}
use knirvbase.Result.{ok}
use knirvbase.Call.{done, ◌>>=◌}
use knirvbase.Floats.{Floats}
use knirvbase.Value.{Document}
use knirvbase.Json.{Codec, JsonDecodes}
use knirvbase.Json.Laws.{json_document, json_document_idem, json_document-Distinct}
use knirvbase.Crypto.{Primitives}
use knirvbase.Clock.Scan.{Leq}
use knirvbase.Resolver.{clone_map}
use knirvbase.Resolver.Apply.{is_known}
use knirvbase.Storage.Accepted.{accepted-found}
use knirvbase.Collection.Local.{insert_copy, find_copy, insert_copy-accepted}
use knirvbase.Collection.{Operation, Replica, find_document}
use knirvbase.Collection.Sync.{merge_vector, handle_remote_operation}
use knirvbase.Collection.Attached.{Sound, store-Sound}
use knirvbase.Collection.Arrival.{merge_vector_returns}
use knirvbase.Collection.Remote.{handle_remote_operation-stale}
use knirvbase.Collection.Replication.{Peer, store_of, Stores}

module _ (p : Primitives) (fl : Floats) (c : Codec fl.Float p.Byte) where
  open fl use {Float}

  clone_map_twice : (es : Document Float) → Distinct es → clone_map (clone_map (made es)) ≡ made es
  unfolding clone_map
  clone_map_twice es d = rw (insert_all_nil es d) (ap made (insert_all_nil es d))

  -- With a file storage: an operation of a known kind whose clock has at most 1 for the operation's
  -- own peer and 0 for the others, as a peer's second operation has, is handled, but the document that
  -- is found under its identifier is the same as before, so an update is lost and a deletion too. It is
  -- assumed that the collection is sound, that what encoding/json encodes comes back, and that the
  -- document found, as encoding/json gives it, has no key twice and is accepted by the storage when it
  -- is inserted again.
  pub remote_operation_ignored :
      JsonDecodes fl c
      → (receiver : Peer p fl c) (r : Replica fl (store_of p fl c receiver)) (now : ℤ)
        (op : Operation fl (store_of p fl c receiver)) (es : Document Float)
      → Sound fl (store_of p fl c receiver) r
      → Distinct es
      → find_document fl (store_of p fl c receiver) r op.document_id
        ≡ done (ok (made (json_document fl es)))
      → Stores p fl c receiver r op.document_id (json_document fl es)
      → is_known op.op_type ≡ true
      → Leq op.vector (made ((op.peer_id, pos 1) ∷ []))
      → (r' : Replica fl (store_of p fl c receiver)) × (handle_remote_operation fl
            (store_of p fl c receiver)
            r
            now
            op
          ≡ done r')
        × (find_document fl (store_of p fl c receiver) r' op.document_id
            ≡ find_document fl (store_of p fl c receiver) r op.document_id)
  unfolding find_document find_copy
  remote_operation_ignored json receiver r now op es h distinct there at_r known stale =
      let js : Document Float = json_document fl es in
      let (s, stored, found) =
        accepted-found p fl c receiver.disk receiver.now receiver.seeds json r.store r.name
          op.document_id js at_r in
      let (r', merged, same_store, same_name) =
        merge_vector_returns fl (store_of p fl c receiver) (record r { store = s }) op.vector
          (store-Sound fl (store_of p fl c receiver) r s h) in
      (
        r',
        handle_remote_operation-stale fl (store_of p fl c receiver) r now op js op.document_id there
              at_r.has_text known stale
            ∙ ap
                (λ doc. insert_copy fl (store_of p fl c receiver) r.store r.name doc >>= λ o.
                  merge_vector fl (store_of p fl c receiver) (record r { store = o.0 }) op.vector)
                (clone_map_twice js (json_document-Distinct fl es distinct))
            ∙ ap
                (λ o. o >>= λ o.
                  merge_vector fl (store_of p fl c receiver) (record r { store = o.0 }) op.vector)
                (insert_copy-accepted fl (store_of p fl c receiver) r.store s r.name (made js)
                  stored)
            ∙ merged,
        rw (same_store, same_name) (rw (json_document_idem fl es) at found ∙ sym there),
      )
