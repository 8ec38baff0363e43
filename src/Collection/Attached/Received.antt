-- ===== src/Collection/Attached/Received.antt =====
-- Operations and responses that come from the network, and requests for them, keep a collection sound
-- (collection/distributed_collection.go).
use knirvbase.Base.{◌≡◌, subst, List, [], ◌∷◌, Bool-cases, inl, inr}
use knirvbase.Base.Int.{ℤ}
use knirvbase.Call.{done, of_outcome, bind-done, done-injective}
use knirvbase.Floats.{Floats}
use knirvbase.Clock.{VectorClock}
use knirvbase.Resolver.{apply_operation}
use knirvbase.Store.{Store}
use knirvbase.Collection.Local.{find_copy}
use knirvbase.Collection.{Operation, Replica, Changed, fails, not_attached, or_nil, sync_state}
use knirvbase.Collection.Sync.{
  existing_document, store_result, merge_vector, handle_remote_operation, handle_operations,
  end_sync, handle_sync_response, request_sync,
}
use knirvbase.Collection.Attached.{
  Sound, SoundAfter, set_sync_state-Sound, store-Sound, when_attached, mapped,
}

module _ (fl : Floats) (st : Store fl) where
  open fl use {Float}

  merge_vector-Sound :
      (r : Replica fl st) (v : VectorClock) {r' : Replica fl st}
      → Sound fl st r
      → merge_vector fl st r v ≡ done r'
      → Sound fl st r'
  unfolding merge_vector
  merge_vector-Sound r v h =
      when_attached fl st (Sound fl st) r r _ h
        (mapped fl st (Sound fl st) (sync_state fl st r) _ λ s. set_sync_state-Sound fl st r _ h)

  pub handle_remote_operation-Sound :
      (r : Replica fl st) (now : ℤ) (op : Operation fl st) {r' : Replica fl st}
      → Sound fl st r
      → handle_remote_operation fl st r now op ≡ done r'
      → Sound fl st r'
  unfolding handle_remote_operation
  handle_remote_operation-Sound r now op h e =
      let (found, e1, e2) = bind-done (find_copy fl st r.store r.name op.document_id) _ e in
      let (existing, e3, e4) =
        bind-done (existing_document fl st now (or_nil fl st found) op.peer_id) _ e2 in
      let (result, e5, e6) = bind-done (of_outcome (apply_operation existing op)) _ e4 in
      let (s, e7, e8) = bind-done (store_result fl st r.store r.name op.document_id result) _ e6 in
      merge_vector-Sound (record r { store = s }) op.vector (store-Sound fl st r s h) e8

  handle_operations-Sound :
      (r : Replica fl st) (now : ℤ) (ops : List (Operation fl st)) {r' : Replica fl st}
      → Sound fl st r
      → handle_operations fl st r now ops ≡ done r'
      → Sound fl st r'
  unfolding handle_operations
  handle_operations-Sound r now [] h e = subst (Sound fl st) (done-injective e) h
  handle_operations-Sound r now (op ∷ ops) h e =
      let (x, e1, e2) = bind-done (handle_remote_operation fl st r now op) _ e in
      handle_operations-Sound x now ops (handle_remote_operation-Sound r now op h e1) e2

  pub handle_sync_response-Sound :
      (r : Replica fl st) (now : ℤ) (ops : List (Operation fl st)) {r' : Replica fl st}
      → Sound fl st r
      → handle_sync_response fl st r now ops ≡ done r'
      → Sound fl st r'
  unfolding handle_sync_response
  handle_sync_response-Sound r now ops h e =
      let (x, e1, e2) = bind-done (handle_operations fl st r now ops) (end_sync fl st) e in
      let hx = handle_operations-Sound r now ops h e1 in
      when_attached fl st (Sound fl st) x x _ hx
        (mapped fl st (Sound fl st) (sync_state fl st x) _ λ s. set_sync_state-Sound fl st x _ hx)
        e2

  pub request_sync-Sound :
      (r : Replica fl st) {c : Changed fl st (Unit {0})}
      → Sound fl st r
      → request_sync fl st r ≡ done c
      → SoundAfter fl st c
  unfolding request_sync
  request_sync-Sound r h =
      when_attached fl st (SoundAfter fl st) r (fails not_attached, r, []) _ h
        (mapped fl st (SoundAfter fl st) (sync_state fl st r) _ λ s.
          elim (Bool-cases s.sync_in_progress) [
            | inl b ↦ rw b h
            | inr b ↦ rw b (set_sync_state-Sound fl st r _ h)
          ])
