-- ===== src/Collection/Attached/History.antt =====
-- Every state that a collection can reach is sound (collection/distributed_collection.go), and what
-- follows from it.
use knirvbase.Base.{
  eq_iff, Bool, String, ◌≡◌, refl, sym, ◌∙◌, subst, true, false, Option, [], ◌==◌, if◌then◌else◌,
  arith, Bool-cases, Option-cases, inl, inr,
}
use knirvbase.Base.Int.{ℤ}
use knirvbase.GoMap.{lookup, insert}
use knirvbase.GoMap.Laws.{lookup-insert}
use knirvbase.Call.{Call, done, done-injective}
use knirvbase.Floats.{Floats}
use knirvbase.Value.{Value, as_document}
use knirvbase.Types.{SyncState}
use knirvbase.Store.{Store}
use knirvbase.Collection.{
  network_refused, already_attached, Operation, Replica, Changed, fails, new_distributed_collection,
}
use knirvbase.Collection.Sync.{
  handle_remote_operation, attach_to_network, detach_from_network, clear_flag,
}
use knirvbase.Collection.Handlers.{on_operation, on_sync_response, collection_name, object_or_null}
use knirvbase.Collection.Steps.{
  Step, insert_step, update_step, delete_step, operation_step, response_step, force_step,
  attach_step, detach_step, timeout_step, storage_step, Reachable, start, after,
}
use knirvbase.Collection.Attached.{
  found_after_insert, Sound, SoundAfter, store-Sound, insert_local-Sound, update_local-Sound,
  delete_local-Sound,
}
use knirvbase.Collection.Attached.Received.{
  handle_remote_operation-Sound, handle_sync_response-Sound, request_sync-Sound,
}

module _ (fl : Floats) (st : Store fl) where
  open fl use {Float}
  open st use {State}

  pub attach-Sound :
      (refused : Option String) (r : Replica fl st) (network_id : String)
      {c : Changed fl st (Unit {0})}
      → Sound fl st r
      → attach_to_network fl st refused r network_id ≡ done c
      → SoundAfter fl st c
  unfolding attach_to_network
  attach-Sound refused r network_id {c} h e = elim (Bool-cases (r.network_id == "")) [
    | inl b ↦ elim (Option-cases refused) [
      | inl free ↦
          request_sync-Sound fl st _
            (record {
              synced = λ _. found_after_insert fl st network_id _ r.sync_states;
              bounded = h.bounded;
              bound = h.bound;
            })
            (let joined = e in rw (b, free) at joined)
      | inr (text, there) ↦
          let same : ◌≡◌ {A = Changed fl st (Unit {0})} (fails (network_refused text), r, []) c =
            ground (arith, b, there, e) in
          subst (SoundAfter fl st) same h
    ]
    | inr b ↦
        let same : ◌≡◌ {A = Changed fl st (Unit {0})} (fails already_attached, r, []) c =
          ground (arith, b, e) in
        subst (SoundAfter fl st) same h
  ]

  pub detach-Sound : (r : Replica fl st) → Sound fl st r → Sound fl st (detach_from_network fl st r)
  unfolding detach_from_network
  detach-Sound r h = elim (Bool-cases (r.network_id == "")) [
    | inl b ↦ rw b h
    | inr b ↦ rw b (record { synced = λ e. cc; bounded = h.bounded; bound = h.bound })
  ]

  pub clear_flag-Sound :
      (r : Replica fl st) (network_id : String)
      → Sound fl st r
      → Sound fl st (clear_flag fl st r network_id)
  unfolding clear_flag
  clear_flag-Sound r network_id h = elim (Option-cases (lookup network_id r.sync_states)) [
    | inl none_there ↦
        let same : clear_flag fl st r network_id ≡ r = rw (none_there, clear_flag) refl in
        subst (Sound fl st) (sym same) h
    | inr (s, there) ↦
        let cleared : SyncState (Value Float) = record s { sync_in_progress = false } in
        let states = insert network_id cleared r.sync_states in
        let same : clear_flag fl st r network_id ≡ record r { sync_states = states } =
          rw (there, clear_flag) refl in
        subst (Sound fl st) (sym same) (record {
          synced = λ a.
              let old = h.synced a in
              ground (
                arith,
                lookup-insert network_id r.network_id cleared r.sync_states,
                eq_iff r.network_id network_id,
                eq_iff network_id r.network_id,
              );
          bounded = h.bounded;
          bound = h.bound;
        })
  ]

  -- a message that is handled under a test
  under_test :
      (b : Bool) (r : Replica fl st) (m : Call (Replica fl st)) {r' : Replica fl st}
      → Sound fl st r
      → (m ≡ done r' → Sound fl st r')
      → (if b then m else done r) ≡ done r'
      → Sound fl st r'
  under_test true r m h handled e = handled e
  under_test false r m h handled e = subst (Sound fl st) (done-injective e) h

  module _ (read_operation : Value Float → Operation fl st) where
    on_operation-Sound :
        (r : Replica fl st) (now : ℤ) (payload : Value Float) {r' : Replica fl st}
        → Sound fl st r
        → on_operation fl st read_operation r now payload ≡ done r'
        → Sound fl st r'
    unfolding on_operation
    on_operation-Sound r now payload {r'} h e = elim (Option-cases (as_document payload)) [
      | inl no_map ↦
          let same : on_operation fl st read_operation r now payload ≡ done r =
            rw (no_map, on_operation) refl in
          subst (Sound fl st) (done-injective (sym same ∙ e)) h
      | inr (p, is_map) ↦
          let same : on_operation fl st read_operation r now payload ≡ (
              if collection_name fl st p == r.name
              then handle_remote_operation fl st r now
                  (read_operation (object_or_null fl st (lookup "operation" p)))
              else done r) =
            rw (is_map, on_operation) refl in
          under_test _ r _ h (handle_remote_operation-Sound fl st r now _ h) (sym same ∙ e)
    ]

    pub Step-Sound :
        (r r' : Replica fl st) → Step fl st read_operation r r' → Sound fl st r → Sound fl st r'
    unfolding on_sync_response
    Step-Sound r r' (insert_step op_id now doc reply ms e) h =
        insert_local-Sound fl st r op_id now doc h e
    Step-Sound r r' (update_step op_id now id update reply ms e) h =
        update_local-Sound fl st r op_id now id update h e
    Step-Sound r r' (delete_step op_id now id reply ms e) h =
        delete_local-Sound fl st r op_id now id h e
    Step-Sound r r' (operation_step now payload e) h = on_operation-Sound r now payload h e
    Step-Sound r r' (response_step now payload e) h =
        under_test _ r _ h (handle_sync_response-Sound fl st r now _ h) e
    Step-Sound r r' (force_step reply ms e) h = request_sync-Sound fl st r h e
    Step-Sound r r' (attach_step refused network_id reply ms e) h =
        attach-Sound refused r network_id h e
    Step-Sound r r' detach_step h = detach-Sound r h
    Step-Sound r r' (timeout_step network_id) h = clear_flag-Sound r network_id h
    Step-Sound r r' (storage_step s) h = store-Sound fl st r s h

    -- Whatever local changes, messages, attachments, detachments and timeouts a collection has been
    -- through, its log has at most 10,000 operations, the bound that it was made with, and the sync
    -- state of the network that it is attached to is there.
    pub reachable-Sound :
        (own_id name : String) (s : State) (r : Replica fl st)
        → Reachable fl st read_operation own_id name s r
        → Sound fl st r
    unfolding new_distributed_collection
    reachable-Sound own_id name s r start = record {
      synced = λ e. cc;
      bounded = omega arith;
      bound = refl;
    }
    reachable-Sound own_id name s r (after {r = q} before step) =
        Step-Sound q r step (reachable-Sound own_id name s q before)
