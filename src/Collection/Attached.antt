-- ===== src/Collection/Attached.antt =====
-- The invariant of a collection (collection/distributed_collection.go): the sync state of the network
-- that it is attached to is there, and the log is bounded.
pub mod Received
pub mod History
pub mod Serves
use knirvbase.Base.{
  ℕ, ◌≤◌, String, ◌≡◌, refl, sym, ap, ◌∙◌, subst, true, false, Option, none, some, List, [], ◌∷◌,
  ◌++◌, ◌==◌, if◌then◌else◌, length, arith, is_some, ltb, eq_refl, Bool-cases, Option-cases, inl,
  inr,
}
use knirvbase.Base.Int.{ℤ}
use knirvbase.GoMap.{GoMap, nil, made, get, lookup, insert}
use knirvbase.GoMap.Laws.{lookup-insert}
use knirvbase.Result.{Result, ok, err}
use knirvbase.Call.{Call, done, ◌>>=◌, of_outcome, bind-done, done-injective}
use knirvbase.Floats.{Floats}
use knirvbase.Value.{Value, as_string}
use knirvbase.Clock.{VectorClock}
use knirvbase.Types.{SyncState, DistributedDocument}
use knirvbase.Resolver.{to_distributed, apply_operation}
use knirvbase.Store.{Store}
use knirvbase.Collection.Local.{insert_copy, update_copy, delete_copy, find_copy}
use knirvbase.Collection.{
  Operation, Message, Replica, Reply, Changed, gives, fails, no_id, not_attached, or_nil,
  new_distributed_collection, sync_state, set_sync_state, broadcast_operation, announce_insert,
  after_insert, insert_local, announce_update, after_update, update_local, announce_delete,
  after_delete, delete_local, sent,
}
use knirvbase.Collection.Announce.{prune-bound}
use knirvbase.Collection.Sync.{
  existing_document, store_result, merge_vector, handle_remote_operation, handle_operations,
  end_sync, handle_sync_response, request_sync, attach_to_network, detach_from_network, clear_flag,
}

module _ (fl : Floats) (st : Store fl) where
  open fl use {Float}
  open st use {State}

  -- The sync state of the network of an attached collection is there, and its log is no longer than
  -- its bound, which is 10,000.
  pub record Sound (r : Replica fl st) : Type 0 where
    pub synced : (r.network_id == "") ≡ false → is_some (lookup r.network_id r.sync_states) ≡ true
    pub bounded : length r.operation_log ≤ r.max_log_size
    pub bound : r.max_log_size ≡ 10000

  pub found_after_insert :
      {V : Type 0} (k : String) (v : V) (m : List (String × V))
      → is_some (lookup k (insert k v m)) ≡ true
  found_after_insert k v m = ground (arith, lookup-insert k k v m, eq_refl k)

  pub set_sync_state-Sound :
      (r : Replica fl st) (s : SyncState (Value Float)) → Sound r → Sound (set_sync_state fl st r s)
  set_sync_state-Sound r s h = record {
    synced = λ _. found_after_insert r.network_id s r.sync_states;
    bounded = h.bounded;
    bound = h.bound;
  }

  pub store-Sound : (r : Replica fl st) (s : State) → Sound r → Sound (record r { store = s })
  store-Sound r s h = record { synced = h.synced; bounded = h.bounded; bound = h.bound }

  -- a part of a method that runs only on an attached collection
  pub when_attached :
      {A : Type 0} (P : A → Type 0) (r : Replica fl st) (a : A) (m : Call A) {x : A}
      → P a
      → (m ≡ done x → P x)
      → (if r.network_id == "" then done a else m) ≡ done x
      → P x
  when_attached P r a m idle attached e = elim (Bool-cases (r.network_id == "")) [
    | inl b ↦ subst P (ground (arith, b, e)) idle
    | inr b ↦ attached (ground (arith, b, e))
  ]

  -- what a call is done with has a property, if what it returns has it
  pub mapped :
      {A B : Type 0} (P : B → Type 0) (m : Call A) (f : A → B) {x : B}
      → ((a : A) → P (f a))
      → (m >>= λ a. done (f a)) ≡ done x
      → P x
  mapped P m f h e =
      let (a, e1, e2) = bind-done m (λ a. done (f a)) e in subst P (done-injective e2) (h a)

  broadcast-Sound :
      (r : Replica fl st) (op : Operation fl st) {x : Replica fl st × List (Message fl st)}
      → Sound r
      → broadcast_operation fl st r op ≡ done x
      → Sound (x.0)
  unfolding broadcast_operation
  broadcast-Sound r op h =
      when_attached (λ x. Sound (x.0)) r (r, []) _ h
        (mapped (λ x. Sound (x.0)) (sync_state fl st r) _
          λ s. record {
            synced = λ _. found_after_insert r.network_id _ r.sync_states;
            bounded = prune-bound fl st r.max_log_size (r.operation_log ++ op ∷ []);
            bound = h.bound;
          })

  -- the replica that a local change leaves
  abbrev pub SoundAfter : {A : Type 0} → Changed fl st A → Type 0
  SoundAfter c = Sound (c.1)

  sent-Sound :
      {A : Type 0} (a : A) (r : Replica fl st) (op : Operation fl st) {c : Changed fl st A}
      → Sound r
      → (broadcast_operation fl st r op >>= sent fl st a) ≡ done c
      → SoundAfter c
  sent-Sound a r op h e =
      let (x, e1, e2) = bind-done (broadcast_operation fl st r op) (sent fl st a) e in
      subst SoundAfter (done-injective e2) (broadcast-Sound r op h e1)

  announce_insert-Sound :
      (r : Replica fl st) (op_id : String) (now : ℤ) (doc : GoMap (Value Float)) (id : String)
      {c : Changed fl st (GoMap (Value Float))}
      → Sound r
      → announce_insert fl st r op_id now doc id ≡ done c
      → SoundAfter c
  unfolding announce_insert
  announce_insert-Sound r op_id now doc id h =
      when_attached SoundAfter r (gives doc, r, []) _ h
        λ e.
          let (d, e1, e2) =
            bind-done (of_outcome (to_distributed as_string now doc r.peer_id)) _ e in
          sent-Sound doc r _ h e2

  after_insert-Sound :
      (r : Replica fl st) (op_id : String) (now : ℤ) (id : String)
      (o : State × Result (GoMap (Value Float))) {c : Changed fl st (GoMap (Value Float))}
      → Sound r
      → after_insert fl st r op_id now id o ≡ done c
      → SoundAfter c
  after_insert-Sound r op_id now id (s, ok doc) h e =
      announce_insert-Sound (record r { store = s }) op_id now doc id (store-Sound r s h) e
  after_insert-Sound r op_id now id (s, err t) h e =
      subst SoundAfter (done-injective e) (store-Sound r s h)

  pub insert_local-Sound :
      (r : Replica fl st) (op_id : String) (now : ℤ) (doc : GoMap (Value Float))
      {c : Changed fl st (GoMap (Value Float))}
      → Sound r
      → insert_local fl st r op_id now doc ≡ done c
      → SoundAfter c
  unfolding insert_local
  insert_local-Sound r op_id now doc h e = elim (Option-cases (get doc "id")) [
    | inl none_there ↦
        let same : insert_local fl st r op_id now doc ≡ done (fails no_id, r, []) =
          rw (none_there, insert_local) refl in
        subst SoundAfter (done-injective (sym same ∙ e)) h
    | inr (v, there) ↦ elim (Option-cases (as_string v)) [
      | inl no_text ↦
          let same : insert_local fl st r op_id now doc ≡ done (fails no_id, r, []) =
            rw (there, insert_local, no_text, insert_local) refl in
          subst SoundAfter (done-injective (sym same ∙ e)) h
      | inr (id, text) ↦
          let same : insert_local fl st r op_id now doc ≡ (
              insert_copy fl st r.store r.name doc >>= λ o. after_insert fl st r op_id now id o) =
            rw (there, insert_local, text, insert_local) refl in
          let (o, e1, e2) = bind-done (insert_copy fl st r.store r.name doc) _ (sym same ∙ e) in
          after_insert-Sound r op_id now id o h e2
    ]
  ]

  -- the part behind a local change that is announced where a document is affected
  when_affected :
      (r : Replica fl st) (affected : ℕ) (m : Call (Changed fl st ℕ)) {c : Changed fl st ℕ}
      → Sound r
      → (m ≡ done c → SoundAfter c)
      → (if r.network_id == ""
          then done (gives affected, r, [])
          else if ltb 0 affected
          then m
          else done (gives affected, r, []))
        ≡ done c
      → SoundAfter c
  when_affected r affected m {c} h attached =
      when_attached SoundAfter r (gives affected, r, []) _ h
        λ e. elim (Bool-cases (ltb 0 affected)) [
          | inl b ↦ attached (ground (arith, b, e))
          | inr b ↦
              let same : ◌≡◌ {A = Changed fl st ℕ} (gives affected, r, []) c =
                ground (arith, b, e) in
              subst SoundAfter same h
        ]

  pub update_local-Sound :
      (r : Replica fl st) (op_id : String) (now : ℤ) (id : String) (update : GoMap (Value Float))
      {c : Changed fl st ℕ}
      → Sound r
      → update_local fl st r op_id now id update ≡ done c
      → SoundAfter c
  unfolding update_local announce_update
  update_local-Sound r op_id now id update {c} h e =
      let (o, e1, e2) = bind-done (update_copy fl st r.store r.name id update) _ e in go o e2
    where
      go : (o : State × Result ℕ) → after_update fl st r op_id now id o ≡ done c → SoundAfter c
      go (s, err t) e = subst SoundAfter (done-injective e) (store-Sound r s h)
      go (s, ok affected) e =
          let r' = record r { store = s } in
          when_affected r' affected _ (store-Sound r s h)
            (λ e.
              let (found, e1, e2) = bind-done (find_copy fl st s r.name id) _ e in
              let (d, e3, e4) =
                bind-done (of_outcome (to_distributed as_string now (or_nil fl st found) r.peer_id))
                  _ e2 in
              sent-Sound affected r' _ (store-Sound r s h) e4)
            e

  pub delete_local-Sound :
      (r : Replica fl st) (op_id : String) (now : ℤ) (id : String) {c : Changed fl st ℕ}
      → Sound r
      → delete_local fl st r op_id now id ≡ done c
      → SoundAfter c
  unfolding delete_local announce_delete
  delete_local-Sound r op_id now id {c} h e =
      let (o, e1, e2) = bind-done (delete_copy fl st r.store r.name id) _ e in go o e2
    where
      go : (o : State × Result ℕ) → after_delete fl st r op_id now id o ≡ done c → SoundAfter c
      go (s, err t) e = subst SoundAfter (done-injective e) (store-Sound r s h)
      go (s, ok affected) e =
          let r' = record r { store = s } in
          when_affected r' affected _ (store-Sound r s h)
            (λ e. sent-Sound affected r' _ (store-Sound r s h) e) e
