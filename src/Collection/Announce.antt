-- ===== src/Collection/Announce.antt =====
-- What a local change announces to the other peers (collection/distributed_collection.go).
use knirvbase.Base.{
  ℕ, eq_refl, ◌-◌, ◌≤◌, String, ◌≡◌, refl, ap, ◌∙◌, false, none, some, List, [], ◌∷◌, ◌++◌,
  if◌then◌else◌, ◌==◌, ltb, length, length-drop, arith, Bool-cases, inl, inr,
}
use knirvbase.Base.Int.{ℤ, pos, add64}
use knirvbase.GoMap.{GoMap, nil, made, entries, get, lookup, insert, IsMap}
use knirvbase.GoMap.Laws.{lookup-insert, lookup-insert_all, or_else-none}
use knirvbase.Outcome.{returns}
use knirvbase.Call.{done, ◌>>=◌}
use knirvbase.Store.{Store}
use knirvbase.Floats.{Floats}
use knirvbase.Value.{Value, as_string, str}
use knirvbase.Clock.{VectorClock, at, or_zero, clone, increment}
use knirvbase.Types.{DistributedDocument, SyncState, op_insert}
use knirvbase.Resolver.{to_distributed, clone_map}
use knirvbase.Collection.Local.{insert_copy, insert_copy-accepted}
use knirvbase.Collection.{
  Operation, operation_message, Replica, prune_operation_log, get_current_vector, sync_state,
  set_sync_state, broadcast_operation, operation, announce_insert, after_insert, insert_local,
  entry_type_of, sent,
}

module _ (fl : Floats) (st : Store fl) where
  open fl use {Float}
  open st use {State, insert_doc}

  -- The log keeps at most as many operations as its bound, and they are the last ones.
  pub prune-bound :
      (n : ℕ) (log : List (Operation fl st)) → length (prune_operation_log fl st n log) ≤ n
  unfolding prune_operation_log
  prune-bound n log = elim (Bool-cases (ltb n (length log))) [
    | inl e ↦ rw e (ground (arith, length-drop (length log - n) log, e))
    | inr e ↦ rw e (ground (arith, e))
  ]

  at-clone : (c : VectorClock) (k : String) → IsMap c → at (clone c) k ≡ at c k
  unfolding clone lookup
  at-clone nil k m = refl
  at-clone (made es) k m = ap or_zero (lookup-insert_all k es [] m ∙ or_else-none (lookup k es))

  pub vector-current :
      (r : Replica fl st) (s : SyncState (Value Float)) (k : String)
      → (r.network_id == "") ≡ false
      → lookup r.network_id r.sync_states ≡ some s
      → IsMap s.local_vector
      → at (get_current_vector fl st r) k ≡ at s.local_vector k
  unfolding get_current_vector
  vector-current r s k a h m = rw (a, h) (at-clone s.local_vector k m)

  pub at-increment : (c : VectorClock) (k : String) → at (increment c k) k ≡ add64 (at c k) (pos 1)
  unfolding increment
  at-increment c k = ap or_zero (
      lookup-insert k k (add64 (at c k) (pos 1)) (entries c)
      ∙ ap (λ b. if b then some (add64 (at c k) (pos 1)) else lookup k (entries c)) (eq_refl k))

  -- the replica that has broadcast an operation
  abbrev pub broadcasted : Replica fl st → Operation fl st → SyncState (Value Float) → Replica fl st
  broadcasted r op s =
      record (set_sync_state fl st r
        (record s { local_vector = increment s.local_vector r.peer_id })) {
          operation_log = prune_operation_log fl st r.max_log_size (r.operation_log ++ op ∷ []);
        }

  pub broadcast-broadcasted :
      (r : Replica fl st) (op : Operation fl st) (s : SyncState (Value Float))
      → (r.network_id == "") ≡ false
      → lookup r.network_id r.sync_states ≡ some s
      → broadcast_operation fl st r op
        ≡ done (broadcasted r op s, operation_message r.network_id op ∷ [])
  unfolding broadcast_operation
  broadcast-broadcasted r op s a h = simp (broadcast_operation, sync_state, a, h)

  pub lookup-broadcasted :
      (r : Replica fl st) (op : Operation fl st) (s : SyncState (Value Float))
      → lookup r.network_id (broadcasted r op s).sync_states
        ≡ some (record s { local_vector = increment s.local_vector r.peer_id })
  lookup-broadcasted r op s =
      let s' : SyncState (Value Float) = record s {
        local_vector = increment s.local_vector r.peer_id;
      } in
      lookup-insert r.network_id r.network_id s' r.sync_states
      ∙ ap (λ b. if b then some s' else lookup r.network_id r.sync_states) (eq_refl r.network_id)

  -- A broadcast of an attached collection puts the operation at the end of its log, of which it keeps
  -- no more than the bound, sends it, and adds one to the peer's own counter.
  pub broadcast_attached :
      (r : Replica fl st) (op : Operation fl st) (s : SyncState (Value Float))
      → (r.network_id == "") ≡ false
      → lookup r.network_id r.sync_states ≡ some s
      → (r' : Replica fl st) × (broadcast_operation fl st r op
          ≡ done (r', operation_message r.network_id op ∷ []))
        × (r'.operation_log ≡ prune_operation_log fl st r.max_log_size (r.operation_log ++ op ∷ []))
        × (length r'.operation_log ≤ r.max_log_size)
        × ((s' : SyncState (Value Float)) × (lookup r.network_id r'.sync_states ≡ some s')
            × (at s'.local_vector r.peer_id ≡ add64 (at s.local_vector r.peer_id) (pos 1)))
  broadcast_attached r op s a h = (
    broadcasted r op s,
    broadcast-broadcasted r op s a h,
    refl,
    prune-bound r.max_log_size (r.operation_log ++ op ∷ []),
    (
      record s { local_vector = increment s.local_vector r.peer_id },
      lookup-broadcasted r op s,
      at-increment s.local_vector r.peer_id,
    ),
  )

  pub to_distributed_returns :
      (now : ℤ) (doc : GoMap (Value Float)) (peer id : String)
      → get doc "id" ≡ some (str id)
      → (d : DistributedDocument (Value Float)) × (to_distributed as_string now doc peer
          ≡ returns d)
  unfolding to_distributed
  to_distributed_returns now doc peer id has = (
    record {
      id = id;
      entry_type = "";
      payload = clone_map doc;
      vector = made (insert peer (pos 1) []);
      timestamp = now;
      peer_id = peer;
      stage = "";
      deleted = false;
    },
    rw (has, to_distributed) refl,
  )

  -- Behind an insertion that the storage accepts there is only its announcement.
  pub insert_local-accepted :
      (r : Replica fl st) (op_id : String) (now : ℤ) (doc : GoMap (Value Float)) (id : String)
      (s : State)
      → get doc "id" ≡ some (str id)
      → insert_doc r.store r.name doc ≡ done (s, none)
      → insert_local fl st r op_id now doc
        ≡ announce_insert fl st (record r { store = s }) op_id now doc id
  unfolding insert_local
  insert_local-accepted r op_id now doc id s has accepted =
      let split : insert_local fl st r op_id now doc
          ≡ (insert_copy fl st r.store r.name doc >>= λ o. after_insert fl st r op_id now id o) =
        rw (has, insert_local) refl in
      split
      ∙ ap (λ o. o >>= λ o. after_insert fl st r op_id now id o)
          (insert_copy-accepted fl st r.store s r.name doc accepted)

  pub announce_insert-broadcast :
      (r : Replica fl st) (op_id : String) (now : ℤ) (doc : GoMap (Value Float)) (id : String)
      (d : DistributedDocument (Value Float))
      → (r.network_id == "") ≡ false
      → to_distributed as_string now doc r.peer_id ≡ returns d
      → announce_insert fl st r op_id now doc id ≡ (
          broadcast_operation fl st r (
            operation fl st r op_insert op_id now id
              (record d { entry_type = entry_type_of fl st doc }))
          >>= sent fl st doc)
  unfolding announce_insert
  announce_insert-broadcast r op_id now doc id d a e = rw (a, e) refl
