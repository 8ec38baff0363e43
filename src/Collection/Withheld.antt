-- ===== src/Collection/Withheld.antt =====
-- The operation of an insertion and the answers to later sync requests
-- (collection/distributed_collection.go, Insert and handleSyncRequest).
use knirvbase.Base.{
  ℕ, String, ◌≡◌, ◌≢◌, refl, ap, ◌∙◌, ◌-◌, ◌≤◌, ◌<◌, true, false, none, some, List, [], ◌∷◌, ◌++◌,
  ◌==◌, ltb, length, length-append, drop, drop-append, arith, All, Bool-cases, Option-cases, inl,
  inr,
}
use knirvbase.Base.Int.{ℤ, pos, ltb_ℤ, ◌≤ℤ◌}
use knirvbase.GoMap.{GoMap, made, get, lookup, IsMap}
use knirvbase.Call.{done, ◌>>=◌}
use knirvbase.Store.{Store}
use knirvbase.Floats.{Floats}
use knirvbase.Value.{Value, str}
use knirvbase.Clock.{VectorClock, at}
use knirvbase.Types.{SyncState, op_insert}
use knirvbase.Collection.{
  gives, Operation, operation_message, Replica, sync_response, prune_operation_log,
  get_current_vector, operation, insert_local, entry_type_of, sent,
}
use knirvbase.Collection.Sync.{read_vector, missing_operations, handle_sync_request}
use knirvbase.Collection.Announce.{
  broadcasted, broadcast-broadcasted, vector-current, to_distributed_returns,
  announce_insert-broadcast, insert_local-accepted,
}

module _ (fl : Floats) (st : Store fl) where
  open fl use {Float}
  open st use {State, insert_doc}

  -- a log that may keep an operation keeps the one that is appended to it, as its last
  prune-last :
      (n : ℕ) (log : List (Operation fl st)) (op : Operation fl st)
      → 0 < n
      → (older : List (Operation fl st)) × (prune_operation_log fl st n (log ++ op ∷ [])
          ≡ older ++ op ∷ [])
  unfolding prune_operation_log
  prune-last n log op h = elim (Bool-cases (ltb n (length (log ++ op ∷ [])))) [
    | inl e ↦
        let k : ℕ = length (log ++ op ∷ []) - n in
        let fits : k ≤ length log = ground (arith, length-append log (op ∷ []), h) in
        (drop k log, rw e (drop-append k log (op ∷ []) fits))
    | inr e ↦ (log, rw e refl)
  ]

  -- an operation that a clock has already counted is not missing from any log
  missing-never :
      (rv : VectorClock) (op : Operation fl st) (log : List (Operation fl st))
      → ltb_ℤ (at rv op.peer_id) (at op.vector op.peer_id) ≡ false
      → All (λ o. o ≢ op) (missing_operations fl st rv log)
  unfolding missing_operations
  missing-never rv op [] h = tt
  missing-never rv op (o ∷ log) h =
      elim (Bool-cases (ltb_ℤ (at rv o.peer_id) (at o.vector o.peer_id))) [
        | inl e ↦ rw e (
          (λ same.
              let newer = e in
              let g : ltb_ℤ (at rv op.peer_id) (at op.vector op.peer_id) ≡ true =
                rw (← same) newer in
              cc),
          missing-never rv op log h,
        )
        | inr e ↦ rw e (missing-never rv op log h)
      ]

  answered :
      (r : Replica fl st) (sender : String) (vector : List (String × Value Float))
      (ops : List (Operation fl st)) (lv : VectorClock)
      → handle_sync_request fl st r sender vector ≡ done (sync_response sender ops lv)
      → missing_operations fl st (made (read_vector fl st vector)) r.operation_log ≡ ops
  unfolding handle_sync_request
  answered r sender vector ops lv h = elim (Option-cases (lookup r.network_id r.sync_states)) [
    | inl e ↦ absurd (let g = h in ground (arith, e, g))
    | inr (s, e) ↦ let g = h in ground (arith, e, g)
  ]

  -- If the clock of an attached collection is a map in which the peer itself has the counter 0, and
  -- the log may keep an operation, the insertion of a document that has a text under "id" and that the
  -- storage takes announces an operation and logs it as the last one, but no later answer to a sync
  -- request has it: whatever the collection's state is then, and whatever clock the request brings, if
  -- it has no negative counter of the peer.
  pub first_operation_withheld :
      (r : Replica fl st) (s : SyncState (Value Float)) (op_id : String) (now : ℤ)
      (doc : GoMap (Value Float)) (id : String) (stored : State) (later : Replica fl st)
      (sender : String) (vector : List (String × Value Float)) (ops : List (Operation fl st))
      (lv : VectorClock)
      → (r.network_id == "") ≡ false
      → lookup r.network_id r.sync_states ≡ some s
      → IsMap s.local_vector
      → at s.local_vector r.peer_id ≡ pos 0
      → 0 < r.max_log_size
      → get doc "id" ≡ some (str id)
      → insert_doc r.store r.name doc ≡ done (stored, none)
      → handle_sync_request fl st later sender vector ≡ done (sync_response sender ops lv)
      → pos 0 ≤ℤ at (made (read_vector fl st vector)) r.peer_id
      → (r' : Replica fl st) × (op : Operation fl st) × (older : List (Operation fl st))
        × (insert_local fl st r op_id now doc
            ≡ done (gives doc, r', operation_message r.network_id op ∷ []))
        × (r'.operation_log ≡ older ++ op ∷ [])
        × All (λ o. o ≢ op) ops
  unfolding get_current_vector
  first_operation_withheld r s op_id now doc id stored later sender vector ops lv a h m z room has
        accepted answer natural =
      let q : Replica fl st = record r { store = stored } in
      let (d, e) = to_distributed_returns fl st now doc r.peer_id id has in
      let op : Operation fl st =
        operation fl st q op_insert op_id now id
          (record d { entry_type = entry_type_of fl st doc }) in
      let rv : VectorClock = made (read_vector fl st vector) in
      let stale : ltb_ℤ (at rv r.peer_id) (at op.vector r.peer_id) ≡ false =
        rw (vector-current fl st q s r.peer_id a h m, z) (ground (arith, natural)) in
      let (older, last) = prune-last r.max_log_size r.operation_log op room in
      (
        broadcasted fl st q op s,
        op,
        older,
        insert_local-accepted fl st r op_id now doc id stored has accepted
            ∙ announce_insert-broadcast fl st q op_id now doc id d a e
            ∙ ap (λ b. b >>= sent fl st doc) (broadcast-broadcasted fl st q op s a h),
        last,
        rw (← answered later sender vector ops lv answer)
            (missing-never rv op later.operation_log stale),
      )
