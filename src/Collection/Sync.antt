-- ===== src/Collection/Sync.antt =====
-- go/internal/collection/distributed_collection.go: remote operations, the exchange of missing
-- operations between peers, with the timer that ends it (clear_flag), and the networks that a
-- collection is attached to and detached from. Whether the network refuses it is an argument.
use knirvbase.Base.{String, true, false, Option, none, some, List, [], ◌∷◌, if◌then◌else◌, ◌==◌}
use knirvbase.Base.Int.{ℤ, ltb_ℤ}
use knirvbase.GoMap.{GoMap, nil, made, lookup, insert, remove}
use knirvbase.Call.{Call, done, ◌>>=◌, of_outcome}
use knirvbase.Store.{Store}
use knirvbase.Collection.Local.{insert_copy, delete_copy, find_copy}
use knirvbase.Floats.{Floats}
use knirvbase.Value.{Value, as_string, int, float}
use knirvbase.Clock.{VectorClock, new_vector_clock, merge, at}
use knirvbase.Types.{DistributedDocument}
use knirvbase.Resolver.{apply_operation, to_distributed, to_regular}
use knirvbase.Collection.{
  Operation, Message, sync_request, sync_response, Replica, Changed, gives, fails, already_attached,
  network_refused, not_attached, sync_state, set_sync_state, or_nil,
}

module _ (fl : Floats) (st : Store fl) where
  open fl use {Float, truncate}
  open st use {State}

  -- the local document as the resolver takes it: with the operation's peer as its author
  abbrev pub existing_document :
      ℤ → GoMap (Value Float) → String → Call (Option (DistributedDocument (Value Float)))
  existing_document now nil peer = done none
  existing_document now (made es) peer = do
    d ← of_outcome (to_distributed as_string now (made es) peer)
    done (some d)

  -- the local change for the document that the resolver returned; its error is dropped
  abbrev pub store_result :
      State → String → String → Option (DistributedDocument (Value Float)) → Call State
  store_result s name id none = do r ← delete_copy fl st s name id; done (r.0)
  store_result s name id (some d) =
      if d.deleted
      then (do r ← delete_copy fl st s name id; done (r.0))
      else (do r ← insert_copy fl st s name (to_regular (some d)); done (r.0))

  -- the operation's clock merged into that of the network
  unfoldable pub merge_vector : Replica fl st → VectorClock → Call (Replica fl st)
  unfolding sync_state
  merge_vector r v = if r.network_id == "" then done r else (do
    s ← sync_state fl st r
    done (set_sync_state fl st r (record s { local_vector = merge s.local_vector v })))

  unfoldable pub handle_remote_operation :
      Replica fl st → ℤ → Operation fl st → Call (Replica fl st)
  unfolding merge_vector insert_copy delete_copy find_copy
  handle_remote_operation r now op = do
    found ← find_copy fl st r.store r.name op.document_id
    existing ← existing_document now (or_nil fl st found) op.peer_id
    result ← of_outcome (apply_operation existing op)
    s ← store_result r.store r.name op.document_id result
    merge_vector (record r { store = s }) op.vector

  unfoldable pub request_sync : Replica fl st → Call (Changed fl st (Unit {0}))
  unfolding sync_state
  request_sync r = if r.network_id == "" then done (fails not_attached, r, []) else (do
    s ← sync_state fl st r
    done (
        if s.sync_in_progress then (gives tt, r, []) else (
          gives tt,
          set_sync_state fl st r (record s { sync_in_progress = true }),
          sync_request r.network_id s.local_vector ∷ [],
        )))

  -- `refused`: the error of the network, if it does not take the collection up
  unfoldable pub attach_to_network :
      Option String → Replica fl st → String → Call (Changed fl st (Unit {0}))
  unfolding request_sync
  attach_to_network refused r network_id =
      if r.network_id == ""
      then elim refused [
        | some e ↦ done (fails (network_refused e), r, [])
        | none ↦ request_sync (record r {
          network_id = network_id;
          sync_states =
              insert network_id
                (record {
                  collection = r.name;
                  network_id = network_id;
                  local_vector = new_vector_clock;
                  pending_operations = [];
                  staged_entries = [];
                  sync_in_progress = false;
                })
                r.sync_states;
        })
      ]
      else done (fails already_attached, r, [])

  unfoldable pub detach_from_network : Replica fl st → Replica fl st
  detach_from_network r =
      if r.network_id == ""
      then r
      else record r { sync_states = remove r.network_id r.sync_states; network_id = "" }

  -- the numbers of a decoded clock; other values are left out
  unfoldable pub read_vector : List (String × Value Float) → List (String × ℤ)
  read_vector [] = []
  read_vector ((k, float x) ∷ es) = insert k (truncate x) (read_vector es)
  read_vector ((k, int n) ∷ es) = insert k n (read_vector es)
  read_vector ((k, v) ∷ es) = read_vector es

  unfoldable pub missing_operations : VectorClock → List (Operation fl st) → List (Operation fl st)
  missing_operations rv [] = []
  missing_operations rv (op ∷ ops) =
      let rest = missing_operations rv ops in
      if ltb_ℤ (at rv op.peer_id) (at op.vector op.peer_id) then op ∷ rest else rest

  unfoldable pub handle_sync_request :
      Replica fl st → String → List (String × Value Float) → Call (Message fl st)
  unfolding read_vector missing_operations sync_state
  handle_sync_request r sender vector = do
    s ← sync_state fl st r
    done (
        sync_response sender (missing_operations (made (read_vector vector)) r.operation_log)
          s.local_vector)

  unfoldable pub handle_operations :
      Replica fl st → ℤ → List (Operation fl st) → Call (Replica fl st)
  unfolding handle_remote_operation
  handle_operations r now [] = done r
  handle_operations r now (op ∷ ops) = do
    r' ← handle_remote_operation r now op
    handle_operations r' now ops

  abbrev pub end_sync : Replica fl st → Call (Replica fl st)
  end_sync r = if r.network_id == "" then done r else (do
    s ← sync_state fl st r
    done (set_sync_state fl st r (record s { sync_in_progress = false })))

  unfoldable pub handle_sync_response :
      Replica fl st → ℤ → List (Operation fl st) → Call (Replica fl st)
  unfolding handle_operations sync_state
  handle_sync_response r now ops = do r' ← handle_operations r now ops; end_sync r'

  -- The goroutine of requestSync, ten seconds later. It holds the sync state itself: one that is no
  -- longer the state of a network of the collection is left to it; after a detachment and another
  -- attachment to the same network this clears the flag of the new state, which the program leaves.
  unfoldable pub clear_flag : Replica fl st → String → Replica fl st
  clear_flag r network_id = elim (lookup network_id r.sync_states) [
    | none ↦ r
    | some s ↦ record r {
      sync_states = insert network_id (record s { sync_in_progress = false }) r.sync_states;
    }
  ]
