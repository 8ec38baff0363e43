-- ===== src/Collection/Attached/Serves.antt =====
-- What an attached collection does without a panic, and a sync request that it panics on when it is not
-- attached (collection/distributed_collection.go).
use knirvbase.Base.{
  String, ◌≡◌, refl, ap, false, some, none, List, [], ◌==◌, if◌then◌else◌, arith, eq_refl,
  Option-cases, inl, inr,
}
use knirvbase.GoMap.{lookup}
use knirvbase.Call.{Call, done, panicked, ◌>>=◌}
use knirvbase.Floats.{Floats}
use knirvbase.Value.{Value}
use knirvbase.Clock.{VectorClock}
use knirvbase.Types.{SyncState}
use knirvbase.Store.{Store}
use knirvbase.Collection.{Operation, Replica, fails, not_attached, sync_state, broadcast_operation}
use knirvbase.Collection.Sync.{merge_vector, end_sync, request_sync, handle_sync_request}
use knirvbase.Collection.Handlers.{on_sync_request, collection_name, fields_or_none}
use knirvbase.Collection.Steps.{Reachable}
use knirvbase.Collection.Attached.{Sound}
use knirvbase.Collection.Attached.History.{reachable-Sound}

-- the call returns
abbrev pub Returns : {A : Type 0} → Call A → Type 0
Returns {A} m = (a : A) × (m ≡ done a)

module _ (fl : Floats) (st : Store fl) where
  open fl use {Float}
  open st use {State}

  pub sync_state-there :
      (r : Replica fl st)
      → Sound fl st r
      → (r.network_id == "") ≡ false
      → (s : SyncState (Value Float)) × (sync_state fl st r ≡ done s)
  unfolding sync_state
  sync_state-there r h a = elim (Option-cases (lookup r.network_id r.sync_states)) [
    | inl none_there ↦ let there = h.synced a in absurd (ground (arith, none_there, there))
    | inr (s, there) ↦ (s, rw (there, sync_state) refl)
  ]

  state-Returns :
      {A : Type 0} (r : Replica fl st) (s : SyncState (Value Float))
      (f : SyncState (Value Float) → A)
      → sync_state fl st r ≡ done s
      → Returns (sync_state fl st r >>= λ s. done (f s))
  state-Returns r s f e = (f s, ap (λ m. m >>= λ s. done (f s)) e)

  attached-Returns :
      {A : Type 0} (r : Replica fl st) (idle : Call A) (m : Call A)
      → (r.network_id == "") ≡ false
      → Returns m
      → Returns (if r.network_id == "" then idle else m)
  attached-Returns r idle m a h = rw a h

  -- Whatever an attached collection has been through, it can broadcast an operation, merge a clock, end
  -- a synchronization, ask for one and answer a request for one, all without a panic.
  pub reachable_serves :
      (read_operation : Value Float → Operation fl st) (own_id name : String) (s : State)
      (r : Replica fl st) (op : Operation fl st) (v : VectorClock) (sender : String)
      (vector : List (String × Value Float))
      → Reachable fl st read_operation own_id name s r
      → (r.network_id == "") ≡ false
      → Returns (broadcast_operation fl st r op)
        × Returns (merge_vector fl st r v)
        × Returns (end_sync fl st r)
        × Returns (request_sync fl st r)
        × Returns (handle_sync_request fl st r sender vector)
  unfolding broadcast_operation merge_vector request_sync handle_sync_request
  reachable_serves read_operation own_id name s r op v sender vector reached a =
      let (state, e) =
        sync_state-there r (reachable-Sound fl st read_operation own_id name s r reached) a in
      (
        attached-Returns r (done (r, [])) _ a (state-Returns r state _ e),
        attached-Returns r (done r) _ a (state-Returns r state _ e),
        attached-Returns r (done r) _ a (state-Returns r state _ e),
        attached-Returns r (done (fails not_attached, r, [])) _ a (state-Returns r state _ e),
        state-Returns r state _ e,
      )

  -- A sync request that names a collection makes it panic, if it is not attached and has no sync state
  -- for a network without a name.
  pub sync_request_panics :
      (r : Replica fl st) (sender : String) (payload : Value Float)
      → collection_name fl st (fields_or_none fl st (some payload)) ≡ r.name
      → r.network_id ≡ ""
      → lookup "" r.sync_states ≡ none
      → on_sync_request fl st r sender payload ≡ panicked
  unfolding on_sync_request handle_sync_request sync_state
  sync_request_panics r sender payload named detached stateless =
      let same : lookup r.network_id r.sync_states ≡ none = rw detached stateless in
      let no_state : sync_state fl st r ≡ panicked = rw (same, sync_state) refl in
      rw (named, eq_refl r.name, no_state) refl
