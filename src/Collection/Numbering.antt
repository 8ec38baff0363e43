-- ===== src/Collection/Numbering.antt =====
-- The own counters of the operations in a collection's log (collection/distributed_collection.go).
use knirvbase.Base.{
  ℕ, zero, suc, ◌-◌, String, ◌≡◌, false, some, List, [], ◌∷◌, ◌++◌, ltb, length, drop, All, ◌==◌,
  arith, Bool-cases, inl, inr,
}
use knirvbase.Base.Int.{ℤ, pos, ◌<ℤ◌, add64-one-lt, IsInt64, max_int64}
use knirvbase.GoMap.{lookup, IsMap}
use knirvbase.Call.{done}
use knirvbase.Store.{Store}
use knirvbase.Floats.{Floats}
use knirvbase.Value.{Value}
use knirvbase.Clock.{at, increment}
use knirvbase.Types.{DistributedDocument, SyncState, OperationType}
use knirvbase.Collection.{
  Operation, operation_message, Replica, prune_operation_log, broadcast_operation, operation,
}
use knirvbase.Collection.Announce.{
  vector-current, at-increment, broadcasted, broadcast-broadcasted, lookup-broadcasted,
}

module _ (fl : Floats) (st : Store fl) where
  open fl use {Float}

  -- Each operation has a smaller counter of the peer p than those behind it.
  abbrev pub IsIncreasing : String → List (Operation fl st) → Type 0
  IsIncreasing p [] = Unit
  IsIncreasing p (op ∷ ops) = All (λ o. at op.vector p <ℤ at o.vector p) ops × IsIncreasing p ops

  -- The log has increasing counters of the peer itself, all of them below its counter for the network.
  abbrev pub IsNumbered : Replica fl st → SyncState (Value Float) → Type 0
  IsNumbered r s =
      All (λ o. at o.vector r.peer_id <ℤ at s.local_vector r.peer_id) r.operation_log
      × IsIncreasing r.peer_id r.operation_log

  All-drop :
      (P : Operation fl st → Type 0) (n : ℕ) (ops : List (Operation fl st))
      → All P ops
      → All P (drop n ops)
  All-drop P zero ops h = h
  All-drop P (suc n) [] h = tt
  All-drop P (suc n) (o ∷ ops) h = All-drop P n ops h.1

  IsIncreasing-drop :
      (p : String) (n : ℕ) (ops : List (Operation fl st))
      → IsIncreasing p ops
      → IsIncreasing p (drop n ops)
  IsIncreasing-drop p zero ops h = h
  IsIncreasing-drop p (suc n) [] h = tt
  IsIncreasing-drop p (suc n) (o ∷ ops) h = IsIncreasing-drop p n ops h.1

  All-snoc :
      (P : Operation fl st → Type 0) (ops : List (Operation fl st)) (op : Operation fl st)
      → All P ops
      → P op
      → All P (ops ++ op ∷ [])
  All-snoc P [] op h p = (p, tt)
  All-snoc P (o ∷ ops) op h p = (h.0, All-snoc P ops op h.1 p)

  All-weaken :
      (P Q : Operation fl st → Type 0)
      → ((o : Operation fl st) → P o → Q o)
      → (ops : List (Operation fl st)) → All P ops
      → All Q ops
  All-weaken P Q f [] h = tt
  All-weaken P Q f (o ∷ ops) h = (f o h.0, All-weaken P Q f ops h.1)

  IsIncreasing-snoc :
      (p : String) (ops : List (Operation fl st)) (op : Operation fl st)
      → All (λ o. at o.vector p <ℤ at op.vector p) ops
      → IsIncreasing p ops
      → IsIncreasing p (ops ++ op ∷ [])
  IsIncreasing-snoc p [] op below h = (tt, tt)
  IsIncreasing-snoc p (o ∷ ops) op below h = (
    All-snoc (λ o'. at o.vector p <ℤ at o'.vector p) ops op h.0 below.0,
    IsIncreasing-snoc p ops op below.1 h.1,
  )

  prune-All :
      (P : Operation fl st → Type 0) (n : ℕ) (ops : List (Operation fl st))
      → All P ops
      → All P (prune_operation_log fl st n ops)
  unfolding prune_operation_log
  prune-All P n ops h = elim (Bool-cases (ltb n (length ops))) [
    | inl e ↦ rw e (All-drop P (length ops - n) ops h)
    | inr e ↦ rw e h
  ]

  prune-IsIncreasing :
      (p : String) (n : ℕ) (ops : List (Operation fl st))
      → IsIncreasing p ops
      → IsIncreasing p (prune_operation_log fl st n ops)
  unfolding prune_operation_log
  prune-IsIncreasing p n ops h = elim (Bool-cases (ltb n (length ops))) [
    | inl e ↦ rw e (IsIncreasing-drop p (length ops - n) ops h)
    | inr e ↦ rw e h
  ]

  -- In an attached collection whose clock is a map with an int64 counter of the peer itself below
  -- the greatest, the broadcast of the operation that a local change makes, whatever its kind,
  -- keeps the log numbered: the counters of the log rise, and the peer's counter for the network is
  -- above them all.
  pub broadcast-IsNumbered :
      (r : Replica fl st) (s : SyncState (Value Float)) (t : OperationType) (op_id : String)
      (now : ℤ) (id : String) (d : DistributedDocument (Value Float))
      → (r.network_id == "") ≡ false
      → lookup r.network_id r.sync_states ≡ some s
      → IsMap s.local_vector
      → IsInt64 (at s.local_vector r.peer_id)
      → at s.local_vector r.peer_id <ℤ pos max_int64
      → IsNumbered r s
      → let op = operation fl st r t op_id now id d in
        (r' : Replica fl st) × (s' : SyncState (Value Float)) × (broadcast_operation fl st r op
          ≡ done (r', operation_message r.network_id op ∷ []))
        × (lookup r.network_id r'.sync_states ≡ some s')
        × IsNumbered r' s'
  broadcast-IsNumbered r s t op_id now id d a h m bounded below numbered =
      let p = r.peer_id in
      let op = operation fl st r t op_id now id d in
      let s' : SyncState (Value Float) = record s { local_vector = increment s.local_vector p } in
      let same : at op.vector p ≡ at s.local_vector p = vector-current fl st r s p a h m in
      let step : at s.local_vector p <ℤ at s'.local_vector p =
        rw (at-increment fl st s.local_vector p)
          (add64-one-lt (at s.local_vector p) bounded below).0 in
      let later : All (λ o. at o.vector p <ℤ at s'.local_vector p) (r.operation_log ++ op ∷ []) =
        All-snoc (λ o. at o.vector p <ℤ at s'.local_vector p) r.operation_log op
          (All-weaken (λ o. at o.vector p <ℤ at s.local_vector p)
            (λ o. at o.vector p <ℤ at s'.local_vector p) (λ o l. omega (arith, l, step))
            r.operation_log numbered.0)
          (rw same step) in
      let rising : IsIncreasing p (r.operation_log ++ op ∷ []) =
        IsIncreasing-snoc p r.operation_log op
          (All-weaken (λ o. at o.vector p <ℤ at s.local_vector p)
            (λ o. at o.vector p <ℤ at op.vector p) (λ o l. rw same l) r.operation_log numbered.0)
          numbered.1 in
      (
        broadcasted fl st r op s,
        s',
        broadcast-broadcasted fl st r op s a h,
        lookup-broadcasted fl st r op s,
        (
          prune-All (λ o. at o.vector p <ℤ at s'.local_vector p) r.max_log_size _ later,
          prune-IsIncreasing p r.max_log_size _ rising,
        ),
      )
