-- ===== src/Resolver.antt =====
-- go/internal/resolver/crdt_resolver.go. Documents are Go pointers: what the code writes through
-- one is returned as the document's state after the call. The payload maps of two documents are
-- taken to be different maps.
pub mod Resolve
pub mod Apply
pub mod Replicas
use knirvbase.Base.{String, Bool, true, false, Option, none, some, [], if◌then◌else◌, ◌&&◌, not}
use knirvbase.Base.Int.{ℤ, pos, ltb_ℤ}
use knirvbase.Base.Text.{str_ge}
use knirvbase.GoMap.{GoMap, nil, made, entries, get, insert, insert_all, insert_new}
use knirvbase.Outcome.{Outcome, returns, panics, ◌>>=◌}
use knirvbase.Clock.{
  VectorClock, ComparisonResult, equal, before, after, concurrent, is_before, compare, merge, clone,
}
use knirvbase.Types.{
  DistributedDocument, CrdtOperation, OperationType, op_insert, op_update, op_delete, op_other,
}

-- comp == clock.Before || comp == clock.Concurrent
unfoldable pub before_or_concurrent : ComparisonResult → Bool
before_or_concurrent equal = false
before_or_concurrent before = true
before_or_concurrent after = false
before_or_concurrent concurrent = true

-- What ResolveConflict returns, and its two arguments after the call.
pub record Resolution (V : Type 0) : Type 0 where
  pub result : Option (DistributedDocument V)
  pub local : Option (DistributedDocument V)
  pub remote : Option (DistributedDocument V)

-- if op.Timestamp > doc.Timestamp { doc.Timestamp = op.Timestamp }
unfoldable pub later_timestamp : ℤ → ℤ → ℤ
later_timestamp current new = if ltb_ℤ current new then new else current

module _ {V : Type 0} where
  -- mergeDocuments: a nil payload of the winner is made first.
  unfoldable pub merge_documents :
      DistributedDocument V → DistributedDocument V → DistributedDocument V
  merge_documents winner loser = record winner {
    vector = merge winner.vector loser.vector;
    payload = made (insert_new (entries loser.payload) (entries winner.payload));
  }

  -- The winner after mergeDocuments: the shallow copy shares its payload map, if it has one, so the
  -- loser's fields are written to it.
  unfoldable pub winner_after :
      DistributedDocument V → DistributedDocument V → DistributedDocument V
  winner_after winner loser = record winner {
    payload = elim winner.payload [
      | nil ↦ nil
      | made es ↦ made (insert_new (entries loser.payload) es)
    ];
  }

  module _ (local remote : DistributedDocument V) where
    abbrev pub keep_local : Resolution V
    keep_local = record { result = some local; local = some local; remote = some remote }

    abbrev pub keep_remote : Resolution V
    keep_remote = record { result = some remote; local = some local; remote = some remote }

    abbrev pub merge_local : Resolution V
    merge_local = record {
      result = some (merge_documents local remote);
      local = some (winner_after local remote);
      remote = some remote;
    }

    abbrev pub merge_remote : Resolution V
    merge_remote = record {
      result = some (merge_documents remote local);
      local = some local;
      remote = some (winner_after remote local);
    }

    -- the case Concurrent of the switch
    unfoldable pub resolve_concurrent : Resolution V
    resolve_concurrent =
        if ltb_ℤ remote.timestamp local.timestamp
        then merge_local
        else if ltb_ℤ local.timestamp remote.timestamp
        then merge_remote
        else if str_ge local.peer_id remote.peer_id
        then merge_local
        else merge_remote

    -- the switch over the comparison of two documents of which both or neither are deleted
    unfoldable pub resolve_switch : ComparisonResult → Resolution V
    unfolding resolve_concurrent
    resolve_switch after = keep_local
    resolve_switch before = keep_remote
    resolve_switch equal = keep_local
    resolve_switch concurrent = resolve_concurrent

    unfoldable pub resolve_present : Resolution V
    unfolding resolve_switch before_or_concurrent
    resolve_present =
        if remote.deleted && not local.deleted
        then (if before_or_concurrent (compare local.vector remote.vector)
            then keep_remote
            else keep_local)
        else if local.deleted && not remote.deleted
        then (if before_or_concurrent (compare remote.vector local.vector)
            then keep_local
            else keep_remote)
        else resolve_switch (compare local.vector remote.vector)

  unfoldable pub resolve_conflict :
      Option (DistributedDocument V) → Option (DistributedDocument V) → Resolution V
  unfolding resolve_present
  resolve_conflict local none = record { result = local; local = local; remote = none }
  resolve_conflict none (some r) = record { result = some r; local = none; remote = some r }
  resolve_conflict (some l) (some r) = resolve_present l r

  -- The case of an insert or an update. Reading op.Data.Payload panics if op.Data is nil, and that
  -- happens only where the fields are merged.
  unfoldable pub merge_fields :
      DistributedDocument V → CrdtOperation V → Outcome (DistributedDocument V)
  unfolding later_timestamp
  merge_fields doc op = elim op.doc [
    | none ↦ panics
    | some d ↦ returns (record doc {
      payload = made (insert_all (entries d.payload) (entries doc.payload));
      vector = merge doc.vector op.vector;
      timestamp = later_timestamp doc.timestamp op.timestamp;
    })
  ]

  unfoldable pub apply_upsert :
      Option (DistributedDocument V) → CrdtOperation V → Outcome (Option (DistributedDocument V))
  unfolding merge_fields before_or_concurrent
  apply_upsert none op = elim op.doc [
    | none ↦ returns none
    | some d ↦ returns (
        some
          (record d { vector = clone op.vector; timestamp = op.timestamp; peer_id = op.peer_id }))
  ]
  apply_upsert (some doc) op =
      if before_or_concurrent (compare doc.vector op.vector)
      then (do merged ← merge_fields doc op; returns (some merged))
      else returns (some doc)

  unfoldable pub apply_delete :
      Option (DistributedDocument V) → CrdtOperation V → Option (DistributedDocument V)
  unfolding before_or_concurrent later_timestamp
  apply_delete none op = none
  apply_delete (some doc) op = some (
      if before_or_concurrent (compare doc.vector op.vector)
      then record doc {
        deleted = true;
        vector = merge doc.vector op.vector;
        timestamp = later_timestamp doc.timestamp op.timestamp;
      }
      else doc)

  -- ApplyOperation: the document as the call leaves and returns it.
  unfoldable pub apply_operation :
      Option (DistributedDocument V) → CrdtOperation V → Outcome (Option (DistributedDocument V))
  unfolding apply_upsert apply_delete
  apply_operation doc op = elim op.op_type [
    | op_insert ↦ apply_upsert doc op
    | op_update ↦ apply_upsert doc op
    | op_delete ↦ returns (apply_delete doc op)
    | op_other n ↦ returns doc
  ]

  -- cloneMap of the resolver: a shallow copy.
  unfoldable pub clone_map : GoMap V → GoMap V
  clone_map nil = nil
  clone_map (made es) = made (insert_all es [])

  -- ToDistributed, for a payload whose values are read as strings by `as_string`; `now` is the
  -- time of the call in milliseconds. An "id" that is missing or no string panics.
  unfoldable pub to_distributed :
      (V → Option String) → ℤ → GoMap V → String → Outcome (DistributedDocument V)
  unfolding clone_map
  to_distributed as_string now payload peer_id = elim (get payload "id") [
    | none ↦ panics
    | some v ↦ elim (as_string v) [
      | none ↦ panics
      | some id ↦ returns (record {
        id = id;
        entry_type = "";
        payload = clone_map payload;
        vector = made (insert peer_id (pos 1) []);
        timestamp = now;
        peer_id = peer_id;
        stage = "";
        deleted = false;
      })
    ]
  ]

  unfoldable pub to_regular : Option (DistributedDocument V) → GoMap V
  unfolding clone_map
  to_regular none = nil
  to_regular (some doc) = clone_map doc.payload
