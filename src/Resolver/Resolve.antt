-- ===== src/Resolver/Resolve.antt =====
-- ResolveConflict (resolver/crdt_resolver.go): which document wins, and what becomes of both.
use knirvbase.Base.{
  String, ◌≡◌, ◌≢◌, refl, sym, ◌⊎◌, inl, inr, true, false, Option, none, some, arith, Bool-cases,
  not, ◌&&◌, if◌then◌else◌,
}
use knirvbase.Base.Int.{ltb_ℤ, eq_of_le, ≤ℤ_refl, ≤ℤ_of_eq}
use knirvbase.Base.Text.{str_ge, str_ge-swap}
use knirvbase.GoMap.{entries, get, IsMap}
use knirvbase.GoMap.Laws.{or_else, lookup-insert_new}
use knirvbase.Clock.{VectorClock, ComparisonResult, equal, before, after, concurrent, at, compare}
use knirvbase.Clock.Scan.{Leq}
use knirvbase.Clock.Order.{Related, compare-Related, compare-flip, flip}
use knirvbase.Clock.Merge.{IsNatural, Leq-merge_left, Leq-merge_right}
use knirvbase.Types.{DistributedDocument}
use knirvbase.Resolver.{
  before_or_concurrent, merge_documents, resolve_concurrent, resolve_switch, resolve_present,
  resolve_conflict,
}

module _ {V : Type 0} (l r : DistributedDocument V) where
  -- the documents differ in what the code breaks a tie by
  abbrev pub TieBroken : Type 0
  TieBroken = (l.timestamp ≢ r.timestamp) ⊎ (l.peer_id ≢ r.peer_id)

  concurrent_symmetric :
      TieBroken → (resolve_concurrent l r).result ≡ (resolve_concurrent r l).result
  unfolding resolve_concurrent
  concurrent_symmetric (inl t) = ground (arith, eq_of_le l.timestamp r.timestamp)
  concurrent_symmetric (inr p) = ground (arith, str_ge-swap l.peer_id r.peer_id)

  switch_symmetric :
      (c : ComparisonResult)
      → c ≢ equal
      → TieBroken
      → (resolve_switch l r c).result ≡ (resolve_switch r l (flip c)).result
  unfolding resolve_switch
  switch_symmetric equal h t = absurd (h refl)
  switch_symmetric before h t = refl
  switch_symmetric after h t = refl
  switch_symmetric concurrent h t = concurrent_symmetric t

  -- Two replicas that hold each other's document as the remote one resolve to the same document,
  -- if the clocks are not equal and the timestamps or the peers differ.
  pub resolve_symmetric :
      compare l.vector r.vector ≢ equal
      → TieBroken
      → (resolve_conflict (some l) (some r)).result ≡ (resolve_conflict (some r) (some l)).result
  unfolding resolve_conflict resolve_present
  resolve_symmetric h t =
      rw (compare-flip l.vector r.vector)
        (ground (arith, switch_symmetric (compare l.vector r.vector) h t))

-- every counter of the clock is at most that of the result's clock
abbrev pub Dominated : {V : Type 0} → VectorClock → Option (DistributedDocument V) → Type 0
Dominated c none = ⊥
Dominated c (some d) = Leq c d.vector

-- both documents hold well-formed clocks with no negative counter
pub record ClocksValid (V : Type 0) (l r : DistributedDocument V) : Type 0 where
  pub local_map : IsMap l.vector
  pub remote_map : IsMap r.vector
  pub local_natural : IsNatural l.vector
  pub remote_natural : IsNatural r.vector

module _ {V : Type 0} (l r : DistributedDocument V) (v : ClocksValid V l r) where
  both_below_left :
      Leq l.vector (merge_documents l r).vector × Leq r.vector (merge_documents l r).vector
  unfolding merge_documents
  both_below_left = (
    Leq-merge_left l.vector r.vector v.local_map v.remote_map v.local_natural v.remote_natural,
    Leq-merge_right l.vector r.vector v.local_map v.remote_map v.local_natural v.remote_natural,
  )

  both_below_right :
      Leq l.vector (merge_documents r l).vector × Leq r.vector (merge_documents r l).vector
  unfolding merge_documents
  both_below_right = (
    Leq-merge_right r.vector l.vector v.remote_map v.local_map v.remote_natural v.local_natural,
    Leq-merge_left r.vector l.vector v.remote_map v.local_map v.remote_natural v.local_natural,
  )

  concurrent_dominates :
      Dominated l.vector (resolve_concurrent l r).result
      × Dominated r.vector (resolve_concurrent l r).result
  unfolding resolve_concurrent
  concurrent_dominates = elim (Bool-cases (ltb_ℤ r.timestamp l.timestamp)) [
    | inl e ↦ rw e both_below_left
    | inr e ↦ elim (Bool-cases (ltb_ℤ l.timestamp r.timestamp)) [
      | inl f ↦ rw (e, f) both_below_right
      | inr f ↦ elim (Bool-cases (str_ge l.peer_id r.peer_id)) [
        | inl g ↦ rw (e, f, g) both_below_left
        | inr g ↦ rw (e, f, g) both_below_right
      ]
    ]
  ]

  switch_dominates :
      (c : ComparisonResult)
      → Related c l.vector r.vector
      → Dominated l.vector (resolve_switch l r c).result
        × Dominated r.vector (resolve_switch l r c).result
  unfolding resolve_switch
  switch_dominates equal h = ((λ k. ≤ℤ_refl (at l.vector k)), (λ k. ≤ℤ_of_eq (sym (h k))))
  switch_dominates before h = (h.0, (λ k. ≤ℤ_refl (at r.vector k)))
  switch_dominates after h = ((λ k. ≤ℤ_refl (at l.vector k)), h.0)
  switch_dominates concurrent h = concurrent_dominates

  -- If both documents or neither is deleted, and their clocks are maps with no negative counter,
  -- the resolution has a clock that is at or after both.
  pub resolve_dominates :
      l.deleted ≡ r.deleted
      → Dominated l.vector (resolve_conflict (some l) (some r)).result
        × Dominated r.vector (resolve_conflict (some l) (some r)).result
  unfolding resolve_conflict resolve_present
  resolve_dominates e =
      rw (same_guard_left, same_guard_right)
        (switch_dominates (compare l.vector r.vector) (compare-Related l.vector r.vector))
    where
      same_guard_left : (r.deleted && not l.deleted) ≡ false
      same_guard_left = ground arith

      same_guard_right : (l.deleted && not r.deleted) ≡ false
      same_guard_right = ground arith

module _ {V : Type 0} (l r : DistributedDocument V) where
  -- The winner's own fields stay, and the loser gives the fields that the winner lacks.
  pub payload-merge_documents :
      (k : String)
      → get (merge_documents l r).payload k ≡ or_else (get l.payload k) (get r.payload k)
  unfolding merge_documents
  payload-merge_documents k = lookup-insert_new k (entries r.payload) (entries l.payload)

  -- Of a live local document and a deleted remote one the deletion wins unless the live document's
  -- clock is later or the same; no clock is merged and neither document is written to.
  pub resolve_deletion :
      l.deleted ≡ false
      → r.deleted ≡ true
      → resolve_conflict (some l) (some r) ≡ record {
        result = if before_or_concurrent (compare l.vector r.vector) then some r else some l;
        local = some l;
        remote = some r;
      }
  unfolding resolve_conflict resolve_present
  resolve_deletion hl hr = ground arith
