-- ===== src/IndexManager/Created.antt =====
-- IndexManager (storage/index.go): the indexes after CreateIndex and DropIndex.
use knirvbase.Base.{
  String, ◌≡◌, Bool, Option, none, some, List, ◌==◌, if◌then◌else◌, arith, eq_iff, inl, inr,
  Option-cases, is_some,
}
use knirvbase.GoMap.{lookup, Distinct}
use knirvbase.GoMap.Laws.{lookup-insert, lookup-remove}
use knirvbase.Floats.{Floats}
use knirvbase.Value.{Document}
use knirvbase.Index.{IndexType, Index}
use knirvbase.IndexManager.{Indexes, index_key, new_index, create_index, drop_index, get_index}

module _ (fl : Floats) where
  open fl use {Float}

  -- After CreateIndex every key has the index that it had, but for a key that was free, which has the
  -- new index; with a key in use nothing changes.
  pub get_index-create_index :
      (saved : Index Float → Option String) (im : Indexes fl) (c n c' n' : String) (t : IndexType)
      (fs : List String) (u : Bool) (pe : String) (o : Document Float)
      → get_index fl (create_index fl saved im c n t fs u pe o).0 c' n' ≡ (
          if is_some (get_index fl im c n)
          then get_index fl im c' n'
          else if index_key c n == index_key c' n'
          then some (new_index fl c n t fs u pe o)
          else get_index fl im c' n')
  unfolding create_index get_index
  get_index-create_index saved im c n c' n' t fs u pe o =
      elim (Option-cases (lookup (index_key c n) im)) [
        | inl e ↦ ground (
          arith,
          lookup-insert (index_key c n) (index_key c' n') (new_index fl c n t fs u pe o) im,
        )
        | inr (i, e) ↦ ground arith
      ]

  -- After DropIndex its key has no index, and every other key the index that it had.
  pub get_index-drop_index :
      (im : Indexes fl) (c n c' n' : String)
      → Distinct im
      → get_index fl (drop_index fl im c n).0 c' n'
        ≡ (if index_key c n == index_key c' n' then none else get_index fl im c' n')
  unfolding drop_index get_index
  get_index-drop_index im c n c' n' d = ground (
    arith,
    eq_iff (index_key c n) (index_key c' n'),
    lookup-remove (index_key c n) (index_key c' n') im,
  )
