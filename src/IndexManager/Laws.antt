-- ===== src/IndexManager/Laws.antt =====
-- IndexManager (storage/index.go): creation and removal, and what documents do to the indexes.
use Prim.Native.String.{◌++◌ as append}
use text.Mathlib.TextLemmas.{append_assoc}
use knirvbase.Base.{
  String, ◌≡◌, refl, ap, ◌∙◌, Option, none, some, List, [], ◌∷◌, ◌==◌, arith, All, Bool-cases, inl,
  inr,
}
use knirvbase.Base.Int.{ℤ}
use knirvbase.GoMap.{lookup, insert}
use knirvbase.Floats.{Floats}
use knirvbase.Outcome.{Outcome, returns}
use knirvbase.Value.{Document, str}
use knirvbase.Index.{
  IndexType, btree, gin, hnsw, other, Structure, btree_index, gin_index, hnsw_index, Index,
  matches_partial, insert_structure, delete_structure, insert_hnsw, document_vector,
}
use knirvbase.IndexManager.{
  Indexes, index_key, new_structure, insert_index, delete_index, update_indexes, insert_document,
  delete_document, document_id,
}

-- Two different pairs of a collection and an index name share a key where a name has a colon.
pub index_key_ambiguous :
    (a b c : String) → index_key (append a (append ":" b)) c ≡ index_key a (append b (append ":" c))
unfolding index_key
index_key_ambiguous a b c =
    append_assoc a (append ":" b) (append ":" c) ∙ ap (append a) (append_assoc ":" b (append ":" c))

-- the structure is the one that the index's type has
abbrev pub FitsType : {F : Type 0} → IndexType → Structure F → Type 0
FitsType btree (btree_index b) = Unit
FitsType gin (gin_index b) = Unit
FitsType hnsw (hnsw_index d v n) = Unit
FitsType (other t) s = Unit
FitsType _ _ = ⊥

module _ (fl : Floats) where
  open fl use {Float}

  -- Every index has the structure of its type: no pointer that an operation follows is nil.
  abbrev pub Fits : Indexes fl → Type 0
  Fits im = All (λ e. FitsType e.1.index_type e.1.structure) im

  new_structure-FitsType : (t : IndexType) (o : Document Float) → FitsType t (new_structure fl t o)
  unfolding new_structure
  new_structure-FitsType btree o = tt
  new_structure-FitsType gin o = tt
  new_structure-FitsType hnsw o = tt
  new_structure-FitsType (other t) o = tt

  insert-Fits :
      (k : String) (idx : Index Float) (im : Indexes fl)
      → FitsType idx.index_type idx.structure
      → Fits im
      → Fits (insert k idx im)
  unfolding insert
  insert-Fits k idx [] h f = (h, tt)
  insert-Fits k idx ((j, i) ∷ im) h f = elim (Bool-cases (j == k)) [
    | inl e ↦ rw e (h, f.1)
    | inr e ↦ rw e (f.0, insert-Fits k idx im h f.1)
  ]

  delete_structure_total :
      (t : IndexType) (id : String) (s : Structure Float)
      → FitsType t s
      → (s' : Structure Float) × (delete_structure fl t id s ≡ returns s') × FitsType t s'
  unfolding delete_structure
  delete_structure_total btree id (btree_index b) h = (_, refl, tt)
  delete_structure_total gin id (gin_index b) h = (_, refl, tt)
  delete_structure_total hnsw id (hnsw_index d v n) h = (_, refl, tt)
  delete_structure_total (other t) id s h = (_, refl, tt)
  delete_structure_total btree id _ h = absurd h
  delete_structure_total gin id _ h = absurd h
  delete_structure_total hnsw id _ h = absurd h

  insert_hnsw-FitsType :
      (id : String) (o : Option (List Float)) (d : ℤ) (v : List (String × List Float))
      (n : List (String × List String))
      → FitsType hnsw (insert_hnsw fl id o d v n)
  unfolding insert_hnsw
  insert_hnsw-FitsType id none d v n = tt
  insert_hnsw-FitsType id (some vec) d v n = tt

  insert_structure_total :
      (t : IndexType) (idx : Index Float) (id : String) (doc : Document Float) (s : Structure Float)
      → FitsType t s
      → (s' : Structure Float) × (insert_structure fl t idx id doc s ≡ returns s') × FitsType t s'
  unfolding insert_structure
  insert_structure_total btree idx id doc (btree_index b) h = (_, refl, tt)
  insert_structure_total gin idx id doc (gin_index b) h = (_, refl, tt)
  insert_structure_total hnsw idx id doc (hnsw_index d v n) h =
      (_, refl, insert_hnsw-FitsType id (document_vector fl doc) d v n)
  insert_structure_total (other t) idx id doc s h = (_, refl, tt)
  insert_structure_total btree idx id doc _ h = absurd h
  insert_structure_total gin idx id doc _ h = absurd h
  insert_structure_total hnsw idx id doc _ h = absurd h

  -- a change that returns on every index of fitting structure, and keeps it fitting
  abbrev KeepsFit : (Index Float → Outcome (Index Float)) → Type 0
  KeepsFit f =
      (idx : Index Float)
      → FitsType idx.index_type idx.structure
      → (idx' : Index Float) × (f idx ≡ returns idx') × FitsType idx'.index_type idx'.structure

  update_indexes_total :
      (c : String) (f : Index Float → Outcome (Index Float)) (im : Indexes fl)
      → KeepsFit f
      → Fits im
      → (im' : Indexes fl) × (update_indexes fl c f im ≡ returns im') × Fits im'
  unfolding update_indexes
  update_indexes_total c f [] keep h = ([], refl, tt)
  update_indexes_total c f ((k, idx) ∷ im) keep h =
      let (idx', e, fit) = keep idx h.0 in
      let (im', e', fits) = update_indexes_total c f im keep h.1 in
      elim (Bool-cases (idx.collection == c)) [
        | inl b ↦ ((k, idx') ∷ im', rw (b, e, e'), (fit, fits))
        | inr b ↦ ((k, idx) ∷ im', rw (b, e'), (h.0, fits))
      ]

  delete_index_total : (id : String) → KeepsFit (delete_index fl id)
  unfolding delete_index
  delete_index_total id idx h =
      let (s, e, fit) = delete_structure_total idx.index_type id idx.structure h in
      (record idx { structure = s }, rw e, fit)

  pub document_id-str :
      (doc : Document Float) (id : String)
      → lookup "id" doc ≡ some (str id)
      → document_id fl doc ≡ returns id
  unfolding document_id
  document_id-str doc id h = ground arith

  insert_index_total :
      (doc : Document Float) (id : String)
      → lookup "id" doc ≡ some (str id)
      → KeepsFit (insert_index fl doc)
  unfolding insert_index
  insert_index_total doc id has idx h =
      let (s, e, fit) = insert_structure_total idx.index_type idx id doc idx.structure h in
      elim (Bool-cases (matches_partial fl idx doc)) [
        | inl b ↦ (record idx { structure = s }, rw (b, document_id-str doc id has, e), fit)
        | inr b ↦ (idx, rw b, h)
      ]

  -- With indexes whose structures fit their types, the deletion of a document returns, with no panic,
  -- and keeps the structures fitting.
  pub delete_document_total :
      (im : Indexes fl) (c id : String)
      → Fits im
      → (im' : Indexes fl) × (delete_document fl im c id ≡ returns im') × Fits im'
  unfolding delete_document
  delete_document_total im c id =
      update_indexes_total c (delete_index fl id) im (delete_index_total id)

  -- With indexes whose structures fit their types, the insertion of a document with a text under "id"
  -- returns, with no panic, and keeps the structures fitting.
  pub insert_document_total :
      (im : Indexes fl) (c id : String) (doc : Document Float)
      → lookup "id" doc ≡ some (str id)
      → Fits im
      → (im' : Indexes fl) × (insert_document fl im c doc ≡ returns im') × Fits im'
  unfolding insert_document
  insert_document_total im c id doc has =
      update_indexes_total c (insert_index fl doc) im (insert_index_total doc id has)
