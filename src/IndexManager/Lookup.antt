-- ===== src/IndexManager/Lookup.antt =====
-- IndexManager (storage/index.go): what is found under a key after each operation.
use knirvbase.Base.{
  String, ◌≡◌, refl, sym, ap, ◌∙◌, true, false, none, some, [], ◌∷◌, ◌++◌, ◌==◌, if◌then◌else◌,
  arith, eq_iff, eq_refl, Bool-cases, inl, inr, Option-cases,
}
use knirvbase.GoMap.{lookup, Distinct}
use knirvbase.Floats.{Floats}
use knirvbase.Outcome.{Outcome, returns, bind-returns, returns-injective}
use knirvbase.Value.{Value, Document, str}
use knirvbase.Value.Print.{sprint}
use knirvbase.Index.{
  btree, btree_index, Index, Buckets, bucket, matches_partial, insert_structure, delete_structure,
  insert_btree, build_composite_key, delete_id,
}
use knirvbase.Index.Buckets.{
  bucket-append_id, Absent, delete_id-insert_btree, bucket-delete_id-Absent,
}
use knirvbase.IndexManager.{
  Indexes, index_key, get_index, insert_index, delete_index, update_indexes, insert_document,
  delete_document, query_index, query_structure, query_btree,
}
use knirvbase.IndexManager.Laws.{document_id-str}

module _ (fl : Floats) where
  open fl use {Float}

  -- what the loop over a collection's indexes does to the index under a key
  lookup-update_indexes :
      (c k : String) (f : Index Float → Outcome (Index Float)) (im im' : Indexes fl)
      (idx idx' : Index Float)
      → update_indexes fl c f im ≡ returns im'
      → lookup k im ≡ some idx
      → (if idx.collection == c then f idx else returns idx) ≡ returns idx'
      → lookup k im' ≡ some idx'
  unfolding update_indexes lookup
  lookup-update_indexes c k f [] im' idx idx' e h g = cc
  lookup-update_indexes c k f ((j, i) ∷ im) im' idx idx' e h g =
      let (i', e1, rest) = bind-returns (if i.collection == c then f i else returns i) _ e in
      let (r, e2, e3) = bind-returns (update_indexes fl c f im) _ rest in
      let ih : lookup k im ≡ some idx → lookup k r ≡ some idx' =
        λ h'. lookup-update_indexes c k f im r idx idx' e2 h' g in
      let shape : (j, i') ∷ r ≡ im' = returns-injective e3 in
      rw (← shape) (elim (Bool-cases (j == k)) [
        | inl b ↦ rw b (ap some (returns-injective (sym e1 ∙ found b)))
        | inr b ↦ rw b (ih (ground arith))
      ])
    where
      found : (j == k) ≡ true → (if i.collection == c then f i else returns i) ≡ returns idx'
      found b = let same : i ≡ idx = ground arith in rw same g

  -- A B-tree index is found under its collection and name, with these buckets.
  pub record BtreeAt (im : Indexes fl) (c name : String) (idx : Index Float) (b : Buckets)
      : Type 0 where
    pub there : get_index fl im c name ≡ some idx
    pub of_collection : idx.collection ≡ c
    pub of_type : idx.index_type ≡ btree
    pub holds : idx.structure ≡ btree_index b

  -- the index after the insertion of a document
  abbrev pub with_document : Index Float → String → Document Float → Buckets → Index Float
  with_document idx id doc b =
      if matches_partial fl idx doc
      then record idx {
        structure =
            btree_index
              (insert_btree idx.unique id (build_composite_key fl idx.indexed_fields doc) b);
      }
      else idx

  insert_index-with_document :
      (idx : Index Float) (id : String) (doc : Document Float) (b : Buckets)
      → idx.index_type ≡ btree
      → idx.structure ≡ btree_index b
      → lookup "id" doc ≡ some (str id)
      → insert_index fl doc idx ≡ returns (with_document idx id doc b)
  unfolding insert_index insert_structure
  insert_index-with_document idx id doc b t h has = elim (Bool-cases (matches_partial fl idx doc)) [
    | inl m ↦ rw (m, document_id-str fl doc id has, t, h)
    | inr m ↦ rw m
  ]

  delete_index-delete_id :
      (idx : Index Float) (id : String) (b : Buckets)
      → idx.index_type ≡ btree
      → idx.structure ≡ btree_index b
      → delete_index fl id idx ≡ returns (record idx { structure = btree_index (delete_id id b) })
  unfolding delete_index delete_structure
  delete_index-delete_id idx id b t h = rw (t, h)

  pub query-BtreeAt :
      (im : Indexes fl) (c name : String) (idx : Index Float) (b : Buckets) (query : Document Float)
      → BtreeAt im c name idx b
      → query_index fl im c name query ≡ returns (query_btree fl b query, none)
  unfolding query_index query_structure
  query-BtreeAt im c name idx b query found = ground arith

  insert_document-BtreeAt :
      (im im' : Indexes fl) (c name : String) (idx : Index Float) (b : Buckets) (id : String)
      (doc : Document Float)
      → BtreeAt im c name idx b
      → lookup "id" doc ≡ some (str id)
      → insert_document fl im c doc ≡ returns im'
      → get_index fl im' c name ≡ some (with_document idx id doc b)
  unfolding insert_document get_index
  insert_document-BtreeAt im im' c name idx b id doc found has e =
      lookup-update_indexes c (index_key c name) (insert_index fl doc) im im' idx
        (with_document idx id doc b) e found.there
        (ground (
          arith,
          eq_iff idx.collection c,
          insert_index-with_document idx id doc b found.of_type found.holds has,
        ))

  delete_document-BtreeAt :
      (im im' : Indexes fl) (c name : String) (idx : Index Float) (b : Buckets) (id : String)
      → BtreeAt im c name idx b
      → delete_document fl im c id ≡ returns im'
      → BtreeAt im' c name
          (record idx { structure = btree_index (delete_id id b) })
          (delete_id id b)
  unfolding delete_document get_index
  delete_document-BtreeAt im im' c name idx b id found e = record {
    there =
        lookup-update_indexes c (index_key c name) (delete_index fl id) im im' idx
          (record idx { structure = btree_index (delete_id id b) }) e found.there
          (ground (
            arith,
            eq_iff idx.collection c,
            delete_index-delete_id idx id b found.of_type found.holds,
          ));
    of_collection = found.of_collection;
    of_type = found.of_type;
    holds = refl;
  }

  -- the buckets after the insertion of a document
  abbrev pub buckets_with : Index Float → String → Document Float → Buckets → Buckets
  buckets_with idx id doc b =
      if matches_partial fl idx doc
      then insert_btree idx.unique id (build_composite_key fl idx.indexed_fields doc) b
      else b

  with_document-BtreeAt :
      (im' : Indexes fl) (c name : String) (idx : Index Float) (b : Buckets) (id : String)
      (doc : Document Float)
      → idx.collection ≡ c
      → idx.index_type ≡ btree
      → idx.structure ≡ btree_index b
      → get_index fl im' c name ≡ some (with_document idx id doc b)
      → BtreeAt im' c name (with_document idx id doc b) (buckets_with idx id doc b)
  with_document-BtreeAt im' c name idx b id doc p t h g =
      elim (Bool-cases (matches_partial fl idx doc)) [
        | inl m ↦ record { there = g; of_collection = rw m p; of_type = rw m t; holds = rw m }
        | inr m ↦ record { there = g; of_collection = rw m p; of_type = rw m t; holds = rw m h }
      ]

  -- After an insertion that returns, a query of a B-tree index of the collection for the document's
  -- key finds the document behind those that were there, if the document has a text under "id", the
  -- index is not unique and its partial expression matches.
  pub query-insert_document :
      (im im' : Indexes fl) (c name : String) (idx : Index Float) (b : Buckets) (id : String)
      (doc query : Document Float) (value : Value Float)
      → BtreeAt im c name idx b
      → lookup "id" doc ≡ some (str id)
      → idx.unique ≡ false
      → matches_partial fl idx doc ≡ true
      → lookup "value" query ≡ some value
      → sprint fl value ≡ build_composite_key fl idx.indexed_fields doc
      → insert_document fl im c doc ≡ returns im'
      → query_index fl im' c name query ≡ returns (bucket (sprint fl value) b ++ id ∷ [], none)
  unfolding query_btree insert_btree
  query-insert_document im im' c name idx b id doc query value found has u m q k e =
      query-BtreeAt im' c name (with_document idx id doc b) (buckets_with idx id doc b) query (
        with_document-BtreeAt im' c name idx b id doc found.of_collection found.of_type found.holds
          (insert_document-BtreeAt im im' c name idx b id doc found has e))
      ∙ ground (
        arith,
        eq_refl (build_composite_key fl idx.indexed_fields doc),
        bucket-append_id id (sprint fl value) (sprint fl value) b,
      )

  query_btree_congr :
      (a b : Buckets) (query : Document Float)
      → ((j : String) → bucket j a ≡ bucket j b)
      → query_btree fl a query ≡ query_btree fl b query
  unfolding query_btree
  query_btree_congr a b query h = elim (Option-cases (lookup "value" query)) [
    | inl e ↦ ground arith
    | inr (v, e) ↦ ground (arith, h (sprint fl v))
  ]

  bucket-restored :
      (idx : Index Float) (b : Buckets) (id : String) (doc : Document Float)
      → Distinct b
      → Absent id b
      → (j : String) → bucket j (delete_id id (buckets_with idx id doc b)) ≡ bucket j b
  bucket-restored idx b id doc d absent j = elim (Bool-cases (matches_partial fl idx doc)) [
    | inl m ↦ rw m (
        delete_id-insert_btree idx.unique id (build_composite_key fl idx.indexed_fields doc) b d
          absent j)
    | inr m ↦ rw m (bucket-delete_id-Absent id j b d absent)
  ]

  -- Where they return, the insertion of a document with a text under "id" and its deletion leave
  -- every query of a B-tree index of the collection as it was, if the buckets have distinct keys
  -- and none has held the document before.
  pub query-delete_document-insert_document :
      (im im' im'' : Indexes fl) (c name : String) (idx : Index Float) (b : Buckets) (id : String)
      (doc query : Document Float)
      → BtreeAt im c name idx b
      → Distinct b
      → Absent id b
      → lookup "id" doc ≡ some (str id)
      → insert_document fl im c doc ≡ returns im'
      → delete_document fl im' c id ≡ returns im''
      → query_index fl im'' c name query ≡ query_index fl im c name query
  query-delete_document-insert_document im im' im'' c name idx b id doc query found d absent has e
        e' =
      query-BtreeAt im'' c name _ (delete_id id (buckets_with idx id doc b)) query (
        delete_document-BtreeAt im' im'' c name (with_document idx id doc b)
          (buckets_with idx id doc b) id
          (with_document-BtreeAt im' c name idx b id doc found.of_collection found.of_type
            found.holds (insert_document-BtreeAt im im' c name idx b id doc found has e))
          e')
      ∙ ap (λ ids. returns (ids, none))
          (query_btree_congr (delete_id id (buckets_with idx id doc b)) b query
            (bucket-restored idx b id doc d absent))
      ∙ sym (query-BtreeAt im c name idx b query found)
