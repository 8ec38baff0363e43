-- ===== src/Query/IndexEffects.antt =====
-- What CREATE INDEX and DROP INDEX statements do to the indexes of a database (query/knirvql.go), from
-- their texts on, over any storage that keeps its indexes.
use knirvbase.Base.{
  String, ◌≡◌, refl, ap, Bool, Option, none, some, List, [], ◌==◌, if◌then◌else◌, arith, eq_refl,
}
use knirvbase.Base.Int.{ℤ}
use knirvbase.GoMap.{lookup, insert, remove, Distinct}
use knirvbase.GoMap.Laws.{lookup-insert, lookup-remove}
use knirvbase.Result.{Result}
use knirvbase.Call.{done}
use knirvbase.Floats.{Floats}
use knirvbase.Index.{Index, hnsw, btree}
use knirvbase.IndexManager.{Indexes, index_key, new_index, create_index, drop_index, get_index}
use knirvbase.Store.{Store, KeepsIndexes}
use knirvbase.Collection.{Message}
use knirvbase.Network.{ProtocolMessage}
use knirvbase.Database.{get_db_index, create_db_index, drop_db_index}
use knirvbase.Database.Calls.{Database}
use knirvbase.Query.{Query}
use knirvbase.Query.Parse.{parse_query}
use knirvbase.Query.Parsed.{parsed}
use knirvbase.Query.RoundTrip.{
  create_index as create_statement, drop_index as drop_statement, statement_text, IsPlain, query_of,
  parse_query-statement_text,
}
use knirvbase.Query.Statements.{
  execute, execute_create_index, execute_drop_index, index_done, index_type_of, nothing,
}

-- the index that CREATE INDEX makes: over no fields, for vectors if it is called so
abbrev pub index_for : (fl : Floats) → String → String → Bool → Index fl.Float
index_for fl c n u = new_index fl c n (if n == "vector" then hnsw else btree) [] u "" []

module _ (fl : Floats) (st : Store fl) (Byte : Type 0) where
  open fl use {Float}
  open st use {indexes, set_indexes}

  module _ {V : Type 0} (marshal : ProtocolMessage V → Result (List Byte))
      (payload : String → Message fl st → V) (saved : Index Float → Option String) (op_id : String)
      (time : ℤ) (failed : Option String) where
    create_index-new :
        (im : Indexes fl) (c n : String) (u : Bool)
        → lookup (index_key c n) im ≡ none
        → saved (index_for fl c n u) ≡ none
        → create_index fl saved im c n (if n == "vector" then hnsw else btree) [] u "" []
          ≡ (insert (index_key c n) (index_for fl c n u) im, none)
    unfolding create_index
    create_index-new im c n u free unsaved = rw (free, create_index, unsaved, create_index) refl

    -- The text of CREATE INDEX for a collection and an index whose names are words with no colon is
    -- parsed and executed: if the index was not there and its metadata is saved, it is there afterwards,
    -- over no fields and empty, an HNSW index if it is called "vector" and a B-tree otherwise.
    pub execute-create_index :
        (db : Database fl st Byte) (name c n : String) (u : Bool)
        → KeepsIndexes st
        → IsPlain (create_statement c n u)
        → get_db_index fl st Byte db c n ≡ none
        → saved (index_for fl c n u) ≡ none
        → (q : Query Float) × (db' : Database fl st Byte) × (parse_query fl
              (statement_text (create_statement c n u))
            ≡ parsed q)
          × (execute fl st Byte marshal payload saved op_id time failed db name q
              ≡ done (db', nothing))
          × (get_db_index fl st Byte db' c n ≡ some (index_for fl c n u))
    unfolding execute execute_create_index index_type_of get_db_index get_index create_db_index
    execute-create_index db name c n u keeps plain free unsaved =
        let im = insert (index_key c n) (index_for fl c n u) (indexes db.storage) in
        let made_there : get_index fl im c n ≡ some (index_for fl c n u) = ground (
          arith,
          lookup-insert (index_key c n) (index_key c n) (index_for fl c n u) (indexes db.storage),
          eq_refl (index_key c n),
        ) in
        (
          query_of fl (create_statement c n u),
          record db { storage = set_indexes db.storage im },
          parse_query-statement_text fl (create_statement c n u) plain,
          rw (create_index-new (indexes db.storage) c n u free unsaved) refl,
          rw (keeps db.storage im) made_there,
        )

    -- The text of DROP INDEX for a collection and an index whose names are words with no colon is parsed
    -- and executed: an index that was there is not there afterwards, and the indexes with other keys are
    -- as they were.
    pub execute-drop_index :
        (db : Database fl st Byte) (name c n : String) (idx : Index Float)
        → KeepsIndexes st
        → IsPlain (drop_statement c n)
        → Distinct (indexes db.storage)
        → get_db_index fl st Byte db c n ≡ some idx
        → (q : Query Float) × (db' : Database fl st Byte) × (parse_query fl
              (statement_text (drop_statement c n))
            ≡ parsed q)
          × (execute fl st Byte marshal payload saved op_id time failed db name q
              ≡ done (db', nothing))
          × ((c' n' : String)
              → get_db_index fl st Byte db' c' n' ≡ (
                  if index_key c n == index_key c' n'
                  then none
                  else get_db_index fl st Byte db c' n'))
    unfolding execute execute_drop_index drop_db_index drop_index get_db_index get_index
    execute-drop_index db name c n idx keeps plain distinct there =
        let im = remove (index_key c n) (indexes db.storage) in
        let found : lookup (index_key c n) (indexes db.storage) ≡ some idx = there in
        let dropped : drop_index fl (indexes db.storage) c n ≡ (im, none) =
          rw (found, drop_index) refl in
        (
          query_of fl (drop_statement c n),
          record db { storage = set_indexes db.storage im },
          parse_query-statement_text fl (drop_statement c n) plain,
          ap (index_done fl st Byte)
              (ap (λ r. (record db { storage = set_indexes db.storage (r.0) }, r.1)) dropped),
          λ c' n'.
              rw (keeps db.storage im)
                (lookup-remove (index_key c n) (index_key c' n') (indexes db.storage) distinct),
        )
