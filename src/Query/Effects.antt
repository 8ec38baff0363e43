-- ===== src/Query/Effects.antt =====
-- What a SET statement leaves in the storage (query/knirvql.go), from its text on, with the file
-- storage under the database.
use knirvbase.Base.{String, ◌≡◌, ap, Bool, Option, some, List, [], ◌∷◌}
use knirvbase.Base.Int.{ℤ}
use knirvbase.GoMap.{made, lookup}
use knirvbase.Result.{Result, ok}
use knirvbase.Call.{done, ◌>>=◌}
use knirvbase.Floats.{Floats}
use knirvbase.Value.{Document, str, obj, field, no_fields}
use knirvbase.Json.{Codec, JsonDecodes, json_value}
use knirvbase.Json.Laws.{json_document}
use knirvbase.Index.{Index}
use knirvbase.Crypto.{Primitives}
use knirvbase.Store.{Store}
use knirvbase.Storage.{Disk}
use knirvbase.Storage.Accepted.{Accepts, accepted-found}
use knirvbase.Storage.Instance.{file_store}
use knirvbase.Collection.{Replica, Message}
use knirvbase.Collection.Attached.{Sound}
use knirvbase.Network.{ProtocolMessage}
use knirvbase.Database.Calls.{Database}
use knirvbase.Database.Inserts.{run_collection-insert_local}
use knirvbase.Query.{Query}
use knirvbase.Query.Parse.{parse_query}
use knirvbase.Query.Parsed.{parsed}
use knirvbase.Query.RoundTrip.{set, statement_text, IsPlain, query_of, parse_query-statement_text}
use knirvbase.Query.Statements.{execute, execute_set, set_document, nothing, collection_done}

-- the document that SET k = v leaves, as it is read
abbrev pub set_entry : {F : Type 0} → String → String → Document F
set_entry k v =
    ("id", str k)
    ∷ ("entryType", str "AUTH")
    ∷ ("payload", obj (field "key" (str k) (field "value" (str v) no_fields)))
    ∷ []

module _ (p : Primitives) (fl : Floats) (c : Codec fl.Float p.Byte) (disk : Disk p fl c) (now : ℤ)
    (seeds : String → p.Seed × p.Seed) (writer_waits : String → Bool) where
  open p use {Byte}
  open fl use {Float}

  abbrev files : Store fl
  files = file_store p fl c disk now seeds writer_waits

  -- The text of SET k = v, if k is a word and v a word with no quotation mark at its ends, is parsed
  -- and executed without an error on a sound collection whose storage accepts the document. Then the
  -- storage has, under k, an AUTH entry with the key k and the value v.
  pub execute-set :
      {V : Type 0} (marshal : ProtocolMessage V → Result (List Byte))
      (payload : String → Message fl files → V) (saved : Index Float → Option String)
      (op_id : String) (time : ℤ) (failed : Option String) (db : Database fl files Byte)
      (name k v : String) (r : Replica fl files)
      → JsonDecodes fl c
      → IsPlain (set k v)
      → lookup name db.collections ≡ some r
      → Sound fl files r
      → Accepts p fl c disk now seeds db.storage r.name k
          (set_document fl files Byte (query_of fl (set k v)))
      → (q : Query Float) × (db' : Database fl files Byte) × (parse_query fl
            (statement_text (set k v))
          ≡ parsed q)
        × (execute fl files Byte marshal payload saved op_id time failed db name q
            ≡ done (db', nothing))
        × (files.find db'.storage r.name k ≡ done (ok (made (set_entry k v))))
  unfolding execute execute_set set_document json_document json_value
  execute-set marshal payload saved op_id time failed db name k v r json plain there sound a =
      let q : Query Float = query_of fl (set k v) in
      let es : Document Float = set_document fl files Byte q in
      let (fs', stored, found) =
        accepted-found p fl c disk now seeds json db.storage r.name k es a in
      let (db', r', ran, storage, kept, same_name) =
        run_collection-insert_local fl files Byte marshal payload time failed op_id db name r
          (made es) k fs' there sound a.has_text stored in
      (
        q,
        db',
        parse_query-statement_text fl (set k v) plain,
        ap (λ m. m >>= collection_done fl files Byte) ran,
        rw storage found,
      )
