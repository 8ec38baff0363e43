-- ===== src/Tests/DatabaseTests.antt =====
-- A database over a file storage, and statements on it (go/internal/database, go/pkg/knirvbase,
-- go/internal/query).
use knirvbase.Base.{
  ℕ, All, String, ◌≡◌, refl, true, false, none, some, List, [], ◌∷◌, arith, Option, if◌then◌else◌,
  ◌==◌,
}
use knirvbase.Base.Int.{pos}
use knirvbase.GoMap.{made, lookup, insert}
use knirvbase.Result.{Result, ok}
use knirvbase.Call.{done, deadlocked}
use knirvbase.Value.{Value, str, fields_of}
use knirvbase.Json.{json_value}
use knirvbase.Json.Laws.{json_document}
use knirvbase.Index.{Index}
use knirvbase.IndexManager.{document_id, insert_document, index_key, get_index}
use knirvbase.Types.{op_insert}
use knirvbase.Store.{Store}
use knirvbase.Storage.{is_encrypted_collection}
use knirvbase.Storage.Accepted.{Accepts}
use knirvbase.Storage.Instance.{file_store, file_store-KeepsIndexes}
use knirvbase.Collection.{
  Replica, Operation, operation, tombstone, Message, gives, fails, network_refused,
}
use knirvbase.Collection.Attached.{Sound}
use knirvbase.Network.{
  ProtocolMessage, NetworkConfig, new_network_manager, no_settings, create_network, initialize,
}
use knirvbase.Network.Sharing.{get_network_collections}
use knirvbase.Network.Steps as Net
use knirvbase.Database.Steps as Db
use knirvbase.Database.Reached.{reachable-Consistent}
use knirvbase.Database.{
  DatabaseOptions, new_distributed_database, start_network, collection, get_db_index,
  remove_from_network,
}
use knirvbase.Database.Calls.{Database, add_to_network}
use knirvbase.Database.Refusals.{refused_collection_shared}
use knirvbase.Public.{replied}
use knirvbase.Public as Public
use knirvbase.Public.Documents.{find-insert, update_never_returns}
use knirvbase.Query.{Query}
use knirvbase.GoStrings.{is_space, trim}
use knirvbase.Query.Parse.{parse_query}
use knirvbase.Query.Parsed.{parsed}
use knirvbase.Query.Values.{is_quote}
use knirvbase.Query.RoundTrip.{
  set, create_index as create_statement, drop_index as drop_statement, statement_text, query_of,
}
use knirvbase.Query.Statements.{execute, nothing, set_document}
use knirvbase.Query.Effects.{set_entry, execute-set}
use knirvbase.Query.IndexEffects.{execute-create_index, execute-drop_index, index_for}
use knirvbase.Tests.WholeFloats.{whole}
use knirvbase.Tests.TestLibraries.{test_primitives, texts_codec, texts_codec-JsonDecodes, to_json}
use knirvbase.Tests.StorageTests.{disk, seeds, storage_of, note, file}

abbrev files : Store whole
files = file_store test_primitives whole texts_codec disk (pos 1) seeds (λ id. false)

abbrev notes : Replica whole files
notes = record {
  peer_id = "a";
  name = "notes";
  network_id = "";
  sync_states = [];
  operation_log = [];
  max_log_size = 10000;
  store = storage_of [];
}

abbrev db : Database whole files String
db = record {
  network = new_network_manager "a";
  distributed = false;
  collections = ("notes", notes) ∷ [];
  storage = storage_of [];
}

notes-Sound : Sound whole files notes
notes-Sound = record { synced = λ e. cc; bounded = omega arith; bound = refl }

abbrev marshal : ProtocolMessage String → Result (List String)
marshal msg = ok (msg.payload ∷ [])

abbrev payload : String → Message whole files → String
payload name msg = name

abbrev saved : Index ℕ → Option String
saved idx = none

pub note_accepted :
    Accepts test_primitives whole texts_codec disk (pos 1) seeds (storage_of []) "notes" "a" note
unfolding to_json document_id is_encrypted_collection lookup json_value fields_of json_document
    insert_document
note_accepted = record {
  bytes = file;
  again = file;
  new_indexes = [];
  has_text = refl;
  encodes = refl;
  encodes_again = refl;
  unencrypted = refl;
  plain = (refl, refl);
  writable = refl;
  readable = refl;
  indexed = refl;
}

find-insert_example :
    (db' : Database whole files String) × (Public.insert whole files String marshal payload
        (pos 5)
        none
        false
        "op"
        db
        "notes"
        (made note)
      ≡ done (db', replied (gives (made note))))
    × (Public.find whole files String db' "notes" "a" ≡ done (ok (made (json_document whole note))))
unfolding lookup
find-insert_example =
    find-insert test_primitives whole texts_codec disk (pos 1) seeds (λ id. false) marshal payload
      (pos 5) none texts_codec-JsonDecodes "op" db "notes" "a" notes note refl notes-Sound refl
      note_accepted

update_never_returns_example :
    Public.update whole files String marshal payload
      (pos 5)
      none
      "op"
      db
      "notes"
      "a"
      (made (("title", str "y") ∷ []))
    ≡ deadlocked
unfolding lookup
update_never_returns_example =
    update_never_returns test_primitives whole texts_codec disk (pos 1) seeds (λ id. false) marshal
      payload (pos 5) none "op" db "notes" "a" notes (made (("title", str "y") ∷ [])) refl

entry_accepted :
    Accepts test_primitives whole texts_codec disk
      (pos 1)
      seeds
      (storage_of [])
      "notes"
      "k"
      (set_document whole files String (query_of whole (set "k" "v")))
unfolding to_json document_id is_encrypted_collection lookup json_value fields_of json_document
    insert_document set_document
entry_accepted = record {
  bytes = "d" ∷ "id" ∷ "k" ∷ "entryType" ∷ "AUTH" ∷ "payload" ∷ "key" ∷ "k" ∷ "value" ∷ "v" ∷ [];
  again = "d" ∷ "id" ∷ "k" ∷ "entryType" ∷ "AUTH" ∷ "payload" ∷ "key" ∷ "k" ∷ "value" ∷ "v" ∷ [];
  new_indexes = [];
  has_text = refl;
  encodes = refl;
  encodes_again = refl;
  unencrypted = refl;
  plain = (refl, refl);
  writable = refl;
  readable = refl;
  indexed = refl;
}

execute-set_example :
    (q : Query ℕ) × (db' : Database whole files String) × (parse_query whole
        (statement_text (set "k" "v"))
      ≡ parsed q)
    × (execute whole files String marshal payload saved "op" (pos 5) none db "notes" q
        ≡ done (db', nothing))
    × (files.find db'.storage "notes" "k" ≡ done (ok (made (set_entry "k" "v"))))
unfolding lookup is_space trim is_quote
execute-set_example =
    execute-set test_primitives whole texts_codec disk (pos 1) seeds (λ id. false) marshal payload
      saved "op" (pos 5) none db "notes" "k" "v" notes texts_codec-JsonDecodes (refl, refl, refl)
      refl notes-Sound entry_accepted

abbrev index : Index ℕ
index = index_for whole "notes" "kind" true

execute-create_index_example :
    (q : Query ℕ) × (db' : Database whole files String) × (parse_query whole
        (statement_text (create_statement "notes" "kind" true))
      ≡ parsed q)
    × (execute whole files String marshal payload saved "op" (pos 5) none db "notes" q
        ≡ done (db', nothing))
    × (get_db_index whole files String db' "notes" "kind" ≡ some index)
unfolding lookup get_db_index get_index is_space
execute-create_index_example =
    execute-create_index whole files String marshal payload saved "op" (pos 5) none db "notes"
      "notes" "kind" true
      (file_store-KeepsIndexes test_primitives whole texts_codec disk (pos 1) seeds (λ id. false))
      ((refl, refl), (refl, refl)) refl refl

abbrev indexed_db : Database whole files String
indexed_db = record db { storage = record db.storage { indexes = ("notes:kind", index) ∷ [] } }

execute-drop_index_example :
    (q : Query ℕ) × (db' : Database whole files String) × (parse_query whole
        (statement_text (drop_statement "notes" "kind"))
      ≡ parsed q)
    × (execute whole files String marshal payload saved "op" (pos 5) none indexed_db "notes" q
        ≡ done (db', nothing))
    × ((c' n' : String)
        → get_db_index whole files String db' c' n' ≡ (
            if index_key "notes" "kind" == index_key c' n'
            then none
            else get_db_index whole files String indexed_db c' n'))
unfolding lookup get_db_index get_index index_key is_space
execute-drop_index_example =
    execute-drop_index whole files String marshal payload saved "op" (pos 5) none indexed_db "notes"
      "notes" "kind" index
      (file_store-KeepsIndexes test_primitives whole texts_codec disk (pos 1) seeds (λ id. false))
      ((refl, refl), (refl, refl)) (refl, tt) refl

abbrev config : NetworkConfig
config = record { network_id = "n"; name = "N"; collections = []; settings = no_settings }

-- a database that has a network, after a Shutdown
abbrev stopped_db : Database whole files String
stopped_db = record db {
  network = record db.network { networks = ("n", 0) ∷ []; configs = config ∷ [] };
}

refused_collection_shared_example :
    (db' : Database whole files String) × (add_to_network whole files String marshal payload
        (λ name. name)
        (pos 5)
        none
        stopped_db
        "n"
        "notes"
      ≡ done (db', some (fails (network_refused "not initialized"))))
    × (lookup "notes" db'.collections ≡ some notes)
    × (get_network_collections db'.network "n" ≡ "notes" ∷ [])
    × ((remove_from_network whole files String db' "notes").network ≡ db'.network)
unfolding lookup insert new_network_manager
refused_collection_shared_example =
    refused_collection_shared whole files String marshal payload (λ name. name) (pos 5) none
      stopped_db "n" "notes" notes 0 config refl refl refl refl refl

abbrev options : DatabaseOptions
options = record { enabled = true; network_id = "n"; bootstrap_peers = [] }

-- the database that these options start
abbrev started_db : Database whole files String
started_db = record db {
  network =
      (create_network none ((initialize none (new_network_manager "a")).0)
        (record config { name = "Network n" })).0;
  distributed = true;
  collections = [];
}

started :
    new_distributed_database whole files String none "a" options (storage_of [])
    ≡ ok (started_db, [])
unfolding new_distributed_database start_network initialize create_network
started = refl

abbrev read_nothing : Value ℕ → Operation whole files
read_nothing v = operation whole files notes op_insert "" (pos 0) "" (tombstone whole files "")

abbrev with_notes : Database whole files String
with_notes = (collection whole files String 0 1 2 started_db "notes").0

reachable-Consistent_example :
    Net.Linked marshal with_notes.network
    × All (λ e. Sound whole files (e.1)) with_notes.collections
reachable-Consistent_example =
    reachable-Consistent whole files String marshal payload "a" read_nothing with_notes
      (Db.after (Db.start none options (storage_of []) started) (Db.collection_step 0 1 2 "notes"))
