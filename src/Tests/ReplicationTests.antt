-- ===== src/Tests/ReplicationTests.antt =====
-- Two collections over file storages, one at each of two peers (go/internal/collection).
use knirvbase.Base.{ℕ, ◌≡◌, refl, false, [], ◌∷◌, arith}
use knirvbase.Base.Int.{pos, ≤ℤ_of_eq}
use knirvbase.GoMap.{made, lookup}
use knirvbase.Result.{ok}
use knirvbase.Call.{done}
use knirvbase.Value.{Value, Document, str, no_fields, fields_of}
use knirvbase.Json.{json_value, as_object}
use knirvbase.Json.Laws.{json_document}
use knirvbase.Clock.{at, new_vector_clock}
use knirvbase.Types.{SyncState, CrdtOperation, op_update}
use knirvbase.Store.{Store}
use knirvbase.Storage.Reading.{find_doc}
use knirvbase.Collection.{Operation, Replica, gives, operation_message, insert_local, find_document}
use knirvbase.Collection.Attached.{Sound}
use knirvbase.Collection.Handlers.{on_operation}
use knirvbase.Collection.Arrival.{insertion, decoded, operation_payload}
use knirvbase.Collection.Replication.{Peer, store_of, Stores, find-insert-announced}
use knirvbase.Collection.Sync.{handle_remote_operation}
use knirvbase.Collection.Ignored.{remote_operation_ignored}
use knirvbase.Tests.WholeFloats.{whole}
use knirvbase.Tests.TestLibraries.{
  test_primitives, texts_codec, texts_codec-JsonDecodes, to_json, of_json,
}
use knirvbase.IndexManager.{document_id, insert_document}
use knirvbase.Storage.{is_encrypted_collection}
use knirvbase.Tests.StorageTests.{disk, seeds, storage_of, file, note, one_note}
use knirvbase.Tests.DatabaseTests.{note_accepted}

abbrev peer : Peer test_primitives whole texts_codec
peer = record { disk = disk; now = pos 1; seeds = seeds; writer_waits = λ id. false }

abbrev files : Store whole
files = store_of test_primitives whole texts_codec peer

abbrev notes_state : SyncState (Value ℕ)
notes_state = record {
  collection = "notes";
  network_id = "n";
  local_vector = new_vector_clock;
  pending_operations = [];
  staged_entries = [];
  sync_in_progress = false;
}

-- a collection of peer "a" that is attached to the network "n", and one of peer "b"
abbrev attached_notes : Replica whole files
attached_notes = record {
  peer_id = "a";
  name = "notes";
  network_id = "n";
  sync_states = ("n", notes_state) ∷ [];
  operation_log = [];
  max_log_size = 10000;
  store = storage_of [];
}

abbrev other_notes : Replica whole files
other_notes = record attached_notes { peer_id = "b" }

attached_notes-Sound : Sound whole files attached_notes
unfolding lookup
attached_notes-Sound = record { synced = λ e. refl; bounded = omega arith; bound = refl }

other_notes-Sound : Sound whole files other_notes
unfolding lookup
other_notes-Sound = record { synced = λ e. refl; bounded = omega arith; bound = refl }

abbrev read_insertion : Value ℕ → CrdtOperation (Value ℕ)
read_insertion v = decoded whole (insertion whole files attached_notes "op" (pos 5) note "a")

arriving_note_accepted :
    Stores test_primitives whole texts_codec peer other_notes "a" (json_document whole note)
unfolding json_document json_value
arriving_note_accepted = note_accepted

find-insert-announced_example :
    (a' : Replica whole files) × (b' : Replica whole files) × (insert_local whole files
        attached_notes "op"
        (pos 5)
        (made note)
      ≡ done (
        gives (made note),
        a',
        operation_message "n" (insertion whole files attached_notes "op" (pos 5) note "a") ∷ [],
      ))
    × (on_operation whole files read_insertion other_notes
          (pos 6)
          (operation_payload whole "notes" no_fields)
        ≡ done b')
    × (find_document whole files a' "a" ≡ done (ok (made (json_document whole note))))
    × (find_document whole files b' "a" ≡ done (ok (made (json_document whole note))))
unfolding lookup find_doc
find-insert-announced_example =
    find-insert-announced test_primitives whole texts_codec texts_codec-JsonDecodes peer peer
      attached_notes other_notes "op" "a" (pos 5) (pos 6) note no_fields read_insertion
      attached_notes-Sound other_notes-Sound refl refl (refl, (refl, tt)) note_accepted
      arriving_note_accepted refl refl

-- the collection of peer "b" that has the note, and a change of its title by peer "a" after its first
-- operation
abbrev stored_notes : Replica whole files
stored_notes = record other_notes { store = one_note }

abbrev new_title : Document whole.Float
new_title = ("id", str "a") ∷ ("title", str "y") ∷ []

abbrev title_update : Operation whole files
title_update = record (insertion whole files attached_notes "op2" (pos 7) new_title "a") {
  op_type = op_update;
  vector = made (("a", pos 1) ∷ []);
}

stored_notes-Sound : Sound whole files stored_notes
unfolding lookup
stored_notes-Sound = record { synced = λ e. refl; bounded = omega arith; bound = refl }

stored_note_accepted :
    Stores test_primitives whole texts_codec peer stored_notes "a" (json_document whole note)
unfolding to_json document_id is_encrypted_collection lookup json_value fields_of json_document
    insert_document
stored_note_accepted = record {
  bytes = file;
  again = file;
  new_indexes = [];
  has_text = refl;
  encodes = refl;
  encodes_again = refl;
  unencrypted = refl;
  plain = (refl, refl);
  writable = refl;
  readable = refl;
  indexed = refl;
}

remote_operation_ignored_example :
    (r' : Replica whole files) × (handle_remote_operation whole files stored_notes
        (pos 9)
        title_update
      ≡ done r')
    × (find_document whole files r' "a" ≡ find_document whole files stored_notes "a")
unfolding lookup find_doc to_json of_json json_value fields_of as_object json_document find_document
remote_operation_ignored_example =
    remote_operation_ignored test_primitives whole texts_codec texts_codec-JsonDecodes peer
      stored_notes (pos 9) title_update note stored_notes-Sound (refl, (refl, tt)) refl
      stored_note_accepted refl (λ k. ≤ℤ_of_eq {a = at title_update.vector k} refl)
