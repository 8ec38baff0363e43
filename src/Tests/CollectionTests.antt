-- ===== src/Tests/CollectionTests.antt =====
-- A collection over a storage that is a list of documents (go/internal/collection).
use knirvbase.Base.{
  ℕ, String, ◌≡◌, refl, true, false, Option, none, some, List, [], ◌∷◌, ◌++◌, ◌≢◌, All, arith,
}
use knirvbase.Base.Int.{pos}
use knirvbase.GoMap.{GoMap, nil, made, get, lookup, insert, insert_all, remove}
use knirvbase.Result.{Result, ok}
use knirvbase.Call.{Call, done, panicked}
use knirvbase.Store.{Store}
use knirvbase.Value.{Value, str}
use knirvbase.Clock.{new_vector_clock, clone}
use knirvbase.Types.{SyncState, op_insert, op_update, op_other}
use knirvbase.Collection.{
  sync_request, new_distributed_collection, gives, Operation, operation_message, Replica,
  broadcast_operation, get_current_vector, insert_local, operation, tombstone,
}
use knirvbase.Collection.Sync.{
  read_vector, missing_operations, merge_vector, end_sync, request_sync, handle_sync_request,
  attach_to_network,
}
use knirvbase.Collection.Withheld.{first_operation_withheld}
use knirvbase.Collection.Numbering.{IsNumbered, broadcast-IsNumbered}
use knirvbase.Collection.Steps.{Reachable, start, after, attach_step}
use knirvbase.Collection.Attached.{Sound}
use knirvbase.Collection.Attached.History.{reachable-Sound}
use knirvbase.Collection.Attached.Serves.{Returns, reachable_serves}
use knirvbase.Tests.WholeFloats.{whole}

abbrev Documents : Type 0
Documents = List (String × GoMap (Value ℕ))

abbrev find_listed : Documents → String → String → Call (Result (GoMap (Value ℕ)))
find_listed s name id = done (ok (elim (lookup id s) [ none ↦ nil | some d ↦ d ]))

abbrev insert_listed : Documents → String → GoMap (Value ℕ) → Call (Documents × Option String)
insert_listed s name doc = elim (get doc "id") [
  | some (str id) ↦ done (insert id doc s, none)
  | _ ↦ panicked
]

abbrev listed : Store whole
listed = record {
  State = Documents;
  find = find_listed;
  find_all = λ s name. done (ok []);
  insert_doc = insert_listed;
  update_doc = λ s name id update. done (s, some "not found");
  delete_doc = λ s name id. done (remove id s, none);
  indexes = λ s. [];
  set_indexes = λ s im. s;
}

abbrev state : SyncState (Value ℕ)
state = record {
  collection = "memory";
  network_id = "n";
  local_vector = new_vector_clock;
  pending_operations = [];
  staged_entries = [];
  sync_in_progress = false;
}

abbrev fields : List (String × Value ℕ)
fields = ("id", str "d1") ∷ []

abbrev replica : Replica whole listed
replica = record {
  peer_id = "a";
  name = "memory";
  network_id = "n";
  sync_states = ("n", state) ∷ [];
  operation_log = [];
  max_log_size = 10000;
  store = ("d1", made fields) ∷ [];
}

abbrev update : Operation whole listed
update =
    record (operation whole listed replica op_update "op" (pos 5) "d1"
      (tombstone whole listed "d1")) { vector = made (("b", pos 1) ∷ []); peer_id = "b" }

-- the collection later: its own insertion and an operation of peer "b" are in the log
abbrev later : Replica whole listed
later = record replica {
  operation_log =
      operation whole listed replica op_insert "op" (pos 5) "d1" (tombstone whole listed "d1")
      ∷ update
      ∷ [];
}

first_operation_withheld_example :
    (r' : Replica whole listed) × (op : Operation whole listed) × (older : List
      (Operation whole listed))
    × (insert_local whole listed replica "op" (pos 5) (made fields)
        ≡ done (gives (made fields), r', operation_message "n" op ∷ []))
    × (r'.operation_log ≡ older ++ op ∷ [])
    × All (λ o. o ≢ op) (update ∷ [])
unfolding lookup insert new_vector_clock handle_sync_request missing_operations read_vector
    get_current_vector clone insert_all
first_operation_withheld_example =
    first_operation_withheld whole listed replica state "op" (pos 5) (made fields) "d1"
      (insert "d1" (made fields) replica.store) later "b" [] (update ∷ []) new_vector_clock refl
      refl tt refl (omega arith) refl refl refl (omega arith)

broadcast-IsNumbered_example :
    (r' : Replica whole listed) × (s' : SyncState (Value ℕ)) × (broadcast_operation whole listed
        replica
        (operation whole listed replica op_update "op" (pos 5) "d1" (tombstone whole listed "d1"))
      ≡ done (
        r',
        operation_message "n" (
              operation whole listed replica op_update "op"
                (pos 5)
                "d1"
                (tombstone whole listed "d1"))
            ∷ [],
      ))
    × (lookup "n" r'.sync_states ≡ some s')
    × IsNumbered whole listed r' s'
unfolding lookup new_vector_clock
broadcast-IsNumbered_example =
    broadcast-IsNumbered whole listed replica state op_update "op" (pos 5) "d1"
      (tombstone whole listed "d1") refl refl tt (omega arith, omega arith) (omega arith) (tt, tt)

-- an operation with no document, whatever the value is
abbrev read_nothing : Value ℕ → Operation whole listed
read_nothing v =
    operation whole listed replica (op_other (pos 9)) "" (pos 0) "" (tombstone whole listed "")

abbrev unattached : Replica whole listed
unattached = record replica { network_id = ""; sync_states = []; store = [] }

abbrev just_attached : Replica whole listed
just_attached = record unattached {
  network_id = "n";
  sync_states = ("n", record state { sync_in_progress = true }) ∷ [];
}

attached :
    attach_to_network whole listed none unattached "n"
    ≡ done (gives tt, just_attached, sync_request "n" new_vector_clock ∷ [])
unfolding attach_to_network insert lookup
attached = refl

history : Reachable whole listed read_nothing "a" "memory" [] just_attached
unfolding new_distributed_collection
history =
    after start (attach_step none "n" (gives tt) (sync_request "n" new_vector_clock ∷ []) attached)

reachable-Sound_example : Sound whole listed just_attached
reachable-Sound_example =
    reachable-Sound whole listed read_nothing "a" "memory" [] just_attached history

reachable_serves_example :
    Returns (broadcast_operation whole listed just_attached update)
    × Returns (merge_vector whole listed just_attached new_vector_clock)
    × Returns (end_sync whole listed just_attached)
    × Returns (request_sync whole listed just_attached)
    × Returns (handle_sync_request whole listed just_attached "b" [])
reachable_serves_example =
    reachable_serves whole listed read_nothing "a" "memory" [] just_attached update new_vector_clock
      "b" [] history refl
