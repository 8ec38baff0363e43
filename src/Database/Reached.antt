-- ===== src/Database/Reached.antt =====
-- Every database that can be reached is consistent (database/distributed_database.go).
use knirvbase.Base.{
  String, ◌≡◌, refl, sym, ◌∙◌, subst, true, false, Option, some, List, [], ◌∷◌, All, ◌==◌,
  Bool-cases, Option-cases, inl, inr,
}
use knirvbase.GoMap.{lookup}
use knirvbase.Result.{Result, ok, err, Result-cases, ok-injective}
use knirvbase.Floats.{Floats}
use knirvbase.Value.{Value}
use knirvbase.Store.{Store}
use knirvbase.Collection.{Operation, Message, Replica}
use knirvbase.Collection.Attached.{
  Sound, store-Sound, insert_local-Sound, update_local-Sound, delete_local-Sound,
}
use knirvbase.Collection.Attached.Received.{request_sync-Sound}
use knirvbase.Collection.Attached.History.{clear_flag-Sound, Step-Sound}
use knirvbase.Collection.Steps as Coll
use knirvbase.Network.{NetworkManager, ProtocolMessage, new_network_manager, initialize}
use knirvbase.Network.Steps as Net
use knirvbase.Database.{
  DatabaseOptions, first_network, start_network, new_distributed_database, create_db_network,
  join_db_network, leave_db_network, shutdown_database, create_db_index, drop_db_index,
}
use knirvbase.Database.Calls.{Database}
use knirvbase.Database.Kept.{
  Kept, NetworkReached, collection-Consistent, add_to_network-Consistent,
  remove_from_network-Consistent,
}
use knirvbase.Database.History.{insert-All, lookup-All, run_collection-Consistent}
use knirvbase.Database.Steps as Db

module _ (fl : Floats) (st : Store fl) (Byte : Type 0) {V : Type 0}
    (marshal : ProtocolMessage V → Result (List Byte)) (payload : String → Message fl st → V)
    (own_id : String) where
  open fl use {Float}
  open st use {State}

  start_network-Reachable :
      (failed : Option String) (opts : DatabaseOptions) (n : NetworkManager Byte)
      → NetworkReached fl st Byte marshal payload own_id n
      → NetworkReached fl st Byte marshal payload own_id
          ((start_network fl st Byte failed opts n).0)
  unfolding start_network
  start_network-Reachable failed opts n r = elim (Bool-cases (opts.network_id == "")) [
    | inl b ↦ rw b r
    | inr b ↦ started opts.bootstrap_peers refl b
  ]
    where
      started :
          (peers : List String)
          → opts.bootstrap_peers ≡ peers
          → (opts.network_id == "") ≡ false
          → NetworkReached fl st Byte marshal payload own_id
              ((start_network fl st Byte failed opts n).0)
      started [] e b = rw (b, e) (Net.after r (Net.create_step failed (first_network opts)))
      started (peer ∷ peers) e b =
          rw (b, e) (Net.after r (Net.join_step failed opts.network_id (peer ∷ peers)))

  new_distributed_database-Consistent :
      (failed : Option String) (opts : DatabaseOptions) (s : State)
      {o : Database fl st Byte × List String}
      → new_distributed_database fl st Byte failed own_id opts s ≡ ok o
      → Kept fl st Byte marshal payload own_id (o.0)
  unfolding new_distributed_database
  new_distributed_database-Consistent failed opts s {o} e = elim (Bool-cases opts.enabled) [
    | inr off ↦
        let db : Database fl st Byte = record {
          network = new_network_manager own_id;
          distributed = false;
          collections = [];
          storage = s;
        } in
        let same : new_distributed_database fl st Byte failed own_id opts s ≡ ok (db, []) =
          rw (off, new_distributed_database) refl in
        subst KeptAfter (ok-injective (sym same ∙ e))
          (record { network = Net.start; collections = tt })
    | inl on ↦
        let n = new_network_manager own_id in
        let first = initialize failed n in
        elim (Option-cases (first.1)) [
          | inr (text, refused) ↦
              let same : new_distributed_database fl st Byte failed own_id opts s ≡ err text =
                rw (on, new_distributed_database, refused, new_distributed_database) refl in
              absurd (err_ok (sym same ∙ e))
          | inl running ↦
              let second = start_network fl st Byte failed opts (first.0) in
              elim (Result-cases (second.1)) [
                | inr (text, refused) ↦
                    let same : new_distributed_database fl st Byte failed own_id opts s ≡ err text =
                      rw
                        (
                          on, new_distributed_database, running, new_distributed_database, refused,
                          new_distributed_database,
                        )
                        refl in
                    absurd (err_ok (sym same ∙ e))
                | inl (dials, started) ↦
                    let db : Database fl st Byte = record {
                      network = second.0;
                      distributed = true;
                      collections = [];
                      storage = s;
                    } in
                    let same : new_distributed_database fl st Byte failed own_id opts s
                        ≡ ok (db, dials) =
                      rw
                        (
                          on, new_distributed_database, running, new_distributed_database, started,
                          new_distributed_database,
                        )
                        refl in
                    subst KeptAfter (ok-injective (sym same ∙ e)) (record {
                      network =
                          start_network-Reachable failed opts (first.0)
                            (Net.after Net.start (Net.initialize_step failed));
                      collections = tt;
                    })
              ]
        ]
  ]
    where
      KeptAfter : Database fl st Byte × List String → Type 0
      KeptAfter o = Kept fl st Byte marshal payload own_id (o.0)

      err_ok : {A : Type 0} {text : String} {a : A} → ◌≡◌ {A = Result A} (err text) (ok a) → ⊥
      err_ok h = cc

  module _ (read_operation : Value Float → Operation fl st) where
    abbrev KeptHere : Database fl st Byte → Type 0
    KeptHere = Kept fl st Byte marshal payload own_id

    -- a collection that has handled a message
    with_collection-Consistent :
        (name : String) (db : Database fl st Byte) (c c' : Replica fl st)
        → KeptHere db
        → lookup name db.collections ≡ some c
        → (Sound fl st (record c { store = db.storage }) → Sound fl st c')
        → KeptHere (Db.with_collection fl st Byte marshal payload read_operation db name c')
    with_collection-Consistent name db c c' h there keeps = record {
      network = h.network;
      collections =
          insert-All (Sound fl st) name c' db.collections
            (keeps (
              store-Sound fl st c db.storage
                (lookup-All (Sound fl st) name db.collections there h.collections)))
            h.collections;
    }

    with_network :
        (db : Database fl st Byte) {n : NetworkManager Byte}
        → KeptHere db
        → Net.Step marshal db.network n
        → KeptHere (record db { network = n })
    with_network db h step = record {
      network = Net.after h.network step;
      collections = h.collections;
    }

    Step-Consistent :
        (db db' : Database fl st Byte)
        → Db.Step fl st Byte marshal payload read_operation db db'
        → KeptHere db
        → KeptHere db'
    unfolding create_db_network join_db_network leave_db_network shutdown_database create_db_index
        drop_db_index
    Step-Consistent db db' (Db.collection_step h1 h2 h3 name) h =
        collection-Consistent fl st Byte marshal payload own_id h1 h2 h3 name db h
    Step-Consistent db db' (Db.create_step failed cfg) h =
        with_network db h (Net.create_step failed cfg)
    Step-Consistent db db' (Db.join_step failed id peers) h =
        with_network db h (Net.join_step failed id peers)
    Step-Consistent db db' (Db.leave_step id) h = with_network db h (Net.leave_step id)
    Step-Consistent db db' (Db.insert_step now failed op_id name doc e) h =
        run_collection-Consistent fl st Byte marshal payload own_id now failed _ db name
          (λ r c sound e. insert_local-Sound fl st r op_id now doc sound e) h e
    Step-Consistent db db' (Db.update_step now failed op_id name id update e) h =
        run_collection-Consistent fl st Byte marshal payload own_id now failed _ db name
          (λ r c sound e. update_local-Sound fl st r op_id now id update sound e) h e
    Step-Consistent db db' (Db.delete_step now failed op_id name id e) h =
        run_collection-Consistent fl st Byte marshal payload own_id now failed _ db name
          (λ r c sound e. delete_local-Sound fl st r op_id now id sound e) h e
    Step-Consistent db db' (Db.force_step now failed name e) h =
        run_collection-Consistent fl st Byte marshal payload own_id now failed _ db name
          (λ r c sound e. request_sync-Sound fl st r sound e) h e
    Step-Consistent db db' (Db.attach_step announcement now failed id name e) h =
        add_to_network-Consistent fl st Byte marshal payload own_id announcement now failed db id
          name h e
    Step-Consistent db db' (Db.detach_step name) h =
        remove_from_network-Consistent fl st Byte marshal payload own_id name db h
    Step-Consistent db db' (Db.operation_step now name c v {c'} there e) h =
        with_collection-Consistent name db c c' h there
          (Step-Sound fl st read_operation _ c' (Coll.operation_step now v e))
    Step-Consistent db db' (Db.response_step now name c v {c'} there e) h =
        with_collection-Consistent name db c c' h there
          (Step-Sound fl st read_operation _ c' (Coll.response_step now v e))
    Step-Consistent db db' (Db.timeout_step name id c there) h =
        with_collection-Consistent name db c _ h there (clear_flag-Sound fl st _ id)
    Step-Consistent db db' (Db.create_index_step saved c name t fs unique partial_expr options) h =
        record { network = h.network; collections = h.collections }
    Step-Consistent db db' (Db.drop_index_step c name) h = record {
      network = h.network;
      collections = h.collections;
    }
    Step-Consistent db db' (Db.network_step step) h = with_network db h step
    Step-Consistent db db' Db.shutdown_step h = with_network db h Net.shutdown_step

    -- Whatever has been done with a database since its start, by its clients, the network and the
    -- goroutines of both: its network manager has statistics for exactly the networks that it is in, each
    -- once, and each of its collections has a bounded log and, if it is attached to a network, the sync
    -- state of that network.
    pub reachable-Consistent :
        (db : Database fl st Byte)
        → Db.Reachable fl st Byte marshal payload read_operation own_id db
        → Net.Linked marshal db.network × All (λ e. Sound fl st (e.1)) db.collections
    reachable-Consistent db reached =
        let kept = all_reached db reached in
        (Net.reachable-Linked marshal own_id db.network kept.network, kept.collections)
      where
        all_reached :
            (db : Database fl st Byte)
            → Db.Reachable fl st Byte marshal payload read_operation own_id db
            → KeptHere db
        all_reached db (Db.start failed opts s e) =
            new_distributed_database-Consistent failed opts s e
        all_reached db (Db.after {db = before} reached step) =
            Step-Consistent before db step (all_reached before reached)
