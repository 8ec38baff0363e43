-- ===== src/Database/Kept.antt =====
-- Every database that can be reached is consistent (database/distributed_database.go).
use knirvbase.Base.{
  ℕ, String, ◌≡◌, refl, sym, ◌∙◌, subst, Bool, true, false, Option, none, some, List, ◌==◌,
  if◌then◌else◌, arith, Option-cases, inl, inr,
}
use knirvbase.Base.Int.{ℤ}
use knirvbase.GoMap.{lookup, insert}
use knirvbase.Result.{Result}
use knirvbase.Call.{done, ◌>>=◌, bind-done, done-injective}
use knirvbase.Floats.{Floats}
use knirvbase.Store.{Store}
use knirvbase.Collection.{Message, Replica, Reply, new_distributed_collection}
use knirvbase.Collection.Sync.{attach_to_network}
use knirvbase.Collection.Attached.{Sound, store-Sound}
use knirvbase.Collection.Attached.History.{attach-Sound, detach-Sound}
use knirvbase.Network.{NetworkManager, ProtocolMessage}
use knirvbase.Network.Sharing.{remove_collection_from_network}
use knirvbase.Network.Messages.{add_collection_to_network}
use knirvbase.Network.Steps as Net
use knirvbase.Database.{collection, remove_from_network, setup_message_handlers}
use knirvbase.Database.Calls.{Database, add_to_network, attach_collection}
use knirvbase.Database.History.{Consistent, insert-All, lookup-All, settle-Consistent}

module _ (fl : Floats) (st : Store fl) (Byte : Type 0) {V : Type 0}
    (marshal : ProtocolMessage V → Result (List Byte)) (payload : String → Message fl st → V)
    (own_id : String) where
  open fl use {Float}
  open st use {State}

  abbrev pub Kept : Database fl st Byte → Type 0
  Kept = Consistent fl st Byte marshal payload own_id

  abbrev pub NetworkReached : NetworkManager Byte → Type 0
  NetworkReached = Net.Reachable marshal own_id

  new_collection-Sound :
      (peer name : String) (s : State) → Sound fl st (new_distributed_collection fl st peer name s)
  unfolding new_distributed_collection
  new_collection-Sound peer name s = record {
    synced = λ e. cc;
    bounded = omega arith;
    bound = refl;
  }

  pub collection-Consistent :
      (h1 h2 h3 : ℕ) (name : String) (db : Database fl st Byte)
      → Kept db
      → Kept ((collection fl st Byte h1 h2 h3 db name).0)
  unfolding collection setup_message_handlers
  collection-Consistent h1 h2 h3 name db h = elim (Option-cases (lookup name db.collections)) [
    | inr (c, there) ↦
        let same : collection fl st Byte h1 h2 h3 db name ≡ (db, c) = rw (there, collection) refl in
        subst (λ r. Kept (r.0)) (sym same) h
    | inl missing ↦
        let c = new_distributed_collection fl st db.network.own_id name db.storage in
        let after_first : Database fl st Byte = record db {
          network = setup_message_handlers fl st Byte h1 h2 h3 db.network;
          collections = insert name c db.collections;
        } in
        let same : collection fl st Byte h1 h2 h3 db name ≡ (after_first, c) =
          rw (missing, collection) refl in
        subst (λ r. Kept (r.0)) (sym same)
          (record {
            network =
                Net.after
                  (Net.after (Net.after h.network (Net.handler_step "operation" h1))
                    (Net.handler_step "sync_request" h2))
                  (Net.handler_step "sync_response" h3);
            collections =
                insert-All (Sound fl st) name c db.collections
                  (new_collection-Sound db.network.own_id name db.storage) h.collections;
          })
  ]

  add_collection_to_network-Reachable :
      (announcement : String → V) (now : ℤ) (n : NetworkManager Byte) (id name : String)
      → NetworkReached n
      → NetworkReached ((add_collection_to_network marshal announcement now n id name).0)
  unfolding add_collection_to_network
  add_collection_to_network-Reachable announcement now n id name r =
      elim (Option-cases (lookup id n.networks)) [
        | inl missing ↦ rw (missing, add_collection_to_network) r
        | inr (pointer, known) ↦
            rw (known, add_collection_to_network)
              (Net.after (Net.after r (Net.share_step id name pointer)) (Net.broadcast_step id _))
      ]

  -- the network after the first part of AttachToNetwork
  shared-Reachable :
      (b : Bool) (announcement : String → V) (now : ℤ) (n : NetworkManager Byte) (id name : String)
      → NetworkReached n
      → NetworkReached (
          (if b then add_collection_to_network marshal announcement now n id name else (n, none)).0)
  shared-Reachable true announcement now n id name r =
      add_collection_to_network-Reachable announcement now n id name r
  shared-Reachable false announcement now n id name r = r

  attach_collection-Consistent :
      (announcement : String → V) (now : ℤ) (failed : Option String) (db : Database fl st Byte)
      (name id : String) (c : Replica fl st) {o : Database fl st Byte × Reply (Unit {0})}
      → Kept db
      → Sound fl st c
      → attach_collection fl st Byte marshal payload announcement now failed db name c id ≡ done o
      → Kept (o.0)
  unfolding attach_collection
  attach_collection-Consistent announcement now failed db name id c h sound e =
      let shared : NetworkManager Byte × Option String =
        if c.network_id == ""
        then add_collection_to_network marshal announcement now db.network id c.name
        else (db.network, none) in
      let (changed, e1, e2) =
        bind-done (attach_to_network fl st (shared.1) (record c { store = db.storage }) id) _ e in
      let reached : Kept (record db { network = shared.0 }) = record {
        network =
            shared-Reachable (c.network_id == "") announcement now db.network id c.name h.network;
        collections = h.collections;
      } in
      subst (λ o. Kept (o.0)) (done-injective e2)
        (settle-Consistent fl st Byte marshal payload own_id now failed name
          (record db { network = shared.0 }) changed reached
          (attach-Sound fl st (shared.1) (record c { store = db.storage }) id
            (store-Sound fl st c db.storage sound) e1))

  pub add_to_network-Consistent :
      (announcement : String → V) (now : ℤ) (failed : Option String) (db : Database fl st Byte)
      (id name : String) {o : Database fl st Byte × Option (Reply (Unit {0}))}
      → Kept db
      → add_to_network fl st Byte marshal payload announcement now failed db id name ≡ done o
      → Kept (o.0)
  unfolding add_to_network
  add_to_network-Consistent announcement now failed db id name h e =
      elim (Option-cases (lookup name db.collections)) [
        | inl missing ↦
            let same : add_to_network fl st Byte marshal payload announcement now failed db id name
                ≡ done (db, none) =
              rw (missing, add_to_network) refl in
            subst (λ o. Kept (o.0)) (done-injective (sym same ∙ e)) h
        | inr (c, there) ↦
            let same : add_to_network fl st Byte marshal payload announcement now failed db id name
                ≡ (attach_collection fl st Byte marshal payload announcement now failed db name c id
                    >>= λ r. done (r.0, some (r.1))) =
              rw (there, add_to_network) refl in
            let (r, e1, e2) =
              bind-done
                (attach_collection fl st Byte marshal payload announcement now failed db name c id)
                _ (sym same ∙ e) in
            subst (λ o. Kept (o.0)) (done-injective e2)
              (attach_collection-Consistent announcement now failed db name id c h
                (lookup-All (Sound fl st) name db.collections there h.collections) e1)
      ]

  pub remove_from_network-Consistent :
      (name : String) (db : Database fl st Byte)
      → Kept db
      → Kept (remove_from_network fl st Byte db name)
  unfolding remove_from_network
  remove_from_network-Consistent name db h = elim (Option-cases (lookup name db.collections)) [
    | inl missing ↦
        let same : remove_from_network fl st Byte db name ≡ db =
          rw (missing, remove_from_network) refl in
        subst Kept (sym same) h
    | inr (c, there) ↦
        rw (there, remove_from_network)
          (record {
            network = unshared (c.network_id == "") c;
            collections =
                insert-All (Sound fl st) name _ db.collections
                  (detach-Sound fl st c
                    (lookup-All (Sound fl st) name db.collections there h.collections))
                  h.collections;
          })
  ]
    where
      unshared :
          (b : Bool) (c : Replica fl st)
          → NetworkReached (
              if b
              then db.network
              else remove_collection_from_network db.network c.network_id c.name)
      unshared true c = h.network
      unshared false c = Net.after h.network (Net.unshare_step c.network_id c.name)
