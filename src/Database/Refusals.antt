-- ===== src/Database/Refusals.antt =====
-- What is left when a collection cannot be attached to a network (database/distributed_database.go,
-- AddCollectionToNetwork of network/network_manager.go).
use knirvbase.Base.{
  ℕ, String, ◌≡◌, refl, ◌∙◌, true, false, Option, some, List, ◌==◌, map, arith, eq_refl,
}
use knirvbase.Base.Int.{ℤ}
use knirvbase.GoMap.{lookup, insert}
use knirvbase.GoMap.Laws.{lookup-insert}
use knirvbase.Result.{Result}
use knirvbase.Call.{done}
use knirvbase.Floats.{Floats}
use knirvbase.Store.{Store}
use knirvbase.Collection.{Replica, Message, fails, network_refused}
use knirvbase.Network.{NetworkConfig, NetworkManager, ProtocolMessage, at_pointer, write_pointer}
use knirvbase.Network.Sharing.{share_collection, count_collections, get_network_collections}
use knirvbase.Network.Messages.{add_collection_to_network, broadcast_message}
use knirvbase.Network.Sends.{at_pointer-write_pointer}
use knirvbase.Database.{remove_from_network}
use knirvbase.Database.Calls.{Database, add_to_network, attach_collection, settle, send_messages}

module _ {Byte : Type 0} where
  count_collections-keeps :
      (id : String) (pointer : ℕ) (n : NetworkManager Byte)
      → ((count_collections id pointer n).networks ≡ n.networks)
        × ((count_collections id pointer n).configs ≡ n.configs)
        × ((count_collections id pointer n).initialized ≡ n.initialized)
  unfolding count_collections
  count_collections-keeps id pointer n = ground arith

  get_network_collections-known :
      (id : String) (pointer : ℕ) (n : NetworkManager Byte) (cfg : NetworkConfig)
      → lookup id n.networks ≡ some pointer
      → at_pointer pointer n.configs ≡ some cfg
      → get_network_collections n id ≡ map (λ e. e.0) cfg.collections
  unfolding get_network_collections
  get_network_collections-known id pointer n cfg known config =
      rw (known, get_network_collections, config, get_network_collections) refl

  -- a network's collections, once one more is shared
  get_network_collections-share_collection :
      (id collection : String) (pointer : ℕ) (n : NetworkManager Byte) (cfg : NetworkConfig)
      → lookup id n.networks ≡ some pointer
      → at_pointer pointer n.configs ≡ some cfg
      → (get_network_collections (share_collection id collection pointer n) id
          ≡ map (λ e. e.0) (insert collection true cfg.collections))
        × ((share_collection id collection pointer n).initialized ≡ n.initialized)
  unfolding share_collection
  get_network_collections-share_collection id collection pointer n cfg known config =
      let share : NetworkConfig → NetworkConfig =
        λ cfg. record cfg { collections = insert collection true cfg.collections } in
      let written : NetworkManager Byte = record n {
        configs = write_pointer pointer share n.configs;
      } in
      let (nets, configs, running) = count_collections-keeps id pointer written in
      (
        get_network_collections-known id pointer (count_collections id pointer written) (share cfg)
            (rw nets known) (rw configs (at_pointer-write_pointer pointer share n.configs config)),
        running,
      )

module _ (fl : Floats) (st : Store fl) (Byte : Type 0) {V : Type 0}
    (marshal : ProtocolMessage V → Result (List Byte)) (payload : String → Message fl st → V)
    (announcement : String → V) (now : ℤ) (failed : Option String) where
  stopped_broadcast :
      (n : NetworkManager Byte) (id : String) (msg : ProtocolMessage V)
      → n.initialized ≡ false
      → broadcast_message marshal n id msg ≡ (n, some "not initialized")
  unfolding broadcast_message
  stopped_broadcast n id msg stopped = rw (stopped, broadcast_message) refl

  refused_broadcast :
      (n : NetworkManager Byte) (id collection : String) (pointer : ℕ)
      → lookup id n.networks ≡ some pointer
      → (share_collection id collection pointer n).initialized ≡ false
      → add_collection_to_network marshal announcement now n id collection
        ≡ (share_collection id collection pointer n, some "not initialized")
  unfolding add_collection_to_network
  refused_broadcast n id collection pointer known stopped =
      rw (known, add_collection_to_network)
        (stopped_broadcast (share_collection id collection pointer n) id _ stopped)

  attach_collection-refused :
      (db : Database fl st Byte) (network_id name e : String) (c : Replica fl st)
      (n : NetworkManager Byte)
      → (c.network_id == "") ≡ true
      → add_collection_to_network marshal announcement now db.network network_id c.name
        ≡ (n, some e)
      → attach_collection fl st Byte marshal payload announcement now failed db name c network_id
        ≡ done (
          record db {
            network = n;
            collections = insert name (record c { store = db.storage }) db.collections;
          },
          fails (network_refused e),
        )
  unfolding attach_collection settle send_messages
  attach_collection-refused db network_id name e c n free refused = rw (free, refused) refl

  -- When the network manager is not running, as after a Shutdown, AddCollectionToNetwork of an
  -- unattached collection to a network that is known fails, and the collection stays unattached; but
  -- the network counts it among its collections from then on, and RemoveCollectionFromNetwork leaves
  -- the network as it is.
  pub refused_collection_shared :
      (db : Database fl st Byte) (network_id name : String) (c : Replica fl st) (pointer : ℕ)
      (cfg : NetworkConfig)
      → lookup name db.collections ≡ some c
      → c.network_id ≡ ""
      → lookup network_id db.network.networks ≡ some pointer
      → at_pointer pointer db.network.configs ≡ some cfg
      → db.network.initialized ≡ false
      → (db' : Database fl st Byte) × (add_to_network fl st Byte marshal payload announcement now
            failed db network_id name
          ≡ done (db', some (fails (network_refused "not initialized"))))
        × (lookup name db'.collections ≡ some (record c { store = db.storage }))
        × (get_network_collections db'.network network_id
            ≡ map (λ e. e.0) (insert c.name true cfg.collections))
        × ((remove_from_network fl st Byte db' name).network ≡ db'.network)
  unfolding add_to_network remove_from_network
  refused_collection_shared db network_id name c pointer cfg there unattached known config stopped =
      let free : (c.network_id == "") ≡ true = rw unattached refl in
      let (listed, running) =
        get_network_collections-share_collection network_id c.name pointer db.network cfg known
          config in
      let shared = share_collection network_id c.name pointer db.network in
      let refused =
        refused_broadcast db.network network_id c.name pointer known (running ∙ stopped) in
      let c' : Replica fl st = record c { store = db.storage } in
      let db' : Database fl st Byte = record db {
        network = shared;
        collections = insert name c' db.collections;
      } in
      let kept : lookup name db'.collections ≡ some c' =
        ground (arith, lookup-insert name name c' db.collections, eq_refl name) in
      (
        db',
        rw
            (
              there,
              add_to_network,
              attach_collection-refused db network_id name _ c shared free refused,
            )
            refl,
        kept,
        listed,
        rw (kept, remove_from_network, free) refl,
      )
