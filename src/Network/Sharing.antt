-- ===== src/Network/Sharing.antt =====
-- go/internal/network/network_manager.go: the collections of a network.
use knirvbase.Base.{ℕ, String, true, none, some, List, [], map, length}
use knirvbase.GoMap.{lookup, insert, remove}
use knirvbase.Network.{NetworkConfig, NetworkManager, at_pointer, write_pointer}

abbrev pub collection_count : ℕ → List NetworkConfig → ℕ
collection_count pointer configs = elim (at_pointer pointer configs) [
  | none ↦ 0
  | some cfg ↦ length cfg.collections
]

module _ {Byte : Type 0} where
  -- st.CollectionsShared = len(netCfg.Collections)
  unfoldable pub count_collections : String → ℕ → NetworkManager Byte → NetworkManager Byte
  count_collections network_id pointer n = elim (lookup network_id n.stats) [
    | none ↦ n
    | some s ↦ record n {
      counters =
          write_pointer s
            (λ st. record st { collections_shared = collection_count pointer n.configs })
            n.counters;
    }
  ]

  -- the second critical section of AddCollectionToNetwork, which holds the pointer from the first one
  unfoldable pub share_collection : String → String → ℕ → NetworkManager Byte → NetworkManager Byte
  unfolding count_collections
  share_collection network_id collection pointer n =
      count_collections network_id pointer (record n {
        configs =
            write_pointer pointer
              (λ cfg. record cfg { collections = insert collection true cfg.collections })
              n.configs;
      })

  unfoldable pub remove_collection_from_network :
      NetworkManager Byte → String → String → NetworkManager Byte
  unfolding count_collections
  remove_collection_from_network n network_id collection = elim (lookup network_id n.networks) [
    | none ↦ n
    | some pointer ↦ count_collections network_id pointer (record n {
      configs =
          write_pointer pointer
            (λ cfg. record cfg { collections = remove collection cfg.collections }) n.configs;
    })
  ]

  unfoldable pub get_network_collections : NetworkManager Byte → String → List String
  get_network_collections n network_id = elim (lookup network_id n.networks) [
    | none ↦ []
    | some pointer ↦ elim (at_pointer pointer n.configs) [
      | none ↦ []
      | some cfg ↦ map (λ e. e.0) cfg.collections
    ]
  ]
