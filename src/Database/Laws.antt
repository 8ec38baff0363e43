-- ===== src/Database/Laws.antt =====
-- The collections of a database and its networks (database/distributed_database.go).
use knirvbase.Base.{String, ◌≡◌, refl, sym, subst, some, ℕ, arith, eq_refl, Option-cases, inl, inr}
use knirvbase.GoMap.{lookup, insert}
use knirvbase.GoMap.Laws.{lookup-insert}
use knirvbase.Floats.{Floats}
use knirvbase.Store.{Store}
use knirvbase.Collection.{new_distributed_collection}
use knirvbase.Database.{DistributedDatabase, setup_message_handlers, collection}

module _ (fl : Floats) (st : Store fl) (Byte : Type 0) where
  abbrev Database : Type 0
  Database = DistributedDatabase fl st Byte

  -- Asked a second time, Collection returns what it returned the first time and changes nothing more:
  -- the handlers are registered once.
  pub collection-collection :
      (h1 h2 h3 k1 k2 k3 : ℕ) (db : Database) (name : String)
      → collection fl st Byte k1 k2 k3 ((collection fl st Byte h1 h2 h3 db name).0) name
        ≡ collection fl st Byte h1 h2 h3 db name
  unfolding collection
  collection-collection h1 h2 h3 k1 k2 k3 db name =
      elim (Option-cases (lookup name db.collections)) [
        | inr (c, h) ↦
            let first : collection fl st Byte h1 h2 h3 db name ≡ (db, c) =
              rw (h, collection) refl in
            let second : collection fl st Byte k1 k2 k3 db name ≡ (db, c) =
              rw (h, collection) refl in
            subst (λ r. collection fl st Byte k1 k2 k3 (r.0) name ≡ r) (sym first) second
        | inl h ↦
            let c = new_distributed_collection fl st db.network.own_id name db.storage in
            let after_first : Database = record db {
              network = setup_message_handlers fl st Byte h1 h2 h3 db.network;
              collections = insert name c db.collections;
            } in
            let first : collection fl st Byte h1 h2 h3 db name ≡ (after_first, c) =
              rw (h, collection) refl in
            let found : lookup name (insert name c db.collections) ≡ some c =
              ground (arith, eq_refl name, lookup-insert name name c db.collections) in
            let second : collection fl st Byte k1 k2 k3 after_first name ≡ (after_first, c) =
              rw (found, collection) refl in
            subst (λ r. collection fl st Byte k1 k2 k3 (r.0) name ≡ r) (sym first) second
      ]
