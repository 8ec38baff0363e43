-- ===== src/Database/History.antt =====
-- The invariant of a database (database/distributed_database.go): its network manager is one that a
-- network manager can become, and every collection is sound.
use knirvbase.Base.{
  String, ◌≡◌, refl, sym, ◌∙◌, subst, Option, none, some, List, [], ◌∷◌, All, ◌==◌, arith,
  Bool-cases, Option-cases, inl, inr,
}
use knirvbase.Base.Int.{ℤ}
use knirvbase.GoMap.{lookup, insert}
use knirvbase.Result.{Result}
use knirvbase.Call.{Call, done, ◌>>=◌, bind-done, done-injective}
use knirvbase.Floats.{Floats}
use knirvbase.Store.{Store}
use knirvbase.Collection.{
  Message, operation_message, sync_request, sync_response, Replica, Reply, Changed,
}
use knirvbase.Collection.Attached.{Sound, SoundAfter, store-Sound}
use knirvbase.Network.{NetworkManager, ProtocolMessage}
use knirvbase.Network.Steps as Net
use knirvbase.Database.Calls.{Database, send_message, send_messages, settle, run_collection}

module _ {V : Type 0} where
  pub insert-All :
      (P : V → Type 0) (k : String) (v : V) (m : List (String × V))
      → P v
      → All (λ e. P (e.1)) m
      → All (λ e. P (e.1)) (insert k v m)
  unfolding insert
  insert-All P k v [] h all = (h, tt)
  insert-All P k v ((j, w) ∷ m) h all = elim (Bool-cases (j == k)) [
    | inl e ↦ rw e (h, all.1)
    | inr e ↦ rw e (all.0, insert-All P k v m h all.1)
  ]

  pub lookup-All :
      (P : V → Type 0) (k : String) (m : List (String × V)) {v : V}
      → lookup k m ≡ some v
      → All (λ e. P (e.1)) m
      → P v
  unfolding lookup
  lookup-All P k [] e all = cc
  lookup-All P k ((j, w) ∷ m) {v} e all = elim (Bool-cases (j == k)) [
    | inl b ↦ let same : w ≡ v = ground (arith, b, e) in subst P same all.0
    | inr b ↦ let rest : lookup k m ≡ some v = ground (arith, b, e) in lookup-All P k m rest all.1
  ]

module _ (fl : Floats) (st : Store fl) (Byte : Type 0) {V : Type 0}
    (marshal : ProtocolMessage V → Result (List Byte)) (payload : String → Message fl st → V) where
  open fl use {Float}

  -- The network manager can be reached, and every collection is sound.
  pub record Consistent (own_id : String) (db : Database fl st Byte) : Type 0 where
    pub network : Net.Reachable marshal own_id db.network
    pub collections : All (λ e. Sound fl st (e.1)) db.collections

  send_message-Reachable :
      (own_id : String) (now : ℤ) (failed : Option String) (name id : String)
      (n : NetworkManager Byte) (m : Message fl st)
      → Net.Reachable marshal own_id n
      → Net.Reachable marshal own_id
          (send_message fl st Byte marshal payload now failed name id n m)
  unfolding send_message
  send_message-Reachable own_id now failed name id n (operation_message i op) r =
      Net.after r (Net.broadcast_step i _)
  send_message-Reachable own_id now failed name id n (sync_request i v) r =
      Net.after r (Net.broadcast_step i _)
  send_message-Reachable own_id now failed name id n (sync_response peer ops v) r =
      Net.after r (Net.send_step failed peer id _)

  send_messages-Reachable :
      (own_id : String) (now : ℤ) (failed : Option String) (name id : String)
      (n : NetworkManager Byte) (ms : List (Message fl st))
      → Net.Reachable marshal own_id n
      → Net.Reachable marshal own_id
          (send_messages fl st Byte marshal payload now failed name id n ms)
  unfolding send_messages
  send_messages-Reachable own_id now failed name id n [] r = r
  send_messages-Reachable own_id now failed name id n (m ∷ ms) r =
      send_messages-Reachable own_id now failed name id
        (send_message fl st Byte marshal payload now failed name id n m) ms
        (send_message-Reachable own_id now failed name id n m r)

  pub settle-Consistent :
      {A : Type 0} (own_id : String) (now : ℤ) (failed : Option String) (name : String)
      (db : Database fl st Byte) (c : Changed fl st A)
      → Consistent own_id db
      → SoundAfter fl st c
      → Consistent own_id ((settle fl st Byte marshal payload now failed name db c).0)
  unfolding settle
  settle-Consistent own_id now failed name db (reply, c, ms) h sound = record {
    network = send_messages-Reachable own_id now failed c.name c.network_id db.network ms h.network;
    collections = insert-All (Sound fl st) name c db.collections sound h.collections;
  }

  pub run_collection-Consistent :
      {A : Type 0} (own_id : String) (now : ℤ) (failed : Option String)
      (f : Replica fl st → Call (Changed fl st A)) (db : Database fl st Byte) (name : String)
      {o : Database fl st Byte × Option (Reply A)}
      → ((r : Replica fl st) (c : Changed fl st A)
          → Sound fl st r
          → f r ≡ done c
          → SoundAfter fl st c)
      → Consistent own_id db
      → run_collection fl st Byte marshal payload now failed f db name ≡ done o
      → Consistent own_id (o.0)
  unfolding run_collection
  run_collection-Consistent own_id now failed f db name keeps h e =
      elim (Option-cases (lookup name db.collections)) [
        | inl missing ↦
            let same : run_collection fl st Byte marshal payload now failed f db name
                ≡ done (db, none) =
              rw (missing, run_collection) refl in
            subst (λ o. Consistent own_id (o.0)) (done-injective (sym same ∙ e)) h
        | inr (c, there) ↦
            let r = record c { store = db.storage } in
            let same : run_collection fl st Byte marshal payload now failed f db name ≡ (
                f r >>= λ changed.
                let settled = settle fl st Byte marshal payload now failed name db changed in
                done (settled.0, some (settled.1))) =
              rw (there, run_collection) refl in
            let (changed, e1, e2) = bind-done (f r) _ (sym same ∙ e) in
            let sound = lookup-All (Sound fl st) name db.collections there h.collections in
            subst (λ o. Consistent own_id (o.0)) (done-injective e2)
              (settle-Consistent own_id now failed name db changed h
                (keeps r changed (store-Sound fl st c db.storage sound) e1))
      ]
