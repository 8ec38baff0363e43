-- ===== src/Collection/Local.antt =====
-- LocalCollection of go/internal/collection/distributed_collection.go, over the storage's interface:
-- what a collection without a network does, with its deep copies of documents.
use knirvbase.Base.{ℕ, String, ◌≡◌, refl, ap, Option, none, some, [], ◌∷◌}
use knirvbase.GoMap.{GoMap, nil, made}
use knirvbase.Result.{Result, ok, err}
use knirvbase.Call.{Call, done, ◌>>=◌}
use knirvbase.Floats.{Floats}
use knirvbase.Store.{Store}
use knirvbase.Value.{
  Value, Items, Fields, Document, null, bool, int, float, str, entry_type, floats, arr, obj,
  no_items, item, no_fields, field,
}

-- cloneMap and cloneSlice, on the values that they enter
unfoldable mutual
  pub clone_value : {F : Type 0} → Value F → Value F
  clone_value (arr xs) = arr (clone_slice xs)
  clone_value (obj fs) = obj (clone_fields fs)
  clone_value null = null
  clone_value (bool b) = bool b
  clone_value (int n) = int n
  clone_value (float x) = float x
  clone_value (str s) = str s
  clone_value (entry_type s) = entry_type s
  clone_value (floats xs) = floats xs

  pub clone_slice : {F : Type 0} → Items F → Items F
  clone_slice no_items = no_items
  clone_slice (item v vs) = item (clone_value v) (clone_slice vs)

  pub clone_fields : {F : Type 0} → Fields F → Fields F
  clone_fields no_fields = no_fields
  clone_fields (field k v fs) = field k (clone_value v) (clone_fields fs)

unfoldable pub clone_entries : {F : Type 0} → Document F → Document F
unfolding clone_value
clone_entries [] = []
clone_entries ((k, v) ∷ es) = (k, clone_value v) ∷ clone_entries es

unfoldable pub clone_document : {F : Type 0} → GoMap (Value F) → GoMap (Value F)
unfolding clone_entries
clone_document nil = nil
clone_document (made es) = made (clone_entries es)

mutual
  unfolding clone_value

  clone_value_same : {F : Type 0} (v : Value F) → clone_value v ≡ v
  clone_value_same (arr xs) = ap arr (clone_slice_same xs)
  clone_value_same (obj fs) = ap obj (clone_fields_same fs)
  clone_value_same null = refl
  clone_value_same (bool b) = refl
  clone_value_same (int n) = refl
  clone_value_same (float x) = refl
  clone_value_same (str s) = refl
  clone_value_same (entry_type s) = refl
  clone_value_same (floats xs) = refl

  clone_slice_same : {F : Type 0} (vs : Items F) → clone_slice vs ≡ vs
  clone_slice_same no_items = refl
  clone_slice_same (item v vs) = rw (clone_value_same v, clone_slice_same vs) refl

  clone_fields_same : {F : Type 0} (fs : Fields F) → clone_fields fs ≡ fs
  clone_fields_same no_fields = refl
  clone_fields_same (field k v fs) = rw (clone_value_same v, clone_fields_same fs) refl

clone_entries_same : {F : Type 0} (es : Document F) → clone_entries es ≡ es
unfolding clone_entries
clone_entries_same [] = refl
clone_entries_same ((k, v) ∷ es) = rw (clone_value_same v, clone_entries_same es) refl

-- A deep copy has the value of what it copies.
pub clone_document_same : {F : Type 0} (doc : GoMap (Value F)) → clone_document doc ≡ doc
unfolding clone_document
clone_document_same nil = refl
clone_document_same (made es) = ap made (clone_entries_same es)

module _ (fl : Floats) (st : Store fl) where
  open fl use {Float}
  open st use {State, find, find_all, insert_doc, update_doc, delete_doc}

  abbrev answer : {A : Type 0} → A → State × Option String → State × Result A
  answer a (s, none) = (s, ok a)
  answer a (s, some e) = (s, err e)

  -- LocalCollection.Insert: the storage gets a copy, and the caller a copy of that
  unfoldable pub insert_copy :
      State → String → GoMap (Value Float) → Call (State × Result (GoMap (Value Float)))
  unfolding clone_document
  insert_copy s name doc =
      let cloned = clone_document doc in
      do r ← insert_doc s name cloned; done (answer (clone_document cloned) r)

  -- LocalCollection.Update and Delete: one document is affected if there is no error
  unfoldable pub update_copy :
      State → String → String → GoMap (Value Float) → Call (State × Result ℕ)
  update_copy s name id update = do r ← update_doc s name id update; done (answer 1 r)

  unfoldable pub delete_copy : State → String → String → Call (State × Result ℕ)
  delete_copy s name id = do r ← delete_doc s name id; done (answer 1 r)

  -- LocalCollection.Find
  unfoldable pub find_copy : State → String → String → Call (Result (GoMap (Value Float)))
  find_copy s name id = find s name id

  pub insert_copy-accepted :
      (s s' : State) (name : String) (doc : GoMap (Value Float))
      → insert_doc s name doc ≡ done (s', none)
      → insert_copy s name doc ≡ done (s', ok doc)
  unfolding insert_copy
  insert_copy-accepted s s' name doc accepted =
      rw (clone_document_same doc, clone_document_same doc, accepted) refl
