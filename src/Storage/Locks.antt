-- ===== src/Storage/Locks.antt =====
-- go/internal/storage/storage.go: what the lock of the storage makes of its calls.
use knirvbase.Base.{
  arith, String, ◌≡◌, refl, Bool, true, false, none, some, List, [], ◌∷◌, if◌then◌else◌, ◌⊎◌, inl,
  inr, Option-cases,
}
use knirvbase.Base.Int.{ℤ}
use knirvbase.GoMap.{GoMap}
use knirvbase.Result.{ok, err}
use knirvbase.Call.{
  Mutex, unlocked, read_locked, read_locked_writer_waits, done, deadlocked, with_lock-held,
}
use knirvbase.Floats.{Floats}
use knirvbase.Value.{Value, Document}
use knirvbase.Json.{Codec}
use knirvbase.Crypto.{Primitives}
use knirvbase.Storage.{Disk, FileStorage, files_of}
use knirvbase.Storage.Reading.{find_doc, find_each, find_all, read_file, file_names, and_found}
use knirvbase.Storage.Changes.{update_doc}

-- an entry of a list at which a test holds
abbrev pub Exists {ℓ} : {A : Type ℓ} → (A → Bool) → List A → Type 0
Exists f [] = ⊥
Exists f (x ∷ xs) = (f x ≡ true) ⊎ Exists f xs

module _ (p : Primitives) (fl : Floats) (c : Codec fl.Float p.Byte) (disk : Disk p fl c) (now : ℤ)
    (seeds : String → p.Seed × p.Seed) where
  open fl use {Float}

  -- Update never returns, whatever the lock's state when it is called: it takes the lock and then
  -- calls Find, which waits for it.
  pub update_doc_deadlocks :
      (m : Mutex) (fs : FileStorage p fl c) (collection id : String) (update : GoMap (Value Float))
      → update_doc p fl c disk now seeds m fs collection id update ≡ deadlocked
  unfolding update_doc find_doc
  update_doc_deadlocks m fs collection id update = with_lock-held m _ refl

  find_each_deadlocks :
      (waits : String → Bool) (fs : FileStorage p fl c) (collection : String) (ids : List String)
      → Exists waits ids
      → find_each p fl c disk now seeds
          (λ id. if waits id then read_locked_writer_waits else read_locked)
          fs
          collection
          ids
        ≡ deadlocked
  unfolding find_each find_doc
  find_each_deadlocks waits fs collection [] e = elim e [ ]
  find_each_deadlocks waits fs collection (id ∷ ids) (inl e) = rw e refl
  find_each_deadlocks waits fs collection (id ∷ ids) (inr e) =
      let h = find_each_deadlocks waits fs collection ids e in ground arith

  -- FindAll does not return either if another goroutine waits to write when one of the documents is
  -- read: the Find of that document waits behind the writer, who waits for FindAll.
  pub find_all_deadlocks :
      (waits : String → Bool) (fs : FileStorage p fl c) (collection : String)
      → disk.list_error collection ≡ none
      → Exists waits (file_names p fl c disk now seeds (files_of p fl c fs collection))
      → find_all p fl c disk now seeds waits unlocked fs collection ≡ deadlocked
  unfolding find_all
  find_all_deadlocks waits fs collection h e =
      rw (h, find_each_deadlocks waits fs collection _ e) refl

  -- the documents that are there and can be read
  abbrev pub readable : FileStorage p fl c → String → List String → List (Document Float)
  readable fs collection [] = []
  readable fs collection (id ∷ ids) =
      and_found p fl c disk now seeds (read_file p fl c disk now seeds fs collection id)
        (readable fs collection ids)

  find_each_returns :
      (fs : FileStorage p fl c) (collection : String) (ids : List String)
      → find_each p fl c disk now seeds (λ _. read_locked) fs collection ids
        ≡ done (readable fs collection ids)
  unfolding find_each find_doc
  find_each_returns fs collection [] = refl
  find_each_returns fs collection (id ∷ ids) = rw (find_each_returns fs collection ids) refl

  -- With no other goroutine about, FindAll returns: the error of the directory, or the documents that
  -- are there and can be read, in the order of their files' names.
  pub find_all_returns :
      (fs : FileStorage p fl c) (collection : String)
      → find_all p fl c disk now seeds (λ _. false) unlocked fs collection
        ≡ done (elim (disk.list_error collection) [
          | some e ↦ err e
          | none ↦ ok (
              readable fs collection
                (file_names p fl c disk now seeds (files_of p fl c fs collection)))
        ])
  unfolding find_all
  find_all_returns fs collection = elim (Option-cases (disk.list_error collection)) [
    | inl h ↦
        rw
          (
            h,
            find_each_returns fs collection
                (file_names p fl c disk now seeds (files_of p fl c fs collection)),
          )
          refl
    | inr (e, h) ↦ rw h refl
  ]
