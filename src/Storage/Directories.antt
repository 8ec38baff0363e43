-- ===== src/Storage/Directories.antt =====
-- go/internal/storage/storage.go: the files of the directories when the file of one document is set.
use knirvbase.Base.{arith, String, ◌≡◌, Option, none, some, List, ◌⊎◌, ◌≢◌, eq_iff, eq_refl}
use knirvbase.GoMap.{lookup, insert, remove, Distinct}
use knirvbase.GoMap.Laws.{lookup-insert, lookup-remove}
use knirvbase.Floats.{Floats}
use knirvbase.Json.{Codec}
use knirvbase.Crypto.{Primitives}
use knirvbase.Storage.{FileStorage, document_file, files_of, set_file}

module _ (p : Primitives) (fl : Floats) (c : Codec fl.Float p.Byte) where
  open p use {Byte}
  open fl use {Float}

  -- the directories with the file of one document set, or as they are
  abbrev pub OnlyFile : FileStorage p fl c → FileStorage p fl c → String → String → Type 0
  OnlyFile fs fs' collection id =
      (collection' id' : String)
      → ((collection' ≢ collection) ⊎ (id' ≢ id))
      → document_file p fl c fs' collection' id' ≡ document_file p fl c fs collection' id'

  pub document_file-set_file :
      (fs : FileStorage p fl c) (collection id : String) (bs : List Byte)
      → document_file p fl c (set_file p fl c fs collection id (some bs)) collection id ≡ some bs
  unfolding set_file
  document_file-set_file fs collection id bs = ground (
    arith,
    eq_refl collection,
    eq_refl id,
    lookup-insert collection collection (insert id bs (files_of p fl c fs collection)) fs.documents,
    lookup-insert id id bs (files_of p fl c fs collection),
  )

  pub set_file-OnlyFile :
      (fs : FileStorage p fl c) (collection id : String) (o : Option (List Byte))
      → ((collection' : String) → Distinct (files_of p fl c fs collection'))
      → OnlyFile fs (set_file p fl c fs collection id o) collection id
  unfolding set_file lookup
  set_file-OnlyFile fs collection id (some bs) d collection' id' other = ground (
    arith,
    eq_iff collection collection',
    eq_iff id id',
    lookup-insert collection collection' (insert id bs (files_of p fl c fs collection))
        fs.documents,
    lookup-insert id id' bs (files_of p fl c fs collection),
  )
  set_file-OnlyFile fs collection id none d collection' id' other = ground (
    arith,
    eq_iff collection collection',
    eq_iff id id',
    lookup-insert collection collection' (remove id (files_of p fl c fs collection)) fs.documents,
    lookup-remove id id' (files_of p fl c fs collection) (d collection),
  )
