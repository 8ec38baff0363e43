-- ===== src/Storage/Instance.antt =====
-- FileStorage of go/internal/storage/storage.go as what a collection takes for its storage: each call
-- comes from outside, and so finds the lock free.
use knirvbase.Base.{String, Bool, refl}
use knirvbase.Base.Int.{ℤ}
use knirvbase.Floats.{Floats}
use knirvbase.Call.{unlocked}
use knirvbase.Json.{Codec}
use knirvbase.Store.{Store, KeepsIndexes}
use knirvbase.Crypto.{Primitives}
use knirvbase.Storage.{Disk, FileStorage}
use knirvbase.Storage.Files.{insert_doc}
use knirvbase.Storage.Reading.{find_doc, find_all}
use knirvbase.Storage.Changes.{update_doc, delete_doc}

-- A time, the seeds of the encryption, the disk, and where another goroutine waits for the lock stay
-- the same for all calls.
abbrev pub file_store :
    (p : Primitives) (fl : Floats) (c : Codec fl.Float p.Byte)
    → Disk p fl c
    → ℤ
    → (String → p.Seed × p.Seed)
    → (String → Bool)
    → Store fl
file_store p fl c disk now seeds writer_waits = record {
  State = FileStorage p fl c;
  find = find_doc p fl c disk now seeds unlocked;
  find_all = find_all p fl c disk now seeds writer_waits unlocked;
  insert_doc = insert_doc p fl c disk now seeds unlocked;
  update_doc = update_doc p fl c disk now seeds unlocked;
  delete_doc = delete_doc p fl c disk now seeds unlocked;
  indexes = λ fs. fs.indexes;
  set_indexes = λ fs im. record fs { indexes = im };
}

pub file_store-KeepsIndexes :
    (p : Primitives) (fl : Floats) (c : Codec fl.Float p.Byte) (disk : Disk p fl c) (now : ℤ)
    (seeds : String → p.Seed × p.Seed) (writer_waits : String → Bool)
    → KeepsIndexes (file_store p fl c disk now seeds writer_waits)
file_store-KeepsIndexes p fl c disk now seeds writer_waits s im = refl
