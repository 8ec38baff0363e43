-- ===== src/Storage/Accepted.antt =====
-- go/internal/storage/storage.go: documents that Insert accepts and Find reads.
use knirvbase.Base.{String, ◌≡◌, false, ◌&&◌, none, some, List, is_some}
use knirvbase.Base.Int.{ℤ}
use knirvbase.GoMap.{made, lookup}
use knirvbase.Outcome.{returns}
use knirvbase.Result.{ok}
use knirvbase.Call.{unlocked, done}
use knirvbase.Floats.{Floats}
use knirvbase.Value.{Document, str}
use knirvbase.Json.{Codec, JsonDecodes}
use knirvbase.Json.Laws.{json_document}
use knirvbase.IndexManager.{Indexes, insert_document}
use knirvbase.IndexManager.Laws.{document_id-str}
use knirvbase.Crypto.{Primitives}
use knirvbase.Storage.{Disk, FileStorage, map_value, is_encrypted_collection}
use knirvbase.Storage.Files.{insert_doc}
use knirvbase.Storage.Reading.{find_doc}
use knirvbase.Storage.Reads.{IsPlain}
use knirvbase.Storage.Inserts.{find_doc-insert_doc_total}

module _ (p : Primitives) (fl : Floats) (c : Codec fl.Float p.Byte) (disk : Disk p fl c) (now : ℤ)
    (seeds : String → p.Seed × p.Seed) where
  open p use {Byte}
  open fl use {Float}

  -- What makes the insertion of a document into a collection of the storage succeed, and readable again: it
  -- can be encoded, before and after it has been decoded, it is neither encrypted nor a MEMORY entry,
  -- its file can be written and read, and the indexes take it.
  pub record Accepts (fs : FileStorage p fl c) (name id : String) (es : Document Float)
      : Type 0 where
    pub bytes : List Byte
    pub again : List Byte
    pub new_indexes : Indexes fl
    pub has_text : lookup "id" es ≡ some (str id)
    pub encodes : c.encode (map_value p fl c (made es)) ≡ ok bytes
    pub encodes_again : c.encode (map_value p fl c (made (json_document fl es))) ≡ ok again
    pub unencrypted : (is_encrypted_collection name && is_some fs.encryption.master_key) ≡ false
    pub plain : IsPlain p fl c disk now seeds fs es
    pub writable : disk.write_error name id ≡ none
    pub readable : disk.read_error name id ≡ none
    pub indexed : insert_document fl fs.indexes name es ≡ returns new_indexes

  -- A document that is accepted is stored and found.
  pub accepted-found :
      JsonDecodes fl c
      → (fs : FileStorage p fl c) (name id : String) (es : Document Float) → Accepts fs name id es
      → (fs' : FileStorage p fl c) × (insert_doc p fl c disk now seeds unlocked fs name (made es)
          ≡ done (fs', none))
        × (find_doc p fl c disk now seeds unlocked fs' name id
            ≡ done (ok (made (json_document fl es))))
  accepted-found json fs name id es a =
      find_doc-insert_doc_total p fl c disk now seeds json fs name id es a.bytes a.again
        a.new_indexes a.encodes a.encodes_again (document_id-str fl es id a.has_text) a.unencrypted
        a.plain a.writable a.readable a.indexed
