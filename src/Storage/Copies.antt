-- ===== src/Storage/Copies.antt =====
-- go/internal/storage/storage.go: deepCopyDoc, by way of encoding/json.
use knirvbase.Base.{◌≡◌, refl, false, Option, none, some, List, inl, inr}
use knirvbase.GoMap.{GoMap, nil, made, entries, lookup}
use knirvbase.Result.{ok, Result-cases}
use knirvbase.Floats.{Floats}
use knirvbase.Value.{Value, Document, null}
use knirvbase.Json.{Codec, JsonDecodes, json_value, as_object}
use knirvbase.Json.Laws.{
  json_document, json_fields-fields_of, document-fields_of, lookup-json_document, json_option,
}
use knirvbase.Crypto.{Primitives}
use knirvbase.Storage.{deep_copy_doc, map_value}
use knirvbase.Storage.Files.{is_memory_type}

module _ (p : Primitives) (fl : Floats) (c : Codec fl.Float p.Byte) where
  open p use {Byte}
  open fl use {Float}

  -- A deep copy holds what encoding/json makes of the document; it is nil if the document cannot be
  -- encoded.
  pub deep_copy_doc-json :
      JsonDecodes fl c
      → (es : Document Float) (bs : List Byte) → c.encode (map_value p fl c (made es)) ≡ ok bs
      → deep_copy_doc p fl c (made es) ≡ made (json_document fl es)
  unfolding deep_copy_doc json_value as_object
  deep_copy_doc-json json es bs h =
      rw
        (
          h,
          deep_copy_doc,
          json _ bs h,
          deep_copy_doc,
          json_fields-fields_of fl es,
          document-fields_of (json_document fl es),
        )
        refl

  -- After encoding/json no value is a types.EntryType any more.
  is_memory_type-json :
      (o : Option (Value Float)) → is_memory_type p fl c (json_option fl o) ≡ false
  unfolding json_value
  is_memory_type-json none = refl
  is_memory_type-json (some null) = refl
  is_memory_type-json (some v) = refl

  pub deep_copy_doc-is_memory_type :
      JsonDecodes fl c
      → (doc : GoMap (Value Float))
      → is_memory_type p fl c (lookup "entryType" (entries (deep_copy_doc p fl c doc))) ≡ false
  unfolding deep_copy_doc lookup json_value
  deep_copy_doc-is_memory_type json doc = elim (Result-cases (c.encode (map_value p fl c doc))) [
    | inr (e, h) ↦ rw (h, deep_copy_doc) refl
    | inl (bs, h) ↦ copy doc bs h
  ]
    where
      copy :
          (m : GoMap (Value Float)) (bs : List Byte)
          → c.encode (map_value p fl c m) ≡ ok bs
          → is_memory_type p fl c (lookup "entryType" (entries (deep_copy_doc p fl c m))) ≡ false
      copy nil bs h = rw (h, deep_copy_doc, json _ bs h, deep_copy_doc) refl
      copy (made es) bs h =
          rw (deep_copy_doc-json json es bs h, lookup-json_document fl "entryType" es)
            (is_memory_type-json (lookup "entryType" es))
