-- ===== src/Json/Laws.antt =====
-- What a value is after encoding/json has encoded and decoded it.
use knirvbase.Base.{arith, String, ◌≡◌, refl, ap, ◌∙◌, Option, none, some, List, [], ◌∷◌}
use knirvbase.GoMap.{lookup, Distinct}
use knirvbase.Floats.{Floats}
use knirvbase.Value.{
  Value, Items, Fields, Document, document, fields_of, null, bool, int, float, str, entry_type,
  floats, arr, obj, no_items, item, no_fields, field,
}
use knirvbase.Json.{float_items, json_value, json_items, json_fields}

pub fields_of-document : {F : Type 0} (fs : Fields F) → fields_of (document fs) ≡ fs
unfolding fields_of document
fields_of-document no_fields = refl
fields_of-document (field k v fs) = rw (fields_of-document fs)

pub document-fields_of : {F : Type 0} (es : Document F) → document (fields_of es) ≡ es
unfolding fields_of document
document-fields_of [] = refl
document-fields_of ((k, v) ∷ es) = rw (document-fields_of es)

module _ (fl : Floats) where
  open fl use {Float}

  float_items_json : (xs : List Float) → json_items fl (float_items fl xs) ≡ float_items fl xs
  unfolding json_value
  float_items_json [] = refl
  float_items_json (x ∷ xs) = rw (float_items_json xs)

  -- A second time changes nothing.
  mutual
    unfolding json_value

    pub json_value_idem : (v : Value Float) → json_value fl (json_value fl v) ≡ json_value fl v
    json_value_idem null = refl
    json_value_idem (bool b) = refl
    json_value_idem (int n) = refl
    json_value_idem (float x) = refl
    json_value_idem (str s) = refl
    json_value_idem (entry_type s) = refl
    json_value_idem (floats xs) = rw (float_items_json xs)
    json_value_idem (arr xs) = rw (json_items_idem xs)
    json_value_idem (obj fs) = rw (json_fields_idem fs)

    json_items_idem : (vs : Items Float) → json_items fl (json_items fl vs) ≡ json_items fl vs
    json_items_idem no_items = refl
    json_items_idem (item v vs) = rw (json_value_idem v, json_items_idem vs)

    pub json_fields_idem :
        (fs : Fields Float) → json_fields fl (json_fields fl fs) ≡ json_fields fl fs
    json_fields_idem no_fields = refl
    json_fields_idem (field k v fs) = rw (json_value_idem v, json_fields_idem fs)

  -- a document after json.Marshal and json.Unmarshal
  unfoldable pub json_document : Document Float → Document Float
  json_document [] = []
  json_document ((k, v) ∷ es) = (k, json_value fl v) ∷ json_document es

  pub json_fields-fields_of :
      (es : Document Float) → json_fields fl (fields_of es) ≡ fields_of (json_document es)
  unfolding json_value fields_of json_document
  json_fields-fields_of [] = refl
  json_fields-fields_of ((k, v) ∷ es) = rw (json_fields-fields_of es)

  abbrev pub json_option : Option (Value Float) → Option (Value Float)
  json_option none = none
  json_option (some v) = some (json_value fl v)

  pub lookup-json_document :
      (k : String) (es : Document Float) → lookup k (json_document es) ≡ json_option (lookup k es)
  unfolding lookup json_document
  lookup-json_document k [] = refl
  lookup-json_document k ((j, v) ∷ es) = ground (arith, lookup-json_document k es)

  pub json_document_idem :
      (es : Document Float) → json_document (json_document es) ≡ json_document es
  unfolding json_document
  json_document_idem [] = refl
  json_document_idem ((k, v) ∷ es) = rw (json_value_idem v, json_document_idem es)

  pub json_document-Distinct : (es : Document Float) → Distinct es → Distinct (json_document es)
  unfolding json_document
  json_document-Distinct [] d = tt
  json_document-Distinct ((k, v) ∷ es) d =
      (lookup-json_document k es ∙ ap json_option (d.0), json_document-Distinct es (d.1))
